-- ===== src/DistributedRefmem/Layout.antt =====
-- components/distributed_refmem/src/distributed_refmem.c: the slots of the directory.
use hdrt.Prelude.{ℕ, ◌+◌, ◌≡◌, List, [], ◌∷◌}
use hdrt.DistributedRefmem.{SlotDir}

-- The slots of a list lie one behind the other, from `from` to `to`.
abbrev pub Tiles : ℕ → List SlotDir → ℕ → Type 0
Tiles from [] to = from ≡ to
Tiles from (s ∷ slots) to = (s.offset ≡ from) × Tiles (from + s.size) slots to
