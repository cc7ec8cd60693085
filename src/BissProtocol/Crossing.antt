-- ===== src/BissProtocol/Crossing.antt =====
-- When `biss_crossed_position` says that an encoder has passed its target.
use native.Mathlib.Nat.{mod-eq_of_lt, mod-eq-sub-mod}
use hdrt.Prelude.{ℕ, ◌+◌, ◌-◌, ◌%◌, ◌≤◌, ◌<◌, ◌≡◌, ◌↔◌, true, ltb, if◌then◌else◌, arith, dec_lt}
use hdrt.BissProtocol.Fields.{crossed_position}

-- One turn of the ring: the remainder of a number below twice the modulus.
wrap_once : (x m : ℕ) → x < m + m → x % m ≡ (if ltb x m then x else x - m)
wrap_once x m h = elim (dec_lt x m) [
  | yes lt ↦ ground (arith, mod-eq_of_lt lt)
  | no ge ↦ ground (
    arith,
    mod-eq-sub-mod {n = x} {m = m} (omega arith),
    mod-eq_of_lt {n = x - m} {m = m} (omega arith),
  )
]

-- The encoder moves forward from `last` to `current` on a ring of `modulo` positions, by less than a
-- full turn. It has crossed the target exactly when one of the positions that it comes to, the last
-- one included and the first one not, is the target.
pub crossed_position_iff :
    (last current target modulo : ℕ)
    → last < modulo
    → current < modulo
    → target < modulo
    → (crossed_position last current target modulo ≡ true) ↔ (
        (k : ℕ) × (1 ≤ k)
        × (k ≤ (current + modulo - last) % modulo)
        × ((last + k) % modulo ≡ target))
unfolding crossed_position
crossed_position_iff last current target modulo hl hc ht = (
  λ crossed. (
    if ltb last target then target - last else target + modulo - last,
    ground arith,
    ground (arith, wrap_once (current + modulo - last) modulo),
    ground (
      arith,
      wrap_once (last + (if ltb last target then target - last else target + modulo - last)) modulo,
    ),
  ),
  λ (k, lo, hi, e).
      ground (arith, wrap_once (current + modulo - last) modulo, wrap_once (last + k) modulo),
)

-- Outside its domain (a modulus of 0, a position or target not on the ring) nothing is crossed, and
-- neither is it where the encoder has not moved.
pub not_crossed :
    (last current target modulo : ℕ)
    → crossed_position last current target modulo ≡ true
    → (target < modulo) × (last < modulo) × (current < modulo) × (last ≡ current → ⊥)
unfolding crossed_position
not_crossed last current target modulo h = ground arith
