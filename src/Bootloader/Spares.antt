-- ===== src/Bootloader/Spares.antt =====
-- bootloader/src/bootloader_main.c: steps that leave a part of the flash alone, put together the way
-- the code does.
use hdrt.Prelude.{
  ℕ, ◌+◌, ◌%◌, ◌≤◌, ◌<◌, ◌≡◌, ◌⊎◌, refl, Bool, true, false, not, Option, none, some, ltb, arith,
}
use hdrt.Flash.{sector_size, page_size}
use hdrt.Flash.Frame.{SameOn, SameOn_trans}
use hdrt.OtaMetadata.Partition.{slot_a_offset, slot_size}
use hdrt.Bootloader.Copy.{Boot, and_then, and_fail, regardless, round_up, finished}

-- The step leaves the bytes at `S` as they were.
pub data Spares (S : ℕ → Type 0) (s : Boot) (r : Boot × Bool) : Type 0 where
  spared : SameOn S s.flash r.0.flash → Spares S s r

abbrev pub untouched :
    {S : ℕ → Type 0} {s : Boot} {r : Boot × Bool} → Spares S s r → SameOn S s.flash r.0.flash
untouched (spared h) = h

abbrev pub SparesOption : (ℕ → Type 0) → Boot → Option (Boot × Bool) → Type 0
SparesOption S s none = Unit {0}
SparesOption S s (some r) = Spares S s r

module _ (S : ℕ → Type 0) where
  pub same : (s : Boot) (ok : Bool) → Spares S s (s, ok)
  same s ok = spared (λ i h. refl)

  pub then_Spares :
      (s t : Boot) (ok : Bool) (r : Boot × Bool) → Spares S s (t, ok) → Spares S t r → Spares S s r
  then_Spares s t ok r h k =
      spared (SameOn_trans S s.flash t.flash r.0.flash (untouched h) (untouched k))

  pub and_then-Spares :
      (s : Boot) (r : Boot × Bool) (next : Boot → Boot × Bool)
      → Spares S s r
      → ((t : Boot) → Spares S t (next t))
      → Spares S s (and_then r next)
  and_then-Spares s (t, true) next h k = then_Spares s t true (next t) h (k t)
  and_then-Spares s (t, false) next h k = h

  -- What follows the first step leaves alone.
  pub and_then_rest :
      (r : Boot × Bool) (next : Boot → Boot × Bool)
      → ((t : Boot) → Spares S t (next t))
      → Spares S r.0 (and_then r next)
  and_then_rest (t, true) next k = k t
  and_then_rest (t, false) next k = same t false

  pub regardless-Spares :
      (s : Boot) (r : Boot × Bool) (next : Boot → Boot × Bool)
      → Spares S s r
      → ((t : Boot) → Spares S t (next t))
      → Spares S s (regardless r next)
  regardless-Spares s (t, ok) next h k = then_Spares s t ok (next t) h (k t)

  pub and_fail-Spares : (s : Boot) (r : Boot × Bool) → Spares S s r → Spares S s (and_fail r)
  and_fail-Spares s (t, ok) h = spared (untouched h)

  pub SparesOption-after :
      (s : Boot) (r : Boot × Bool) (o : Option (Boot × Bool))
      → Spares S s r
      → SparesOption S r.0 o
      → SparesOption S s o
  SparesOption-after s r none h k = tt
  SparesOption-after s (t, ok) (some x) h k = then_Spares s t ok x h k

  pub finished-Spares :
      (s : Boot) (o : Option (Boot × Bool)) → SparesOption S s o → Spares S s (finished s o)
  finished-Spares s none h = same s false
  finished-Spares s (some r) h = h

pub within_slot :
    (copied size i : ℕ)
    → size ≤ slot_size
    → not (ltb copied size) ≡ false
    → (slot_a_offset + copied) % page_size ≡ 0
    → (i < slot_a_offset) ⊎ (slot_a_offset + slot_size ≤ i)
    → (i < slot_a_offset + copied) ⊎ (slot_a_offset + copied + page_size ≤ i)
within_slot copied size i h e a q = ground arith

pub sectors_within :
    (size i : ℕ)
    → size ≤ slot_size
    → (i < slot_a_offset) ⊎ (slot_a_offset + slot_size ≤ i)
    → (i < slot_a_offset) ⊎ (slot_a_offset + round_up size sector_size ≤ i)
unfolding round_up
sectors_within size i h q = ground arith

module _ (dst copied i : ℕ) where
  pub within :
      (chunk : ℕ)
      → chunk ≤ page_size
      → (i < dst + copied) ⊎ (dst + copied + page_size ≤ i)
      → (i < dst + copied) ⊎ (dst + copied + round_up chunk page_size ≤ i)
  unfolding round_up
  within chunk small h = ground arith
