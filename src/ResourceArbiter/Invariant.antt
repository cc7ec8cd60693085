-- ===== src/ResourceArbiter/Invariant.antt =====
-- What every call of the arbiter sees of `active_resources`, `resource_owners` and `mode`.
use hdrt.Prelude.{
  ℕ, ◌^◌, ◌<◌, ◌≡◌, refl, Bool, true, false, ◌&&◌, ◌||◌, not, none, ◌==◌, if◌then◌else◌, arith,
  bit_and,
}
use hdrt.Bits.{test_bit, test_bit-bit_or, test_bit_high, bit_and-pow, bit_or-lt}
use hdrt.ResourceArbiter.{
  Context, Owner, Mode, run, ota, is_mode_ota, flash, reset, ensure, publish_trigger_activity,
  owner_matches, grant, refuse, drop_from, holding, relinquish,
}
use hdrt.ResourceArbiter.Loops.{claim_from_lem, Dropped, drop_from-Dropped}

abbrev pub is_live : Mode → Bool
is_live run = true
is_live ota = true
is_live _ = false

pub record IsValid (s : Context) : Type 0 where
  pub initialized : s.initialized ≡ true
  pub fits : s.active_resources < 2 ^ 32
  -- only an active resource has an owner
  pub owned : (j : ℕ) → test_bit s.active_resources j ≡ false → s.resource_owners j ≡ none
  -- the mode says whether the flash is taken
  pub ota_mode : is_mode_ota s.mode ≡ test_bit s.active_resources 0
  pub live : is_live s.mode ≡ true

-- Every operation starts by `ensure`.
abbrev pub IsSound : Context → Type 0
IsSound s = IsValid (ensure s)

pub reset-IsValid : IsValid reset
unfolding reset test_bit
reset-IsValid = record {
  initialized = refl;
  fits = omega arith;
  owned = λ j e. refl;
  ota_mode = refl;
  live = refl;
}

ensure_valid : (s : Context) → IsValid s → ensure s ≡ s
unfolding ensure
ensure_valid s v = rw v.initialized refl

pub IsValid-IsSound : (s : Context) → IsValid s → IsSound s
IsValid-IsSound s v = rw (ensure_valid s v) v

pub ensure-ensure : (s : Context) → ensure (ensure s) ≡ ensure s
unfolding ensure reset
ensure-ensure s = ground arith

ensure_initialized : (s : Context) → (ensure s).initialized ≡ true
unfolding ensure reset
ensure_initialized s = ground arith

ensure_of_initialized : (s : Context) → s.initialized ≡ true → ensure s ≡ s
unfolding ensure
ensure_of_initialized s e = rw e refl

pub ensure-publish :
    (capture clock : Bool) (s : Context)
    → ensure (publish_trigger_activity capture clock s) ≡ publish_trigger_activity capture clock s
unfolding publish_trigger_activity
ensure-publish capture clock s = ensure_of_initialized _ (ensure_initialized s)

module _ (resources : ℕ) (owner : Owner) (s : Context) where
  pub ensure-grant : ensure (grant resources owner (ensure s)) ≡ grant resources owner (ensure s)
  unfolding grant
  ensure-grant = ensure_of_initialized _ (ensure_initialized s)

  pub ensure-refuse : ensure (refuse resources owner (ensure s)) ≡ refuse resources owner (ensure s)
  unfolding refuse
  ensure-refuse = ensure_of_initialized _ (ensure_initialized s)

  pub ensure-relinquish :
      ensure (relinquish resources owner (ensure s)) ≡ relinquish resources owner (ensure s)
  unfolding relinquish
  ensure-relinquish = ensure_of_initialized _ (ensure_initialized s)

-- The single bit tests of the source, as digits.
pub flash_test : (x : ℕ) → (bit_and x flash == 0) ≡ not (test_bit x 0)
flash_test x = ground (arith, bit_and-pow x 0)

module _ (resources : ℕ) (owner : Owner) (s : Context) where
  -- A granted call marks the resources asked for as taken by the caller, and no others.
  pub grant_bits :
      (j : ℕ)
      → test_bit (grant resources owner s).active_resources j
        ≡ (test_bit s.active_resources j || test_bit resources j)
  unfolding grant
  grant_bits j = test_bit-bit_or s.active_resources resources j

  pub grant_owners :
      (j : ℕ)
      → resources < 2 ^ 32
      → (grant resources owner s).resource_owners j
        ≡ (if test_bit resources j then owner else s.resource_owners j)
  unfolding grant
  grant_owners j small = ground (
    arith,
    claim_from_lem resources owner 32 0 s.resource_owners j,
    test_bit_high 32 resources j small,
  )

  pub grant_mode : (grant resources owner s).mode ≡ (if test_bit resources 0 then ota else s.mode)
  unfolding grant
  grant_mode = rw flash_test (ground arith)

  pub grant-IsValid : resources < 2 ^ 32 → IsValid s → IsValid (grant resources owner s)
  grant-IsValid small v = record {
    initialized = unfold grant in v.initialized;
    fits = unfold grant in bit_or-lt 32 s.active_resources resources v.fits small;
    owned = λ j e. ground (arith, grant_bits j, grant_owners j small, v.owned j);
    ota_mode = ground (arith, grant_bits 0, grant_mode, v.ota_mode);
    live = ground (arith, grant_mode, v.live);
  }

  -- A refused call changes nothing but the record of the conflict.
  pub refuse-IsValid : IsValid s → IsValid (refuse resources owner s)
  unfolding refuse
  refuse-IsValid v = record {
    initialized = v.initialized;
    fits = v.fits;
    owned = v.owned;
    ota_mode = v.ota_mode;
    live = v.live;
  }

-- Whether `release_owned` takes resource `j` away.
abbrev pub releases : ℕ → Owner → Context → ℕ → Bool
releases resources owner s j = test_bit resources j && owner_matches owner (s.resource_owners j)

module _ (resources : ℕ) (owner : Owner) (s : Context) (v : IsValid s) where
  dropped : Dropped resources owner 32 0 (holding s) (drop_from resources owner 32 0 (holding s))
  dropped = drop_from-Dropped resources owner 32 0 (holding s) (omega arith) v.fits

  pub relinquish_bits :
      (j : ℕ)
      → resources < 2 ^ 32
      → test_bit (relinquish resources owner s).active_resources j
        ≡ (test_bit s.active_resources j && not (releases resources owner s j))
  unfolding relinquish
  relinquish_bits j small = ground (arith, dropped.active j, test_bit_high 32 resources j small)

  pub relinquish_owners :
      (j : ℕ)
      → resources < 2 ^ 32
      → (relinquish resources owner s).resource_owners j
        ≡ (if releases resources owner s j then none else s.resource_owners j)
  unfolding relinquish
  relinquish_owners j small = ground (arith, dropped.owners j, test_bit_high 32 resources j small)

  -- The arbiter leaves the OTA mode just where the flash is free afterwards.
  pub relinquish_mode : (relinquish resources owner s).mode ≡ (
      if not (test_bit (relinquish resources owner s).active_resources 0) && is_mode_ota s.mode
      then run
      else s.mode)
  unfolding relinquish
  relinquish_mode = rw flash_test (ground arith)

  pub relinquish-IsValid : resources < 2 ^ 32 → IsValid (relinquish resources owner s)
  relinquish-IsValid small = record {
    initialized = unfold relinquish in v.initialized;
    fits = unfold relinquish in dropped.small;
    owned = λ j e. ground (arith, relinquish_bits j small, relinquish_owners j small, v.owned j);
    ota_mode = ground (arith, relinquish_bits 0 small, relinquish_mode, v.ota_mode);
    live = ground (arith, relinquish_mode, v.live);
  }
