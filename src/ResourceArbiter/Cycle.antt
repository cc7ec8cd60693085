-- ===== src/ResourceArbiter/Cycle.antt =====
-- Taking and giving back, the permission for an OTA update, and whom a refused call names.
use text.Mathlib.TextPositions.{eq_refl}
use hdrt.Prelude.{
  ℕ, zero, suc, ◌+◌, ◌^◌, ◌≤◌, ◌<◌, ◌≡◌, ◌≢◌, ap, inl, inr, refl, true, false, none, some, ◌==◌,
  arith, bit_and, ℕ_discrete, Bool-cases,
}
use hdrt.Bits.{bits_ext, test_bit}
use hdrt.ResourceArbiter.{
  Mode, boot, run, ota, fault, is_mode_fault, Owner, Context, owner_matches, first_owner_from,
  first_owner, ensure, grant, refuse, acquire_owned, relinquish, release_owned,
}
use hdrt.ResourceArbiter.Loops.{has_bit_lem}
use hdrt.ResourceArbiter.Invariant.{
  IsValid, IsSound, ensure-grant, grant_bits, grant_owners, grant_mode, grant-IsValid, releases,
  relinquish_bits, relinquish_owners, relinquish_mode,
}
use hdrt.ResourceArbiter.Calls.{acquire_granted, acquire_refused}
use hdrt.ResourceArbiter.Ownership.{acquire_iff}

pub mode_faulted : (m : Mode) → is_mode_fault m ≡ true → m ≡ fault
mode_faulted boot e = ground arith
mode_faulted run e = ground arith
mode_faulted ota e = ground arith
mode_faulted fault e = refl

pub mode_alive : (m : Mode) → is_mode_fault m ≡ false → m ≢ fault
mode_alive m e same = ground (arith, e, ap is_mode_fault same)

owner_matches_self : (owner : Owner) → owner_matches owner owner ≡ true
unfolding owner_matches
owner_matches_self none = refl
owner_matches_self (some x) = eq_refl x

module _ (resources : ℕ) (owner : Owner) (s : Context) (small : resources < 2 ^ 32)
    (v : IsValid s) where
  -- a grant, and the release that undoes it
  granted : Context
  granted = grant resources owner s

  valid : IsValid granted
  unfolding granted
  valid = grant-IsValid resources owner s small v

  given_back : Context
  given_back = relinquish resources owner granted

  module _
      (free : (j : ℕ) → test_bit resources j ≡ true → test_bit s.active_resources j ≡ false) where
    mine : (j : ℕ) → test_bit resources j ≡ true → releases resources owner granted j ≡ true
    unfolding granted
    mine j e = ground (arith, grant_owners resources owner s j small, owner_matches_self owner)

    same_bits : (j : ℕ) → test_bit given_back.active_resources j ≡ test_bit s.active_resources j
    unfolding given_back granted
    same_bits j = ground (
      arith,
      relinquish_bits resources owner granted valid j small,
      grant_bits resources owner s j,
      mine j,
      free j,
    )

    same_owners : (j : ℕ) → given_back.resource_owners j ≡ s.resource_owners j
    unfolding given_back granted
    same_owners j = ground (
      arith,
      relinquish_owners resources owner granted valid j small,
      grant_owners resources owner s j small,
      mine j,
      free j,
      v.owned j,
    )

    same_mode : given_back.mode ≡ s.mode
    unfolding given_back granted
    same_mode = ground (
      arith,
      relinquish_mode resources owner granted valid,
      grant_mode resources owner s,
      same_bits 0,
      v.live,
      v.ota_mode,
    )

    given_back_lem : given_back ≡ s
    unfolding given_back granted grant relinquish
    given_back_lem = λ i. record s {
      mode = same_mode i;
      active_resources = bits_ext given_back.active_resources s.active_resources same_bits i;
      resource_owners = λ j. same_owners j i;
    }

-- A granted call followed by the release of the same resources in the name of the same owner gives
-- back the state before, to the last field.
pub release_owned-acquire_owned :
    (resources : ℕ) (owner : Owner) (s : Context)
    → resources < 2 ^ 32
    → IsSound s
    → (acquire_owned resources owner s).1 ≡ true
    → release_owned resources owner (acquire_owned resources owner s).0 ≡ ensure s
unfolding release_owned
release_owned-acquire_owned resources owner s small v done = elim (Bool-cases (resources == 0)) [
  | inl nothing ↦ absurd (((acquire_iff resources owner s).0 done).0 (ground arith))
  | inr asked ↦ elim (Bool-cases (bit_and (ensure s).active_resources resources == 0)) [
    | inl free ↦
        rw (acquire_granted resources owner s asked free, asked, ensure-grant)
          (unfold given_back granted in
            given_back_lem resources owner (ensure s) small v
              ((acquire_iff resources owner s).0 done).1)
    | inr taken ↦ ground (arith, acquire_refused resources owner s asked taken)
  ]
]

-- The first of the resources whose owner is on record, from `bit` up, and that owner.
abbrev pub FirstOwner : (ℕ → Owner) → ℕ → ℕ → ℕ → Owner → Type 0
FirstOwner owners resources left bit none =
    (j : ℕ) → bit ≤ j → j < bit + left → test_bit resources j ≡ true → owners j ≡ none
FirstOwner owners resources left bit (some owner) =
    (k : ℕ) × (k < bit + left)
    × (test_bit resources k ≡ true)
    × (owners k ≡ some owner)
    × ((j : ℕ) → bit ≤ j → j < k → test_bit resources j ≡ true → owners j ≡ none)

-- One more bit in front: it is not asked for, or has no owner, or is the first.
module _ (owners : ℕ → Owner) (resources left bit : ℕ) where
  skip_bit :
      (found : Owner)
      → (test_bit resources bit ≡ true → owners bit ≡ none)
      → FirstOwner owners resources left (bit + 1) found
      → FirstOwner owners resources (suc left) bit found
  skip_bit none skip f = λ j lo hi e. elim (ℕ_discrete j bit) [
    | yes same ↦ rw same (skip (rw (← same) e))
    | no other ↦ f j (omega arith) (omega arith) e
  ]
  skip_bit (some owner) skip (k, lt, e, o, before) = (
    k,
    omega arith,
    e,
    o,
    λ j lo hi e'. elim (ℕ_discrete j bit) [
      | yes same ↦ rw same (skip (rw (← same) e'))
      | no other ↦ before j (omega arith) hi e'
    ],
  )

  this_bit :
      (found : Owner) (rest : Owner)
      → test_bit resources bit ≡ true
      → owners bit ≡ found
      → FirstOwner owners resources left (bit + 1) rest
      → FirstOwner owners resources
          (suc left)
          bit
          (elim found [ some owner ↦ some owner | none ↦ rest ])
  this_bit none rest e o f = skip_bit rest (λ _. o) f
  this_bit (some owner) rest e o f = (bit, omega arith, e, o, λ j lo hi e'. absurd (omega arith))

first_owner_from_lem :
    (owners : ℕ → Owner) (resources left bit : ℕ)
    → FirstOwner owners resources left bit (first_owner_from owners resources left bit)
unfolding first_owner_from
first_owner_from_lem owners resources zero bit = λ j lo hi e. absurd (omega arith)
first_owner_from_lem owners resources (suc left) bit = elim (Bool-cases (test_bit resources bit)) [
  | inl set ↦
      rw (has_bit_lem, set)
        (this_bit owners resources left bit (owners bit) _ set refl
          (first_owner_from_lem owners resources left (bit + 1)))
  | inr clear ↦
      rw (has_bit_lem, clear)
        (skip_bit owners resources left bit _ (λ e. ground arith)
          (first_owner_from_lem owners resources left (bit + 1)))
]

-- A refused call leaves behind what the diagnostics show: the resources asked for that were taken,
-- the caller, and the owner of the lowest of those resources that has one on record (nobody if none
-- has).
pub conflict_report :
    (resources : ℕ) (owner : Owner) (s : Context)
    → resources ≢ 0
    → (acquire_owned resources owner s).1 ≡ false
    → let t = (acquire_owned resources owner s).0 in
      (t.last_conflict_resources ≡ bit_and (ensure s).active_resources resources)
      × (t.last_conflict_owner ≡ owner)
      × FirstOwner (ensure s).resource_owners t.last_conflict_resources 32 0 t.last_conflict_holder
conflict_report resources owner s asks failed =
    elim (Bool-cases (bit_and (ensure s).active_resources resources == 0)) [
      | inl free ↦ ground (arith, acquire_granted resources owner s asked free)
      | inr taken ↦ rw (acquire_refused resources owner s asked taken) (
          unfold refuse first_owner in
          (
            refl,
            refl,
            first_owner_from_lem (ensure s).resource_owners
                (bit_and (ensure s).active_resources resources) 32 0,
          ))
    ]
  where
    asked : (resources == 0) ≡ false
    asked = ground arith
