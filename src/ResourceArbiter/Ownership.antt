-- ===== src/ResourceArbiter/Ownership.antt =====
-- What an owner may rely on: exclusion, who can take a resource away, and the round trip.
use Prim.Native.String.{String}
use text.Mathlib.TextEquality.{eq_iff}
use hdrt.Prelude.{
  ℕ, ◌^◌, ◌<◌, ◌≡◌, ◌≢◌, ◌↔◌, ◌⊎◌, inl, inr, refl, Bool, true, false, ◌&&◌, ◌||◌, some, ◌==◌,
  if◌then◌else◌, arith, bit_and, List, [], ◌∷◌, Bool-cases,
}
use hdrt.Bits.{test_bit, disjoint_iff}
use hdrt.ResourceArbiter.{
  Context, Owner, ota, ensure, publish_trigger_activity, can_begin_ota, owner_matches, refuse,
  acquire_owned, release_owned, get_snapshot,
}
use hdrt.ResourceArbiter.Invariant.{
  IsSound, ensure-ensure, ensure-publish, ensure-grant, ensure-refuse, ensure-relinquish,
  grant_bits, grant_owners, grant_mode, releases, relinquish_bits, relinquish_owners,
}
use hdrt.ResourceArbiter.Calls.{
  Call, init_call, publish, query, acquire, release, snapshot, serve, serve_all, IsWord, AllWords,
  acquire_nothing, acquire_granted, acquire_refused, serve-IsSound,
}

-- A call of `acquire_owned` succeeds exactly when it asks for something and none of the resources
-- that it asks for is taken.
pub acquire_iff :
    (resources : ℕ) (owner : Owner) (s : Context)
    → ((acquire_owned resources owner s).1 ≡ true) ↔ (
        (resources ≢ 0)
        × ((j : ℕ) → test_bit resources j ≡ true → test_bit (ensure s).active_resources j ≡ false))
acquire_iff resources owner s = elim (Bool-cases (resources == 0)) [
  | inl nothing ↦
      rw (acquire_nothing resources owner s nothing) (λ e. cc, λ h. absurd (h.0 (ground arith)))
  | inr asked ↦ elim (Bool-cases (bit_and active resources == 0)) [
    | inl free ↦
        rw (acquire_granted resources owner s asked free)
          (λ _. (ground arith, λ j e. ground (arith, clear.0 free j)), λ _. refl)
    | inr taken ↦
        rw (acquire_refused resources owner s asked taken)
          (λ e. cc, λ h. ground (arith, clear.1 (λ j e. ground (arith, h.1 j))))
  ]
]
  where
    active : ℕ
    active = (ensure s).active_resources

    clear :
        ((bit_and active resources == 0) ≡ true)
        ↔ ((j : ℕ) → test_bit active j ≡ true → test_bit resources j ≡ false)
    clear = disjoint_iff active resources

-- One call of `acquire_owned`, whatever its outcome: if it succeeds, the resources asked for are
-- taken and have the caller as their owner, and the mode is OTA where the flash is among them. Each
-- other resource, its owner and else the mode stay as they were; a call that fails changes none.
pub acquire_effect :
    (resources : ℕ) (owner : Owner) (s : Context) (j : ℕ)
    → resources < 2 ^ 32
    → let (s', done) = acquire_owned resources owner s in
      (test_bit (ensure s').active_resources j
        ≡ (test_bit (ensure s).active_resources j || done && test_bit resources j))
      × ((ensure s').resource_owners j
          ≡ (if done && test_bit resources j then owner else (ensure s).resource_owners j))
      × ((ensure s').mode ≡ (if done && test_bit resources 0 then ota else (ensure s).mode))
acquire_effect resources owner s j small = elim (Bool-cases (resources == 0)) [
  | inl nothing ↦ rw (acquire_nothing resources owner s nothing) (ground arith, refl, refl)
  | inr asked ↦ elim (Bool-cases (bit_and (ensure s).active_resources resources == 0)) [
    | inl free ↦
        rw (acquire_granted resources owner s asked free, ensure-grant)
          (
            grant_bits resources owner (ensure s) j,
            grant_owners resources owner (ensure s) j small,
            grant_mode resources owner (ensure s),
          )
    | inr taken ↦
        rw (acquire_refused resources owner s asked taken, ensure-refuse)
          (refused s (bit_and (ensure s).active_resources resources))
  ]
]
  where
    refused :
        (s : Context) (conflicts : ℕ)
        → let r = refuse conflicts owner (ensure s) in
          (test_bit r.active_resources j ≡ (test_bit (ensure s).active_resources j || false))
          × (r.resource_owners j ≡ (ensure s).resource_owners j)
          × (r.mode ≡ (ensure s).mode)
    refused s conflicts = unfold refuse in (ground arith, refl, refl)

-- Resource `j` is taken, and `owner` is on record for it.
pub record Holds (j : ℕ) (owner : String) (s : Context) : Type 0 where
  pub taken : test_bit (ensure s).active_resources j ≡ true
  pub held : (ensure s).resource_owners j ≡ some owner

-- A call that is neither a reset nor a release of `j` in the name of `owner` or of nobody.
abbrev pub Spares : ℕ → String → Call → Type 0
Spares j owner init_call = ⊥
Spares j owner (release resources by) =
    (test_bit resources j ≡ false) ⊎ ((x : String) × (by ≡ some x) × (x ≢ owner))
Spares j owner _ = Unit {0}

abbrev pub AllSpare : ℕ → String → List Call → Type 0
AllSpare j owner [] = Unit {0}
AllSpare j owner (c ∷ cs) = Spares j owner c × AllSpare j owner cs

module _ (j : ℕ) (owner : String) where
  pub acquire_taken :
      (resources : ℕ) (by : Owner) (s : Context)
      → Holds j owner s
      → test_bit resources j ≡ true
      → (acquire_owned resources by s).1 ≡ false
  acquire_taken resources by s h e = elim (Bool-cases (acquire_owned resources by s).1) [
    | inl done ↦ ground (arith, ((acquire_iff resources by s).0 done).1 j, h.taken)
    | inr failed ↦ failed
  ]

  pub acquire-Holds :
      (resources : ℕ) (by : Owner) (s : Context)
      → resources < 2 ^ 32
      → Holds j owner s
      → Holds j owner (acquire_owned resources by s).0
  acquire-Holds resources by s small h = record {
    taken = ground (arith, acquire_effect resources by s j small, h.taken);
    held =
        ground
          (arith, acquire_effect resources by s j small, h.held, acquire_taken resources by s h);
  }

  spared :
      (resources : ℕ) (by : Owner) (s : Context)
      → Spares j owner (release resources by)
      → Holds j owner s
      → releases resources by (ensure s) j ≡ false
  unfolding owner_matches
  spared resources by s (inl other) h = rw other refl
  spared resources by s (inr (x, e, ne)) h = rw (e, h.held) (ground (arith, eq_iff x owner))

  pub release-Holds :
      (resources : ℕ) (by : Owner) (s : Context)
      → resources < 2 ^ 32
      → IsSound s
      → Spares j owner (release resources by)
      → Holds j owner s
      → Holds j owner (release_owned resources by s)
  unfolding release_owned
  release-Holds resources by s small v spare h = elim (Bool-cases (resources == 0)) [
    | inl nothing ↦ rw nothing h
    | inr asked ↦ rw asked (record {
      taken = rw ensure-relinquish (
          ground (
            arith,
            relinquish_bits resources by (ensure s) v j small,
            spared resources by s spare h,
            h.taken,
          ));
      held = rw ensure-relinquish (
          ground (
            arith,
            relinquish_owners resources by (ensure s) v j small,
            spared resources by s spare h,
            h.held,
          ));
    })
  ]

  publish-Holds :
      (capture clock : Bool) (s : Context)
      → Holds j owner s
      → Holds j owner (publish_trigger_activity capture clock s)
  publish-Holds capture clock s h = record {
    taken = rw ensure-publish (unfold publish_trigger_activity in h.taken);
    held = rw ensure-publish (unfold publish_trigger_activity in h.held);
  }

  again-Holds : (s : Context) → Holds j owner s → Holds j owner (ensure s)
  again-Holds s h = record { taken = rw ensure-ensure h.taken; held = rw ensure-ensure h.held }

  serve-Holds :
      (c : Call) (s : Context)
      → IsWord c
      → IsSound s
      → Spares j owner c
      → Holds j owner s
      → Holds j owner (serve c s)
  unfolding serve can_begin_ota get_snapshot
  serve-Holds init_call s w v spare h = absurd spare
  serve-Holds (publish capture clock) s w v spare h = publish-Holds capture clock s h
  serve-Holds query s w v spare h = again-Holds s h
  serve-Holds (acquire resources by) s w v spare h = acquire-Holds resources by s w h
  serve-Holds (release resources by) s w v spare h = release-Holds resources by s w v spare h
  serve-Holds (snapshot true) s w v spare h = again-Holds s h
  serve-Holds (snapshot false) s w v spare h = h

  serve_all-Holds :
      (cs : List Call) (s : Context)
      → AllWords cs
      → IsSound s
      → AllSpare j owner cs
      → Holds j owner s
      → Holds j owner (serve_all cs s)
  unfolding serve_all
  serve_all-Holds [] s w v spare h = h
  serve_all-Holds (c ∷ cs) s w v spare h =
      serve_all-Holds cs (serve c s) w.1 (serve-IsSound c s w.0 v) spare.1
        (serve-Holds c s w.0 v spare.0 h)

  -- Mutual exclusion. From a sound state in which `owner` holds resource `j`, after any calls none
  -- of which resets the arbiter or releases `j` in the name of `owner` or of nobody, `owner` still
  -- holds `j`, and every call of `acquire_owned` that asks for `j` fails, whoever makes it.
  pub holder_keeps :
      (cs : List Call) (s : Context) (resources : ℕ) (by : Owner)
      → AllWords cs
      → IsSound s
      → AllSpare j owner cs
      → Holds j owner s
      → test_bit resources j ≡ true
      → Holds j owner (serve_all cs s) × ((acquire_owned resources by (serve_all cs s)).1 ≡ false)
  holder_keeps cs s resources by w v spare h asks = (
    serve_all-Holds cs s w v spare h,
    acquire_taken resources by (serve_all cs s) (serve_all-Holds cs s w v spare h) asks,
  )
