-- ===== src/ResourceArbiter/Tests.antt =====
-- The theorems about resource_arbiter.c at concrete states.
use hdrt.Prelude.{
  ℕ, ◌≡◌, ◌≢◌, ◌↔◌, refl, true, false, ◌&&◌, ◌||◌, none, some, List, [], ◌∷◌, if◌then◌else◌, arith,
  bit_and,
}
use hdrt.Bits.{test_bit}
use hdrt.ResourceArbiter.{
  Context, has_bit, zeroed, reset, ensure, claim_from, grant, acquire_owned, release_owned, ota,
}
use hdrt.ResourceArbiter.Invariant.{IsSound}
use hdrt.ResourceArbiter.Calls.{Call, serve, serve_all, serve_all-IsSound, query, acquire, release}
use hdrt.ResourceArbiter.Ownership.{acquire_iff, acquire_effect, Holds, holder_keeps}
use hdrt.ResourceArbiter.Cycle.{release_owned-acquire_owned, FirstOwner, conflict_report}

-- The trigger holds PIO1 and DMA; the storage asks for DMA, then gives back what it never got.
abbrev conversation : List Call
conversation =
    acquire 80 (some "sync.seq_step")
    ∷ acquire 64 (some "storage")
    ∷ release 64 (some "storage")
    ∷ []

serve_all-IsSound_example : IsSound (serve_all conversation zeroed)
serve_all-IsSound_example =
    serve_all-IsSound conversation (omega arith, (omega arith, (omega arith, tt)))

abbrev taken_state : Context
taken_state = (acquire_owned 80 (some "sync.seq_step") zeroed).0

taken_state-IsSound : IsSound taken_state
unfolding serve serve_all
taken_state-IsSound = serve_all-IsSound (acquire 80 (some "sync.seq_step") ∷ []) (omega arith, tt)

taken_state-Holds : Holds 6 "sync.seq_step" taken_state
unfolding acquire_owned ensure zeroed reset grant claim_from has_bit test_bit
taken_state-Holds = record { taken = refl; held = refl }

holder_keeps_example :
    Holds 6 "sync.seq_step" (serve_all (acquire 64 none ∷ query ∷ []) taken_state)
    × ((acquire_owned 64 (some "storage") (serve_all (acquire 64 none ∷ query ∷ []) taken_state)).1
        ≡ false)
unfolding test_bit
holder_keeps_example =
    holder_keeps 6 "sync.seq_step" (acquire 64 none ∷ query ∷ []) taken_state 64 (some "storage")
      (omega arith, (tt, tt)) taken_state-IsSound (tt, (tt, tt)) taken_state-Holds refl

acquire_iff_example : ((acquire_owned 64 (some "storage") taken_state).1 ≡ true) ↔ (
    (◌≢◌ {A = ℕ} 64 0)
    × ((j : ℕ) → test_bit 64 j ≡ true → test_bit (ensure taken_state).active_resources j ≡ false))
acquire_iff_example = acquire_iff 64 (some "storage") taken_state

acquire_effect_example :
    let (s', done) = acquire_owned 4 (some "usb") taken_state in
    (test_bit (ensure s').active_resources 2
      ≡ (test_bit (ensure taken_state).active_resources 2 || done && test_bit 4 2))
    × ((ensure s').resource_owners 2
        ≡ (if done && test_bit 4 2 then some "usb" else (ensure taken_state).resource_owners 2))
    × ((ensure s').mode ≡ (if done && test_bit 4 0 then ota else (ensure taken_state).mode))
acquire_effect_example = acquire_effect 4 (some "usb") taken_state 2 (omega arith)

release_owned-acquire_owned_example :
    release_owned 5 (some "ota") (acquire_owned 5 (some "ota") taken_state).0 ≡ ensure taken_state
unfolding acquire_owned ensure zeroed reset grant claim_from has_bit
release_owned-acquire_owned_example =
    release_owned-acquire_owned 5 (some "ota") taken_state (omega arith) taken_state-IsSound refl

conflict_report_example :
    let t = (acquire_owned 64 (some "storage") taken_state).0 in
    (t.last_conflict_resources ≡ bit_and (ensure taken_state).active_resources 64)
    × (t.last_conflict_owner ≡ some "storage")
    × FirstOwner
        (ensure taken_state).resource_owners
        t.last_conflict_resources
        32
        0
        t.last_conflict_holder
unfolding acquire_owned ensure zeroed reset grant claim_from has_bit
conflict_report_example =
    conflict_report 64 (some "storage") taken_state (λ e. omega (arith, e)) refl
