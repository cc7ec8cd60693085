-- ===== src/ResourceArbiter/Calls.antt =====
-- The arbiter under any sequence of calls, from static storage on.
use hdrt.Prelude.{
  ℕ, ◌^◌, ◌<◌, ◌≡◌, inl, inr, refl, Bool, true, false, ◌==◌, bit_and, List, [], ◌∷◌, Bool-cases,
}
use hdrt.ResourceArbiter.{
  Context, Owner, zeroed, reset, ensure, init, publish_trigger_activity, can_begin_ota, grant,
  refuse, acquire_owned, release_owned, get_snapshot,
}
use hdrt.ResourceArbiter.Invariant.{
  IsValid, IsSound, reset-IsValid, IsValid-IsSound, ensure-ensure, grant-IsValid, refuse-IsValid,
  relinquish-IsValid,
}

pub data Call : Type 0 where
  init_call : Call
  publish : Bool → Bool → Call
  query : Call
  acquire : ℕ → Owner → Call
  release : ℕ → Owner → Call
  snapshot : Bool → Call

unfoldable pub serve : Call → Context → Context
serve init_call s = (init s).0
serve (publish capture clock) s = publish_trigger_activity capture clock s
serve query s = (can_begin_ota s).0
serve (acquire resources owner) s = (acquire_owned resources owner s).0
serve (release resources owner) s = release_owned resources owner s
serve (snapshot given) s = (get_snapshot given s).0

unfoldable pub serve_all : List Call → Context → Context
serve_all [] s = s
serve_all (c ∷ cs) s = serve_all cs (serve c s)

-- The argument of a call is a `uint32_t`.
abbrev pub IsWord : Call → Type 0
IsWord (acquire resources owner) = resources < 2 ^ 32
IsWord (release resources owner) = resources < 2 ^ 32
IsWord _ = Unit {0}

abbrev pub AllWords : List Call → Type 0
AllWords [] = Unit {0}
AllWords (c ∷ cs) = IsWord c × AllWords cs

-- The three outcomes of `acquire_owned`.
module _ (resources : ℕ) (owner : Owner) (s : Context) where
  pub acquire_nothing : (resources == 0) ≡ true → acquire_owned resources owner s ≡ (s, false)
  unfolding acquire_owned
  acquire_nothing nothing = rw nothing refl

  pub acquire_granted :
      (resources == 0) ≡ false
      → (bit_and (ensure s).active_resources resources == 0) ≡ true
      → acquire_owned resources owner s ≡ (grant resources owner (ensure s), true)
  unfolding acquire_owned
  acquire_granted asked free = rw (asked, free) refl

  pub acquire_refused :
      (resources == 0) ≡ false
      → (bit_and (ensure s).active_resources resources == 0) ≡ false
      → acquire_owned resources owner s
        ≡ (refuse (bit_and (ensure s).active_resources resources) owner (ensure s), false)
  unfolding acquire_owned
  acquire_refused asked taken = rw (asked, taken) refl

ensure-IsSound : (s : Context) → IsSound s → IsSound (ensure s)
ensure-IsSound s v = rw ensure-ensure v

publish-IsValid :
    (capture clock : Bool) (s : Context)
    → IsSound s
    → IsValid (publish_trigger_activity capture clock s)
unfolding publish_trigger_activity
publish-IsValid capture clock s v = record {
  initialized = v.initialized;
  fits = v.fits;
  owned = v.owned;
  ota_mode = v.ota_mode;
  live = v.live;
}

pub acquire-IsSound :
    (resources : ℕ) (owner : Owner) (s : Context)
    → resources < 2 ^ 32
    → IsSound s
    → IsSound (acquire_owned resources owner s).0
acquire-IsSound resources owner s small v = elim (Bool-cases (resources == 0)) [
  | inl nothing ↦ rw (acquire_nothing resources owner s nothing) v
  | inr asked ↦ elim (Bool-cases (bit_and (ensure s).active_resources resources == 0)) [
    | inl free ↦
        rw (acquire_granted resources owner s asked free)
          (IsValid-IsSound _ (grant-IsValid resources owner (ensure s) small v))
    | inr taken ↦ rw (acquire_refused resources owner s asked taken) (
        IsValid-IsSound _
          (refuse-IsValid (bit_and (ensure s).active_resources resources) owner (ensure s) v))
  ]
]

pub release-IsSound :
    (resources : ℕ) (owner : Owner) (s : Context)
    → resources < 2 ^ 32
    → IsSound s
    → IsSound (release_owned resources owner s)
unfolding release_owned
release-IsSound resources owner s small v = elim (Bool-cases (resources == 0)) [
  | inl nothing ↦ rw nothing v
  | inr asked ↦ rw asked (IsValid-IsSound _ (relinquish-IsValid resources owner (ensure s) v small))
]

pub serve-IsSound : (c : Call) (s : Context) → IsWord c → IsSound s → IsSound (serve c s)
unfolding serve init can_begin_ota get_snapshot
serve-IsSound init_call s w v = IsValid-IsSound reset reset-IsValid
serve-IsSound (publish capture clock) s w v = IsValid-IsSound _ (publish-IsValid capture clock s v)
serve-IsSound query s w v = ensure-IsSound s v
serve-IsSound (acquire resources owner) s w v = acquire-IsSound resources owner s w v
serve-IsSound (release resources owner) s w v = release-IsSound resources owner s w v
serve-IsSound (snapshot true) s w v = ensure-IsSound s v
serve-IsSound (snapshot false) s w v = v

serve_all-IsSound_from :
    (cs : List Call) (s : Context) → AllWords cs → IsSound s → IsSound (serve_all cs s)
unfolding serve_all
serve_all-IsSound_from [] s w v = v
serve_all-IsSound_from (c ∷ cs) s w v =
    serve_all-IsSound_from cs (serve c s) w.1 (serve-IsSound c s w.0 v)

zeroed-IsSound : IsSound zeroed
unfolding ensure zeroed
zeroed-IsSound = reset-IsValid

-- After any sequence of calls, the first of them made on zeroed static storage, what the next call
-- works on is valid: only active resources have an owner, the mode is OTA just where the flash is
-- taken, it is never BOOT or FAULT, and the resources fit 32 bits.
pub serve_all-IsSound : (cs : List Call) → AllWords cs → IsSound (serve_all cs zeroed)
serve_all-IsSound cs w = serve_all-IsSound_from cs zeroed w zeroed-IsSound
