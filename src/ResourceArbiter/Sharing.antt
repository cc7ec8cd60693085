-- ===== src/ResourceArbiter/Sharing.antt =====
-- What the calls of one owner leave to another, for components that share the arbiter.
use Prim.Native.String.{String}
use text.Mathlib.TextEquality.{eq_iff}
use mathlib.Core.Option.{some-injective, none-ne-some}
use hdrt.Prelude.{
  ℕ, ◌^◌, ◌<◌, ◌≡◌, ◌≢◌, ◌∙◌, inl, inr, refl, sym, Bool, true, false, ◌&&◌, not, none, some, ◌==◌,
  if◌then◌else◌, arith, Bool-cases,
}
use hdrt.Bits.{test_bit}
use hdrt.ResourceArbiter.{Context, ensure, owner_matches, acquire_owned, release_owned}
use hdrt.ResourceArbiter.Invariant.{IsSound, ensure-relinquish, releases, relinquish_owners}
use hdrt.ResourceArbiter.Calls.{acquire-IsSound, release-IsSound}
use hdrt.ResourceArbiter.Ownership.{acquire_effect, Holds, acquire-Holds, release-Holds}

-- `owner` is on record for none but these resources; for no resource; for all of these.
abbrev pub Confined : ℕ → String → Context → Type 0
Confined resources owner s =
    (j : ℕ) → (ensure s).resource_owners j ≡ some owner → test_bit resources j ≡ true

abbrev pub Absent : String → Context → Type 0
Absent owner s = (j : ℕ) → (ensure s).resource_owners j ≢ some owner

abbrev pub HoldsAll : ℕ → String → Context → Type 0
HoldsAll resources owner s = (j : ℕ) → test_bit resources j ≡ true → Holds j owner s

-- A change of the arbiter that gives nothing to `owner` and takes nothing from it.
pub record Keeps (owner : String) (s t : Context) : Type 0 where
  pub sound : IsSound t
  pub holds : (j : ℕ) → Holds j owner s → Holds j owner t
  pub owned :
      (j : ℕ)
      → (ensure t).resource_owners j ≡ some owner
      → (ensure s).resource_owners j ≡ some owner

pub Keeps-same : (owner : String) (s : Context) → IsSound s → Keeps owner s s
Keeps-same owner s v = record { sound = v; holds = λ j x. x; owned = λ j e. e }

pub Keeps-then :
    (owner : String) (s t u : Context) → Keeps owner s t → Keeps owner t u → Keeps owner s u
Keeps-then owner s t u a b = record {
  sound = b.sound;
  holds = λ j x. b.holds j (a.holds j x);
  owned = λ j e. a.owned j (b.owned j e);
}

module _ (owner by : String) (resources : ℕ) (s : Context) (small : resources < 2 ^ 32)
    (v : IsSound s) where
  acquire_owners :
      (j : ℕ)
      → (ensure (acquire_owned resources (some by) s).0).resource_owners j ≡ (
          if (acquire_owned resources (some by) s).1 && test_bit resources j
          then some by
          else (ensure s).resource_owners j)
  acquire_owners j = (acquire_effect resources (some by) s j small).1

  pub acquire-Keeps : by ≢ owner → Keeps owner s (acquire_owned resources (some by) s).0
  acquire-Keeps ne = record {
    sound = acquire-IsSound resources (some by) s small v;
    holds = λ j x. acquire-Holds j owner resources (some by) s small x;
    owned = λ j e.
        kept j ((acquire_owned resources (some by) s).1 && test_bit resources j)
          (sym (acquire_owners j) ∙ e);
  }
    where
      kept :
          (j : ℕ) (b : Bool)
          → (if b then some by else (ensure s).resource_owners j) ≡ some owner
          → (ensure s).resource_owners j ≡ some owner
      kept j true e = absurd (ne (some-injective by owner e))
      kept j false e = e

  release_owners :
      (j : ℕ)
      → (ensure (release_owned resources (some by) s)).resource_owners j ≡ (
          if not (resources == 0) && releases resources (some by) (ensure s) j
          then none
          else (ensure s).resource_owners j)
  unfolding release_owned
  release_owners j = elim (Bool-cases (resources == 0)) [
    | inl nothing ↦ rw nothing refl
    | inr asked ↦
        rw (asked, ensure-relinquish) (relinquish_owners resources (some by) (ensure s) v j small)
  ]

  released :
      (j : ℕ) (b : Bool)
      → (if b then none else (ensure s).resource_owners j) ≡ some owner
      → (ensure s).resource_owners j ≡ some owner
  released j true e = absurd (none-ne-some owner e)
  released j false e = e

  pub release-Keeps : by ≢ owner → Keeps owner s (release_owned resources (some by) s)
  release-Keeps ne = record {
    sound = release-IsSound resources (some by) s small v;
    holds = λ j x. release-Holds j owner resources (some by) s small v (inr (by, refl, ne)) x;
    owned = λ j e.
        released j (not (resources == 0) && releases resources (some by) (ensure s) j)
          (sym (release_owners j) ∙ e);
  }

-- What the calls of one owner for its own set of resources do for it.
module _ (owner : String) (resources : ℕ) (s : Context) (small : resources < 2 ^ 32)
    (v : IsSound s) where
  pub acquire-Confined :
      Confined resources owner s
      → Confined resources owner (acquire_owned resources (some owner) s).0
  acquire-Confined c j e =
      within j (acquire_owned resources (some owner) s).1
        (sym (acquire_owners owner owner resources s small v j) ∙ e)
    where
      within :
          (j : ℕ) (b : Bool)
          → (if b && test_bit resources j then some owner else (ensure s).resource_owners j)
            ≡ some owner
          → test_bit resources j ≡ true
      within j b e = elim (Bool-cases (test_bit resources j)) [
        | inl inside ↦ inside
        | inr outside ↦ c j (ground (arith, outside, e))
      ]

  pub acquire-HoldsAll :
      (acquire_owned resources (some owner) s).1 ≡ true
      → HoldsAll resources owner (acquire_owned resources (some owner) s).0
  acquire-HoldsAll done j inside = record {
    taken = ground (arith, acquire_effect resources (some owner) s j small, done, inside);
    held = acquire_owners owner owner resources s small v j ∙ rw (done, inside) refl;
  }

  pub acquire_failed-Absent :
      (acquire_owned resources (some owner) s).1 ≡ false
      → Absent owner s
      → Absent owner (acquire_owned resources (some owner) s).0
  acquire_failed-Absent failed a j e =
      a j (sym (rw failed at (acquire_owners owner owner resources s small v j)) ∙ e)

  pub release-Absent :
      resources ≢ 0
      → Confined resources owner s
      → Absent owner (release_owned resources (some owner) s)
  unfolding owner_matches
  release-Absent some_asked c j e =
      gone j (not (resources == 0) && releases resources (some owner) (ensure s) j) refl
        (sym (release_owners owner owner resources s small v j) ∙ e)
    where
      mine :
          (j : ℕ)
          → (ensure s).resource_owners j ≡ some owner
          → (not (resources == 0) && releases resources (some owner) (ensure s) j) ≡ true
      mine j h = rw (c j h, h) (ground (arith, eq_iff owner owner, some_asked))

      gone :
          (j : ℕ) (b : Bool)
          → (not (resources == 0) && releases resources (some owner) (ensure s) j) ≡ b
          → (if b then none else (ensure s).resource_owners j) ≢ some owner
      gone j true q e = none-ne-some owner e
      gone j false q e = ground (arith, mine j e, q)
