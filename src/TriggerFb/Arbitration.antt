-- ===== src/TriggerFb/Arbitration.antt =====
-- What the calls of the trigger do to the arbiter: the arming of each mode, its release, and the
-- sync clock.
use Prim.Native.String.{String}
use hdrt.Prelude.{◌≡◌, refl, true, false, some, arith}
use hdrt.ResourceArbiter.{Context, ensure, acquire_owned, release_owned}
use hdrt.ResourceArbiter.Invariant.{IsSound, ensure-ensure}
use hdrt.ResourceArbiter.Sharing.{
  Confined, Absent, Keeps, acquire-Keeps, release-Keeps, acquire-Confined, acquire-HoldsAll,
  acquire_failed-Absent, release-Absent,
}
use hdrt.TriggerVector.Fields.{State, state_seq_armed, state_enc_armed, state_biss_armed}
use hdrt.SyncIo.Clock.{clock_owner, clock_resources}
use hdrt.TriggerFb.World.{
  owner_seq_step, owner_enc_count, owner_biss_tap, seq_resources, enc_resources, biss_resources,
}
use hdrt.TriggerFb.Shares.{
  seq_share, enc_share, biss_share, OwnedIn, Part-Confined, Part-Keeps, KeepsAll, distinct,
  seq_resources_lem, enc_resources_lem, biss_resources_lem, seq_small, enc_small, biss_small,
  AllAbsent, free, loose,
}

-- Looking at the arbiter changes nothing for anyone.
pub ensure-KeepsAll : (s : Context) → IsSound s → KeepsAll s (ensure s)
ensure-KeepsAll s v = record {
  seq = same owner_seq_step;
  enc = same owner_enc_count;
  biss = same owner_biss_tap;
}
  where
    same : (owner : String) → Keeps owner s (ensure s)
    same owner = record {
      sound = rw ensure-ensure v;
      holds = λ j x. record { taken = rw ensure-ensure x.taken; held = rw ensure-ensure x.held };
      owned = λ j e. rw ensure-ensure at e;
    }

-- The clock has a name of its own.
pub clock_acquire-KeepsAll :
    (s : Context) → IsSound s → KeepsAll s (acquire_owned clock_resources (some clock_owner) s).0
clock_acquire-KeepsAll s v = record {
  seq =
      acquire-Keeps owner_seq_step clock_owner clock_resources s (omega arith) v
        (distinct clock_owner owner_seq_step refl);
  enc =
      acquire-Keeps owner_enc_count clock_owner clock_resources s (omega arith) v
        (distinct clock_owner owner_enc_count refl);
  biss =
      acquire-Keeps owner_biss_tap clock_owner clock_resources s (omega arith) v
        (distinct clock_owner owner_biss_tap refl);
}

pub clock_release-KeepsAll :
    (s : Context) → IsSound s → KeepsAll s (release_owned clock_resources (some clock_owner) s)
clock_release-KeepsAll s v = record {
  seq =
      release-Keeps owner_seq_step clock_owner clock_resources s (omega arith) v
        (distinct clock_owner owner_seq_step refl);
  enc =
      release-Keeps owner_enc_count clock_owner clock_resources s (omega arith) v
        (distinct clock_owner owner_enc_count refl);
  biss =
      release-Keeps owner_biss_tap clock_owner clock_resources s (omega arith) v
        (distinct clock_owner owner_biss_tap refl);
}

-- The sequence.
module _ (s : Context) where
  abbrev seq_acquired : Context
  seq_acquired = (acquire_owned seq_resources (some owner_seq_step) s).0

  abbrev pub seq_released : Context
  seq_released = release_owned seq_resources (some owner_seq_step) s

  pub release_seq-Absent :
      IsSound s → Confined seq_resources owner_seq_step s → Absent owner_seq_step seq_released
  release_seq-Absent v c =
      release-Absent owner_seq_step seq_resources s seq_small v (ground (arith, seq_resources_lem))
        c

  pub release_seq-Keeps_enc : IsSound s → Keeps owner_enc_count s seq_released
  release_seq-Keeps_enc v =
      release-Keeps owner_enc_count owner_seq_step seq_resources s seq_small v
        (distinct owner_seq_step owner_enc_count refl)

  acquire_seq-Keeps_enc : IsSound s → Keeps owner_enc_count s seq_acquired
  acquire_seq-Keeps_enc v =
      acquire-Keeps owner_enc_count owner_seq_step seq_resources s seq_small v
        (distinct owner_seq_step owner_enc_count refl)

  pub release_seq-Keeps_biss : IsSound s → Keeps owner_biss_tap s seq_released
  release_seq-Keeps_biss v =
      release-Keeps owner_biss_tap owner_seq_step seq_resources s seq_small v
        (distinct owner_seq_step owner_biss_tap refl)

  acquire_seq-Keeps_biss : IsSound s → Keeps owner_biss_tap s seq_acquired
  acquire_seq-Keeps_biss v =
      acquire-Keeps owner_biss_tap owner_seq_step seq_resources s seq_small v
        (distinct owner_seq_step owner_biss_tap refl)

  pub release_seq-AllAbsent :
      IsSound s
      → Confined seq_resources owner_seq_step s
      → Absent owner_enc_count s
      → Absent owner_biss_tap s
      → AllAbsent seq_released
  release_seq-AllAbsent v c enc biss = record {
    sound = (release_seq-Keeps_enc v).sound;
    seq = release_seq-Absent v c;
    enc =
        Part-Keeps enc_resources owner_enc_count free s seq_released (release_seq-Keeps_enc v) enc;
    biss =
        Part-Keeps biss_resources owner_biss_tap free s seq_released (release_seq-Keeps_biss v)
          biss;
  }

  pub acquire_seq_done :
      AllAbsent s
      → (acquire_owned seq_resources (some owner_seq_step) s).1 ≡ true
      → OwnedIn state_seq_armed seq_acquired
  unfolding seq_share enc_share biss_share
  acquire_seq_done a done = record {
    sound = (acquire_seq-Keeps_enc a.sound).sound;
    seq = (
      acquire-Confined owner_seq_step seq_resources s seq_small a.sound
          (Part-Confined seq_resources owner_seq_step free s a.seq),
      acquire-HoldsAll owner_seq_step seq_resources s seq_small a.sound done,
    );
    enc =
        Part-Keeps enc_resources owner_enc_count free s seq_acquired (acquire_seq-Keeps_enc a.sound)
          a.enc;
    biss =
        Part-Keeps biss_resources owner_biss_tap free s seq_acquired
          (acquire_seq-Keeps_biss a.sound) a.biss;
  }

  pub acquire_seq_failed :
      AllAbsent s
      → (acquire_owned seq_resources (some owner_seq_step) s).1 ≡ false
      → AllAbsent seq_acquired
  acquire_seq_failed a failed = record {
    sound = (acquire_seq-Keeps_enc a.sound).sound;
    seq = acquire_failed-Absent owner_seq_step seq_resources s seq_small a.sound failed a.seq;
    enc =
        Part-Keeps enc_resources owner_enc_count free s seq_acquired (acquire_seq-Keeps_enc a.sound)
          a.enc;
    biss =
        Part-Keeps biss_resources owner_biss_tap free s seq_acquired
          (acquire_seq-Keeps_biss a.sound) a.biss;
  }

-- The encoder.
module _ (s : Context) where
  abbrev enc_acquired : Context
  enc_acquired = (acquire_owned enc_resources (some owner_enc_count) s).0

  abbrev pub enc_released : Context
  enc_released = release_owned enc_resources (some owner_enc_count) s

  pub release_enc-Absent :
      IsSound s → Confined enc_resources owner_enc_count s → Absent owner_enc_count enc_released
  release_enc-Absent v c =
      release-Absent owner_enc_count enc_resources s enc_small v (ground (arith, enc_resources_lem))
        c

  pub release_enc-Keeps_seq : IsSound s → Keeps owner_seq_step s enc_released
  release_enc-Keeps_seq v =
      release-Keeps owner_seq_step owner_enc_count enc_resources s enc_small v
        (distinct owner_enc_count owner_seq_step refl)

  acquire_enc-Keeps_seq : IsSound s → Keeps owner_seq_step s enc_acquired
  acquire_enc-Keeps_seq v =
      acquire-Keeps owner_seq_step owner_enc_count enc_resources s enc_small v
        (distinct owner_enc_count owner_seq_step refl)

  pub release_enc-Keeps_biss : IsSound s → Keeps owner_biss_tap s enc_released
  release_enc-Keeps_biss v =
      release-Keeps owner_biss_tap owner_enc_count enc_resources s enc_small v
        (distinct owner_enc_count owner_biss_tap refl)

  acquire_enc-Keeps_biss : IsSound s → Keeps owner_biss_tap s enc_acquired
  acquire_enc-Keeps_biss v =
      acquire-Keeps owner_biss_tap owner_enc_count enc_resources s enc_small v
        (distinct owner_enc_count owner_biss_tap refl)

  pub release_enc-AllAbsent :
      IsSound s
      → Confined enc_resources owner_enc_count s
      → Absent owner_seq_step s
      → Absent owner_biss_tap s
      → AllAbsent enc_released
  release_enc-AllAbsent v c seq biss = record {
    sound = (release_enc-Keeps_seq v).sound;
    enc = release_enc-Absent v c;
    seq = Part-Keeps seq_resources owner_seq_step free s enc_released (release_enc-Keeps_seq v) seq;
    biss =
        Part-Keeps biss_resources owner_biss_tap free s enc_released (release_enc-Keeps_biss v)
          biss;
  }

  pub acquire_enc_done :
      AllAbsent s
      → (acquire_owned enc_resources (some owner_enc_count) s).1 ≡ true
      → OwnedIn state_enc_armed enc_acquired
  unfolding seq_share enc_share biss_share
  acquire_enc_done a done = record {
    sound = (acquire_enc-Keeps_seq a.sound).sound;
    enc = (
      acquire-Confined owner_enc_count enc_resources s enc_small a.sound
          (Part-Confined enc_resources owner_enc_count free s a.enc),
      acquire-HoldsAll owner_enc_count enc_resources s enc_small a.sound done,
    );
    seq =
        Part-Keeps seq_resources owner_seq_step free s enc_acquired (acquire_enc-Keeps_seq a.sound)
          a.seq;
    biss =
        Part-Keeps biss_resources owner_biss_tap free s enc_acquired
          (acquire_enc-Keeps_biss a.sound) a.biss;
  }

  pub acquire_enc_failed :
      AllAbsent s
      → (acquire_owned enc_resources (some owner_enc_count) s).1 ≡ false
      → AllAbsent enc_acquired
  acquire_enc_failed a failed = record {
    sound = (acquire_enc-Keeps_seq a.sound).sound;
    enc = acquire_failed-Absent owner_enc_count enc_resources s enc_small a.sound failed a.enc;
    seq =
        Part-Keeps seq_resources owner_seq_step free s enc_acquired (acquire_enc-Keeps_seq a.sound)
          a.seq;
    biss =
        Part-Keeps biss_resources owner_biss_tap free s enc_acquired
          (acquire_enc-Keeps_biss a.sound) a.biss;
  }

-- The BiSS tap.
module _ (s : Context) where
  abbrev biss_acquired : Context
  biss_acquired = (acquire_owned biss_resources (some owner_biss_tap) s).0

  abbrev pub biss_released : Context
  biss_released = release_owned biss_resources (some owner_biss_tap) s

  pub release_biss-Absent :
      IsSound s → Confined biss_resources owner_biss_tap s → Absent owner_biss_tap biss_released
  release_biss-Absent v c =
      release-Absent owner_biss_tap biss_resources s biss_small v
        (ground (arith, biss_resources_lem)) c

  pub release_biss-Keeps_seq : IsSound s → Keeps owner_seq_step s biss_released
  release_biss-Keeps_seq v =
      release-Keeps owner_seq_step owner_biss_tap biss_resources s biss_small v
        (distinct owner_biss_tap owner_seq_step refl)

  acquire_biss-Keeps_seq : IsSound s → Keeps owner_seq_step s biss_acquired
  acquire_biss-Keeps_seq v =
      acquire-Keeps owner_seq_step owner_biss_tap biss_resources s biss_small v
        (distinct owner_biss_tap owner_seq_step refl)

  pub release_biss-Keeps_enc : IsSound s → Keeps owner_enc_count s biss_released
  release_biss-Keeps_enc v =
      release-Keeps owner_enc_count owner_biss_tap biss_resources s biss_small v
        (distinct owner_biss_tap owner_enc_count refl)

  acquire_biss-Keeps_enc : IsSound s → Keeps owner_enc_count s biss_acquired
  acquire_biss-Keeps_enc v =
      acquire-Keeps owner_enc_count owner_biss_tap biss_resources s biss_small v
        (distinct owner_biss_tap owner_enc_count refl)

  pub release_biss-AllAbsent :
      IsSound s
      → Confined biss_resources owner_biss_tap s
      → Absent owner_seq_step s
      → Absent owner_enc_count s
      → AllAbsent biss_released
  release_biss-AllAbsent v c seq enc = record {
    sound = (release_biss-Keeps_seq v).sound;
    biss = release_biss-Absent v c;
    seq =
        Part-Keeps seq_resources owner_seq_step free s biss_released (release_biss-Keeps_seq v) seq;
    enc =
        Part-Keeps enc_resources owner_enc_count free s biss_released (release_biss-Keeps_enc v)
          enc;
  }

  pub acquire_biss_done :
      AllAbsent s
      → (acquire_owned biss_resources (some owner_biss_tap) s).1 ≡ true
      → OwnedIn state_biss_armed biss_acquired
  unfolding seq_share enc_share biss_share
  acquire_biss_done a done = record {
    sound = (acquire_biss-Keeps_seq a.sound).sound;
    biss = (
      acquire-Confined owner_biss_tap biss_resources s biss_small a.sound
          (Part-Confined biss_resources owner_biss_tap free s a.biss),
      acquire-HoldsAll owner_biss_tap biss_resources s biss_small a.sound done,
    );
    seq =
        Part-Keeps seq_resources owner_seq_step free s biss_acquired
          (acquire_biss-Keeps_seq a.sound) a.seq;
    enc =
        Part-Keeps enc_resources owner_enc_count free s biss_acquired
          (acquire_biss-Keeps_enc a.sound) a.enc;
  }

  pub acquire_biss_failed :
      AllAbsent s
      → (acquire_owned biss_resources (some owner_biss_tap) s).1 ≡ false
      → AllAbsent biss_acquired
  acquire_biss_failed a failed = record {
    sound = (acquire_biss-Keeps_seq a.sound).sound;
    biss = acquire_failed-Absent owner_biss_tap biss_resources s biss_small a.sound failed a.biss;
    seq =
        Part-Keeps seq_resources owner_seq_step free s biss_acquired
          (acquire_biss-Keeps_seq a.sound) a.seq;
    enc =
        Part-Keeps enc_resources owner_enc_count free s biss_acquired
          (acquire_biss-Keeps_enc a.sound) a.enc;
  }

-- Arming that fails after the resources were taken gives them back.
pub rollback_seq :
    (s : Context)
    → AllAbsent s
    → (acquire_owned seq_resources (some owner_seq_step) s).1 ≡ true
    → AllAbsent (seq_released (seq_acquired s))
unfolding seq_share enc_share biss_share
rollback_seq s a done =
    let o = acquire_seq_done s a done in
    release_seq-AllAbsent (seq_acquired s) o.sound o.seq.0 o.enc o.biss

-- Arming that fails after the resources were taken gives them back.
pub rollback_enc :
    (s : Context)
    → AllAbsent s
    → (acquire_owned enc_resources (some owner_enc_count) s).1 ≡ true
    → AllAbsent (enc_released (enc_acquired s))
unfolding seq_share enc_share biss_share
rollback_enc s a done =
    let o = acquire_enc_done s a done in
    release_enc-AllAbsent (enc_acquired s) o.sound o.enc.0 o.seq o.biss

-- Arming that fails after the resources were taken gives them back.
pub rollback_biss :
    (s : Context)
    → AllAbsent s
    → (acquire_owned biss_resources (some owner_biss_tap) s).1 ≡ true
    → AllAbsent (biss_released (biss_acquired s))
unfolding seq_share enc_share biss_share
rollback_biss s a done =
    let o = acquire_biss_done s a done in
    release_biss-AllAbsent (biss_acquired s) o.sound o.biss.0 o.seq o.enc

-- The three releases of `fb_release_running_io` leave nothing to the three owners, in any state.
pub release_all-AllAbsent :
    (state : State) (s : Context)
    → OwnedIn state s
    → AllAbsent (biss_released (enc_released (seq_released s)))
release_all-AllAbsent state s o =
    let k = release_seq-Keeps_enc s o.sound in
    let s1 = seq_released s in
    let absent_seq =
      release_seq-Absent s o.sound
        (Part-Confined seq_resources owner_seq_step (seq_share state) s o.seq) in
    let enc1 =
      Part-Keeps enc_resources owner_enc_count loose s s1 k
        (Part-Confined enc_resources owner_enc_count (enc_share state) s o.enc) in
    let biss1 =
      Part-Keeps biss_resources owner_biss_tap loose s s1 (release_seq-Keeps_biss s o.sound)
        (Part-Confined biss_resources owner_biss_tap (biss_share state) s o.biss) in
    let s2 = enc_released s1 in
    let absent_enc = release_enc-Absent s1 k.sound enc1 in
    let k2 = release_enc-Keeps_seq s1 k.sound in
    let seq2 = Part-Keeps seq_resources owner_seq_step free s1 s2 k2 absent_seq in
    let biss2 =
      Part-Keeps biss_resources owner_biss_tap loose s1 s2 (release_enc-Keeps_biss s1 k.sound)
        biss1 in
    release_biss-AllAbsent s2 k2.sound biss2 seq2 absent_enc
