-- ===== src/TriggerFb/Shares.antt =====
-- Which owner of the trigger may hold what in which state.
use Prim.Native.String.{String}
use text.Mathlib.Text.{◌==◌ as str_eq}
use text.Mathlib.TextEquality.{eq_iff}
use hdrt.Prelude.{ℕ, ◌^◌, ◌<◌, ◌≡◌, ◌≢◌, refl, Bool, true, false, arith}
use hdrt.ResourceArbiter.{Context}
use hdrt.ResourceArbiter.Invariant.{IsSound}
use hdrt.ResourceArbiter.Sharing.{Confined, Absent, HoldsAll, Keeps}
use hdrt.TriggerVector.Fields.{
  State, state_idle, state_seq_configured, state_seq_armed, state_enc_configured, state_enc_armed,
  state_fault, state_biss_configured, state_biss_armed,
}
use hdrt.SyncIo.Modes.{get_ops, add_if, from_mode_resources, from_mode_hw, for_mode}
use hdrt.TriggerFb.World.{
  owner_seq_step, owner_enc_count, owner_biss_tap, seq_resources, enc_resources, biss_resources,
}

-- What an owner has: nothing; all its resources and no others; none but its resources.
pub data Share : Type 0 where
  free held loose : Share

abbrev pub Part : ℕ → String → Share → Context → Type 0
Part resources owner free s = Absent owner s
Part resources owner held s = Confined resources owner s × HoldsAll resources owner s
Part resources owner loose s = Confined resources owner s

-- A mode has its resources while it is armed. A fault may leave them with it.
unfoldable pub seq_share : State → Share
seq_share state_seq_armed = held
seq_share state_fault = loose
seq_share _ = free

unfoldable pub enc_share : State → Share
enc_share state_enc_armed = held
enc_share state_fault = loose
enc_share _ = free

unfoldable pub biss_share : State → Share
biss_share state_biss_armed = held
biss_share state_fault = loose
biss_share _ = free

pub record OwnedIn (state : State) (s : Context) : Type 0 where
  pub sound : IsSound s
  pub seq : Part seq_resources owner_seq_step (seq_share state) s
  pub enc : Part enc_resources owner_enc_count (enc_share state) s
  pub biss : Part biss_resources owner_biss_tap (biss_share state) s

pub Part-Confined :
    (resources : ℕ) (owner : String) (p : Share) (s : Context)
    → Part resources owner p s
    → Confined resources owner s
Part-Confined resources owner free s part = λ j e. absurd (part j e)
Part-Confined resources owner held s part = part.0
Part-Confined resources owner loose s part = part

pub Part-Keeps :
    (resources : ℕ) (owner : String) (p : Share) (s t : Context)
    → Keeps owner s t
    → Part resources owner p s
    → Part resources owner p t
Part-Keeps resources owner free s t k part = λ j e. part j (k.owned j e)
Part-Keeps resources owner held s t k part =
    (λ j e. part.0 j (k.owned j e), λ j inside. k.holds j (part.1 j inside))
Part-Keeps resources owner loose s t k part = λ j e. part j (k.owned j e)

-- A change that keeps the parts of all three owners.
pub record KeepsAll (s t : Context) : Type 0 where
  pub seq : Keeps owner_seq_step s t
  pub enc : Keeps owner_enc_count s t
  pub biss : Keeps owner_biss_tap s t

pub OwnedIn-KeepsAll :
    (state : State) (s t : Context) → KeepsAll s t → OwnedIn state s → OwnedIn state t
OwnedIn-KeepsAll state s t k o = record {
  sound = k.seq.sound;
  seq = Part-Keeps seq_resources owner_seq_step (seq_share state) s t k.seq o.seq;
  enc = Part-Keeps enc_resources owner_enc_count (enc_share state) s t k.enc o.enc;
  biss = Part-Keeps biss_resources owner_biss_tap (biss_share state) s t k.biss o.biss;
}

pub distinct : (a b : String) → str_eq a b ≡ false → a ≢ b
distinct a b e p = ground (arith, (eq_iff a b).1 p, e)

-- The resources of the three modes: PIO1 and DMA for the sequence and for the encoder, PIO2 and
-- AUX for the BiSS tap.
pub seq_resources_lem : seq_resources ≡ 80
unfolding seq_resources for_mode get_ops from_mode_resources from_mode_hw add_if
seq_resources_lem = refl

pub enc_resources_lem : enc_resources ≡ 80
unfolding enc_resources for_mode get_ops from_mode_resources from_mode_hw add_if
enc_resources_lem = refl

pub biss_resources_lem : biss_resources ≡ 544
unfolding biss_resources for_mode get_ops from_mode_resources from_mode_hw add_if
biss_resources_lem = refl

pub seq_small : seq_resources < 2 ^ 32
seq_small = omega (arith, seq_resources_lem)

pub enc_small : enc_resources < 2 ^ 32
enc_small = omega (arith, enc_resources_lem)

pub biss_small : biss_resources < 2 ^ 32
biss_small = omega (arith, biss_resources_lem)

-- The states in which no mode is armed and no fault is pending.
unfoldable pub is_calm : State → Bool
is_calm state_idle = true
is_calm state_seq_configured = true
is_calm state_enc_configured = true
is_calm state_biss_configured = true
is_calm _ = false

-- In a calm state the three owners hold nothing.
pub record AllAbsent (s : Context) : Type 0 where
  pub sound : IsSound s
  pub seq : Absent owner_seq_step s
  pub enc : Absent owner_enc_count s
  pub biss : Absent owner_biss_tap s

pub calm-AllAbsent :
    (state : State) (s : Context) → is_calm state ≡ true → OwnedIn state s → AllAbsent s
unfolding is_calm seq_share enc_share biss_share
calm-AllAbsent state_idle s e o = record {
  sound = o.sound;
  seq = o.seq;
  enc = o.enc;
  biss = o.biss;
}
calm-AllAbsent state_seq_configured s e o = record {
  sound = o.sound;
  seq = o.seq;
  enc = o.enc;
  biss = o.biss;
}
calm-AllAbsent state_enc_configured s e o = record {
  sound = o.sound;
  seq = o.seq;
  enc = o.enc;
  biss = o.biss;
}
calm-AllAbsent state_biss_configured s e o = record {
  sound = o.sound;
  seq = o.seq;
  enc = o.enc;
  biss = o.biss;
}
calm-AllAbsent _ s e o = ground arith

pub AllAbsent-OwnedIn :
    (state : State) (s : Context) → is_calm state ≡ true → AllAbsent s → OwnedIn state s
unfolding is_calm seq_share enc_share biss_share
AllAbsent-OwnedIn state_idle s e o = record {
  sound = o.sound;
  seq = o.seq;
  enc = o.enc;
  biss = o.biss;
}
AllAbsent-OwnedIn state_seq_configured s e o = record {
  sound = o.sound;
  seq = o.seq;
  enc = o.enc;
  biss = o.biss;
}
AllAbsent-OwnedIn state_enc_configured s e o = record {
  sound = o.sound;
  seq = o.seq;
  enc = o.enc;
  biss = o.biss;
}
AllAbsent-OwnedIn state_biss_configured s e o = record {
  sound = o.sound;
  seq = o.seq;
  enc = o.enc;
  biss = o.biss;
}
AllAbsent-OwnedIn _ s e o = ground arith

-- A fault leaves the resources where they are.
pub OwnedIn-fault : (state : State) (s : Context) → OwnedIn state s → OwnedIn state_fault s
unfolding seq_share enc_share biss_share
OwnedIn-fault state s o = record {
  sound = o.sound;
  seq = Part-Confined seq_resources owner_seq_step (seq_share state) s o.seq;
  enc = Part-Confined enc_resources owner_enc_count (enc_share state) s o.enc;
  biss = Part-Confined biss_resources owner_biss_tap (biss_share state) s o.biss;
}
