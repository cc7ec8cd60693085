-- ===== src/TriggerFb/Arming.antt =====
-- Arming and disarming of the three modes of trigger_fb.c, and what runs while they are armed.
use mathlib.Core.Path.{subst}
use hdrt.Prelude.{
  ◌≡◌, ◌∙◌, refl, sym, ap, Bool, true, false, ◌||◌, not, Option, none, some, ◌==◌, arith, if_both,
  if_each,
}
use hdrt.TriggerFb.Configure.{seq_mode_config, enc_mode_config, with_sample_point, finish_biss_arm}
use hdrt.ResourceArbiter.{Context, acquire_owned}
use hdrt.ResourceArbiter.Sharing.{Absent}
use hdrt.BissProtocol.Types.{profile_validate}
use hdrt.TriggerVector.Fields.{
  State, Vector, Event, state_idle, state_seq_configured, state_seq_armed, state_enc_configured,
  state_enc_armed, state_biss_configured, state_biss_armed,
}
use hdrt.SyncIo.Hardware.{TapConfig, Hardware}
use hdrt.BissNodeIo.State.{
  Desk, make_profile, is_ok, tap_config_of, node_arm, sample_scan_rearm_succeeded, get_tap_config,
}
use hdrt.BissNodeIo.Position.{process_position}
use hdrt.BissNodeIo.Receive.{
  PollResult, poll_runtime, poll_ok, poll_io_lost, poll_scan_step, poll_rearm_failed,
}
use hdrt.BissNodeIo.Quiet.{Quiet, process_position-Quiet, poll_runtime-Quiet}
use hdrt.TriggerFb.World.{
  Result, World, owner_seq_step, owner_enc_count, owner_biss_tap, seq_resources, enc_resources,
  biss_resources, desk, with_desk, with_state, with_error, release_from, valid_biss_config,
}
use hdrt.TriggerFb.Handlers.{
  seq_configured_arm, seq_armed_disarm, biss_configured_arm, biss_armed_disarm, biss_armed_frame_rx,
  enc_configured_arm, enc_armed_disarm, rearm, apply_sample_scan_step, after_poll,
  biss_armed_sample, runtime_sample_in, runtime_sample,
}
use hdrt.TriggerFb.Shares.{
  seq_share, enc_share, biss_share, OwnedIn, Part-Confined, seq_resources_lem, enc_resources_lem,
  biss_resources_lem, is_calm, AllAbsent, calm-AllAbsent, AllAbsent-OwnedIn, OwnedIn-fault,
}
use hdrt.TriggerFb.Arbitration.{
  release_seq-AllAbsent, acquire_seq_done, acquire_seq_failed, release_enc-AllAbsent,
  acquire_enc_done, acquire_enc_failed, biss_released, release_biss-AllAbsent, acquire_biss_done,
  acquire_biss_failed, rollback_seq, rollback_enc, rollback_biss,
}
use hdrt.TriggerFb.Mild.{OwnedBy}
use hdrt.TriggerFb.Ownership.{seq_service-OwnedBy, enc_service-OwnedBy}

-- The two states of the mode.
unfoldable pub is_seq : State → Bool
is_seq state_seq_configured = true
is_seq state_seq_armed = true
is_seq _ = false

is_seq-alone :
    (state : State) (s : Context)
    → is_seq state ≡ true
    → OwnedIn state s
    → Absent owner_enc_count s × Absent owner_biss_tap s
unfolding is_seq seq_share enc_share biss_share
is_seq-alone state_seq_configured s e o = (o.enc, o.biss)
is_seq-alone state_seq_armed s e o = (o.enc, o.biss)
is_seq-alone _ s e o = ground arith

-- The two states of the mode.
unfoldable pub is_enc : State → Bool
is_enc state_enc_configured = true
is_enc state_enc_armed = true
is_enc _ = false

is_enc-alone :
    (state : State) (s : Context)
    → is_enc state ≡ true
    → OwnedIn state s
    → Absent owner_seq_step s × Absent owner_biss_tap s
unfolding is_enc seq_share enc_share biss_share
is_enc-alone state_enc_configured s e o = (o.seq, o.biss)
is_enc-alone state_enc_armed s e o = (o.seq, o.biss)
is_enc-alone _ s e o = ground arith

-- The two states of the mode.
unfoldable pub is_biss : State → Bool
is_biss state_biss_configured = true
is_biss state_biss_armed = true
is_biss _ = false

is_biss-alone :
    (state : State) (s : Context)
    → is_biss state ≡ true
    → OwnedIn state s
    → Absent owner_seq_step s × Absent owner_enc_count s
unfolding is_biss seq_share enc_share biss_share
is_biss-alone state_biss_configured s e o = (o.seq, o.enc)
is_biss-alone state_biss_armed s e o = (o.seq, o.enc)
is_biss-alone _ s e o = ground arith

module _ {σ : Type 0} (h : Hardware σ) where
  seq_configured_arm-resources : (seq_resources == 0) ≡ false
  seq_configured_arm-resources = ground (arith, seq_resources_lem)

  pub seq_configured_arm-OwnedBy :
      (w : World σ) → is_calm w.vector.state ≡ true → OwnedBy w → OwnedBy (seq_configured_arm h w).0
  unfolding seq_configured_arm with_state with_error release_from
  seq_configured_arm-OwnedBy w calm o =
      if_each (λ (r : World σ × Result). OwnedBy r.0)
        (seq_resources == 0 || not (acquire_owned seq_resources (some owner_seq_step) w.arbiter).1)
        (λ e.
          AllAbsent-OwnedIn w.vector.state _ calm
            (acquire_seq_failed w.arbiter a (ground (arith, e, seq_configured_arm-resources))))
        (λ e.
          if_both (λ (r : World σ × Result). OwnedBy r.0)
            (not (h.seq_step_arm (seq_mode_config w.vector) w.hardware).1)
            (AllAbsent-OwnedIn w.vector.state _ calm (rollback_seq w.arbiter a (ground (arith, e))))
            (acquire_seq_done w.arbiter a (ground (arith, e))))
    where
      a : AllAbsent w.arbiter
      a = calm-AllAbsent w.vector.state w.arbiter calm o

  pub seq_armed_disarm-OwnedBy :
      (w : World σ) → is_seq w.vector.state ≡ true → OwnedBy w → OwnedBy (seq_armed_disarm h w).0
  unfolding seq_armed_disarm with_state release_from is_calm
  seq_armed_disarm-OwnedBy w mine o =
      let a = is_seq-alone w.vector.state w.arbiter mine o in
      AllAbsent-OwnedIn state_idle _ refl (
        release_seq-AllAbsent w.arbiter o.sound
          (Part-Confined seq_resources owner_seq_step (seq_share w.vector.state) w.arbiter o.seq)
          a.0 a.1)

  enc_configured_arm-resources : (enc_resources == 0) ≡ false
  enc_configured_arm-resources = ground (arith, enc_resources_lem)

  pub enc_configured_arm-OwnedBy :
      (w : World σ) → is_calm w.vector.state ≡ true → OwnedBy w → OwnedBy (enc_configured_arm h w).0
  unfolding enc_configured_arm with_state with_error release_from
  enc_configured_arm-OwnedBy w calm o =
      if_each (λ (r : World σ × Result). OwnedBy r.0)
        (enc_resources == 0 || not (acquire_owned enc_resources (some owner_enc_count) w.arbiter).1)
        (λ e.
          AllAbsent-OwnedIn w.vector.state _ calm
            (acquire_enc_failed w.arbiter a (ground (arith, e, enc_configured_arm-resources))))
        (λ e.
          if_both (λ (r : World σ × Result). OwnedBy r.0)
            (not (h.enc_count_arm (enc_mode_config w.vector) w.hardware).1)
            (AllAbsent-OwnedIn w.vector.state _ calm (rollback_enc w.arbiter a (ground (arith, e))))
            (acquire_enc_done w.arbiter a (ground (arith, e))))
    where
      a : AllAbsent w.arbiter
      a = calm-AllAbsent w.vector.state w.arbiter calm o

  pub enc_armed_disarm-OwnedBy :
      (w : World σ) → is_enc w.vector.state ≡ true → OwnedBy w → OwnedBy (enc_armed_disarm h w).0
  unfolding enc_armed_disarm with_state release_from is_calm
  enc_armed_disarm-OwnedBy w mine o =
      let a = is_enc-alone w.vector.state w.arbiter mine o in
      AllAbsent-OwnedIn state_idle _ refl (
        release_enc-AllAbsent w.arbiter o.sound
          (Part-Confined enc_resources owner_enc_count (enc_share w.vector.state) w.arbiter o.enc)
          a.0 a.1)

  biss_configured_arm-resources : (biss_resources == 0) ≡ false
  biss_configured_arm-resources = ground (arith, biss_resources_lem)

  pub node_arm-vector : (d : Desk σ) → (node_arm h d).0.vector ≡ d.vector
  unfolding node_arm
  node_arm-vector d =
      if_both (λ (r : Desk σ × Bool). r.0.vector ≡ d.vector)
        (not (is_ok (profile_validate (some (make_profile d.vector))))) refl
        (if_both (λ (r : Desk σ × Bool). r.0.vector ≡ d.vector)
          (not (h.biss_tap_arm (tap_config_of d.vector) d.hardware).1) refl refl)

  finish_biss_arm-OwnedBy :
      (armed : Bool) (w : World σ)
      → is_calm w.vector.state ≡ true
      → AllAbsent (biss_released w.arbiter)
      → OwnedIn state_biss_armed w.arbiter
      → OwnedBy (finish_biss_arm armed w).0
  unfolding finish_biss_arm with_error with_state release_from
  finish_biss_arm-OwnedBy false w calm a o = AllAbsent-OwnedIn w.vector.state _ calm a
  finish_biss_arm-OwnedBy true w calm a o = o

  node_armed-OwnedBy :
      (w : World σ)
      → is_calm w.vector.state ≡ true
      → AllAbsent (biss_released w.arbiter)
      → OwnedIn state_biss_armed w.arbiter
      → OwnedBy (finish_biss_arm (node_arm h (desk w)).1 (with_desk w (node_arm h (desk w)).0)).0
  unfolding with_desk desk
  node_armed-OwnedBy w calm a o =
      finish_biss_arm-OwnedBy (node_arm h (desk w)).1 (with_desk w (node_arm h (desk w)).0)
        (ap (λ (v : Vector). is_calm v.state) (node_arm-vector (desk w)) ∙ calm) a o

  pub biss_configured_arm-OwnedBy :
      (w : World σ)
      → is_calm w.vector.state ≡ true
      → OwnedBy w
      → OwnedBy (biss_configured_arm h w).0
  unfolding biss_configured_arm with_error with_sample_point
  biss_configured_arm-OwnedBy w calm o =
      if_both (λ (r : World σ × Result). OwnedBy r.0) (not (valid_biss_config w.vector)) o
        (if_each (λ (r : World σ × Result). OwnedBy r.0)
          (biss_resources == 0
            || not (acquire_owned biss_resources (some owner_biss_tap) w.arbiter).1)
          (λ e.
            AllAbsent-OwnedIn w.vector.state _ calm
              (acquire_biss_failed w.arbiter a (ground (arith, e, biss_configured_arm-resources))))
          (λ e.
            node_armed-OwnedBy
              (with_sample_point (record w {
                arbiter = (acquire_owned biss_resources (some owner_biss_tap) w.arbiter).0;
              }))
              calm (rollback_biss w.arbiter a (ground (arith, e)))
              (acquire_biss_done w.arbiter a (ground (arith, e)))))
    where
      a : AllAbsent w.arbiter
      a = calm-AllAbsent w.vector.state w.arbiter calm o

  pub biss_armed_disarm-OwnedBy :
      (w : World σ) → is_biss w.vector.state ≡ true → OwnedBy w → OwnedBy (biss_armed_disarm h w).0
  unfolding biss_armed_disarm with_state release_from with_desk is_calm
  biss_armed_disarm-OwnedBy w mine o =
      let a = is_biss-alone w.vector.state w.arbiter mine o in
      AllAbsent-OwnedIn state_idle _ refl (
        release_biss-AllAbsent w.arbiter o.sound
          (Part-Confined biss_resources owner_biss_tap (biss_share w.vector.state) w.arbiter o.biss)
          a.0 a.1)

  -- The node changes neither the arbiter nor the state.
  noded : (w : World σ) (d : Desk σ) → Quiet w.vector d.vector → OwnedBy w → OwnedBy (with_desk w d)
  unfolding with_desk
  noded w d q o = subst (λ state. OwnedIn state w.arbiter) (sym q.state) o

  pub frame_rx-OwnedBy :
      (event : Event) (w : World σ) → OwnedBy w → OwnedBy (biss_armed_frame_rx h event w).0
  unfolding biss_armed_frame_rx desk
  frame_rx-OwnedBy event w o =
      noded w (process_position h event.value (desk w)).0
        (process_position-Quiet h event.value (desk w)) o

  scan_step-OwnedBy : (w : World σ) (o : Option TapConfig) → OwnedBy w → OwnedBy (rearm h o w).0
  unfolding rearm with_desk sample_scan_rearm_succeeded desk
  scan_step-OwnedBy w none o = o
  scan_step-OwnedBy w (some config) o =
      if_both (λ (r : World σ × Bool). OwnedBy r.0) (not (h.biss_tap_arm config w.hardware).1) o
        (if_both (λ (d : Desk σ). OwnedIn d.vector.state w.arbiter) (not w.node.running) o o)

  after_poll-OwnedBy :
      (result : PollResult) (w : World σ) → OwnedBy w → OwnedBy (after_poll h result w).0
  unfolding after_poll with_state apply_sample_scan_step
  after_poll-OwnedBy poll_scan_step w o =
      let s = scan_step-OwnedBy w (get_tap_config w.node) o in
      if_both (λ (r : World σ × Result). OwnedBy r.0) (not (apply_sample_scan_step h w).1)
        (OwnedIn-fault _ _ s) s
  after_poll-OwnedBy poll_rearm_failed w o = OwnedIn-fault w.vector.state w.arbiter o
  after_poll-OwnedBy poll_io_lost w o = OwnedIn-fault w.vector.state w.arbiter o
  after_poll-OwnedBy poll_ok w o = o

  sample_in-OwnedBy :
      (state : State) (w : World σ) → OwnedBy w → OwnedBy (runtime_sample_in h state w).0
  unfolding runtime_sample_in biss_armed_sample desk
  sample_in-OwnedBy state_seq_armed w o = seq_service-OwnedBy h w o
  sample_in-OwnedBy state_enc_armed w o = enc_service-OwnedBy h w o
  sample_in-OwnedBy state_biss_armed w o =
      let r = poll_runtime h (desk w) in
      after_poll-OwnedBy r.1 (with_desk w r.0) (noded w r.0 (poll_runtime-Quiet h (desk w)) o)
  sample_in-OwnedBy _ w o = o

  pub runtime_sample-OwnedBy : (w : World σ) → OwnedBy w → OwnedBy (runtime_sample h w).0
  unfolding runtime_sample
  runtime_sample-OwnedBy w o = sample_in-OwnedBy w.vector.state w o
