-- ===== src/TriggerFb/Landing.antt =====
-- In which state each handler of trigger_fb.c leaves the trigger.
use hdrt.Prelude.{
  ℕ, ◌≡◌, ◌⊎◌, ◌∙◌, inl, inr, refl, ap, Bool, true, false, ◌||◌, not, Option, none, some, ltb, ◌==◌,
  if_both, length,
}
use hdrt.TriggerFb.Configure.{
  seq_mode_config, enc_mode_config, seq_configured, configure_table, idle_configure_seq,
  idle_configure_biss, idle_configure_enc, with_sample_point, finish_biss_arm,
}
use hdrt.ResourceArbiter.{acquire_owned}
use hdrt.TriggerVector.Fields.{
  State, seq_table_max, seq_width_max, Vector, Event, state_seq_configured, state_seq_armed,
  state_enc_configured, state_enc_armed, state_fault, state_biss_configured, state_biss_armed,
}
use hdrt.SyncIo.Hardware.{TapConfig, Hardware}
use hdrt.BissNodeIo.State.{Desk, node_arm, sample_scan_rearm_succeeded, get_tap_config}
use hdrt.BissNodeIo.Receive.{
  PollResult, poll_runtime, poll_ok, poll_io_lost, poll_scan_step, poll_rearm_failed,
}
use hdrt.BissNodeIo.Quiet.{Quiet, Quiet-same, poll_runtime-Quiet}
use hdrt.TriggerFb.World.{
  Result, World, owner_seq_step, owner_enc_count, owner_biss_tap, seq_resources, enc_resources,
  biss_resources, desk, with_desk, with_state, with_error, release_from, valid_biss_config,
  enc_pins_valid,
}
use hdrt.TriggerFb.Handlers.{
  seq_configured_arm, seq_armed_service, biss_configured_arm, enc_configured_arm, enc_armed_service,
  rearm, apply_sample_scan_step, after_poll, biss_armed_sample, runtime_sample_in,
}
use hdrt.TriggerFb.Arming.{node_arm-vector}

module _ {σ : Type 0} (h : Hardware σ) where
  -- The state after a handler is the old one or the one that the handler is for.
  abbrev pub Lands : State → World σ → World σ → Type 0
  Lands t w x = (x.vector.state ≡ w.vector.state) ⊎ (x.vector.state ≡ t)

  pub configure_seq-Lands :
      (event : Event) (w : World σ) → Lands state_seq_configured w (idle_configure_seq event w).0
  unfolding idle_configure_seq configure_table with_error seq_configured
  configure_seq-Lands event w =
      go event.seq_config.table event.seq_config.length event.seq_config.width
    where
      go :
          (table : Option (ℕ → ℕ)) (length width : ℕ)
          → Lands state_seq_configured w (configure_table table length width w).0
      go none length width = inl refl
      go (some table) length width =
          if_both (λ (r : World σ × Result). Lands state_seq_configured w r.0)
            (length == 0 || ltb seq_table_max length || width == 0 || ltb seq_width_max width)
            (inl refl) (inr refl)

  pub configure_enc-Lands : (w : World σ) → Lands state_enc_configured w (idle_configure_enc w).0
  unfolding idle_configure_enc with_error
  configure_enc-Lands w =
      if_both (λ (r : World σ × Result). Lands state_enc_configured w r.0)
        (w.vector.enc.enc_target == 0) (inl refl)
        (if_both (λ (r : World σ × Result). Lands state_enc_configured w r.0)
          (not
            (enc_pins_valid w.vector.enc.enc_a_pin w.vector.enc.enc_b_pin w.vector.enc.enc_z_pin))
          (inl refl) (inr refl))

  pub configure_biss-Lands : (w : World σ) → Lands state_biss_configured w (idle_configure_biss w).0
  unfolding idle_configure_biss with_error
  configure_biss-Lands w =
      if_both (λ (r : World σ × Result). Lands state_biss_configured w r.0)
        (not (valid_biss_config w.vector)) (inl refl) (inr refl)

  pub seq_arm-Lands : (w : World σ) → Lands state_seq_armed w (seq_configured_arm h w).0
  unfolding seq_configured_arm with_error with_state release_from
  seq_arm-Lands w =
      if_both (λ (r : World σ × Result). Lands state_seq_armed w r.0)
        (seq_resources == 0 || not (acquire_owned seq_resources (some owner_seq_step) w.arbiter).1)
        (inl refl)
        (if_both (λ (r : World σ × Result). Lands state_seq_armed w r.0)
          (not (h.seq_step_arm (seq_mode_config w.vector) w.hardware).1) (inl refl) (inr refl))

  pub enc_arm-Lands : (w : World σ) → Lands state_enc_armed w (enc_configured_arm h w).0
  unfolding enc_configured_arm with_error with_state release_from
  enc_arm-Lands w =
      if_both (λ (r : World σ × Result). Lands state_enc_armed w r.0)
        (enc_resources == 0 || not (acquire_owned enc_resources (some owner_enc_count) w.arbiter).1)
        (inl refl)
        (if_both (λ (r : World σ × Result). Lands state_enc_armed w r.0)
          (not (h.enc_count_arm (enc_mode_config w.vector) w.hardware).1) (inl refl) (inr refl))

  pub finish_biss-Lands :
      (armed : Bool) (w x : World σ)
      → x.vector.state ≡ w.vector.state
      → Lands state_biss_armed w (finish_biss_arm armed x).0
  unfolding finish_biss_arm with_error with_state release_from
  finish_biss-Lands false w x e = inl e
  finish_biss-Lands true w x e = inr refl

  pub biss_arm-Lands : (w : World σ) → Lands state_biss_armed w (biss_configured_arm h w).0
  unfolding biss_configured_arm with_error with_sample_point with_desk desk
  biss_arm-Lands w =
      if_both (λ (r : World σ × Result). Lands state_biss_armed w r.0)
        (not (valid_biss_config w.vector)) (inl refl)
        (if_both (λ (r : World σ × Result). Lands state_biss_armed w r.0)
          (biss_resources == 0
            || not (acquire_owned biss_resources (some owner_biss_tap) w.arbiter).1)
          (inl refl)
          (finish_biss-Lands (node_arm h d).1 w
            (with_desk
              (with_sample_point (record w {
                arbiter = (acquire_owned biss_resources (some owner_biss_tap) w.arbiter).0;
              }))
              (node_arm h d).0)
            (ap (λ (v : Vector). v.state) (node_arm-vector h d))))
    where
      d : Desk σ
      d = desk (
          with_sample_point (record w {
            arbiter = (acquire_owned biss_resources (some owner_biss_tap) w.arbiter).0;
          }))

  pub seq_service-Lands : (w : World σ) → Lands state_fault w (seq_armed_service h w).0
  unfolding seq_armed_service
  seq_service-Lands w =
      if_both (λ (r : World σ × Result). Lands state_fault w r.0)
        (not (h.seq_step_is_running w.hardware)) (inr refl) (inl refl)

  pub enc_service-Lands : (w : World σ) → Lands state_fault w (enc_armed_service h w).0
  unfolding enc_armed_service with_state
  enc_service-Lands w =
      if_both (λ (r : World σ × Result). Lands state_fault w r.0)
        (not (h.enc_count_is_running w.hardware)) (inr refl) (inl refl)

  -- What runs while armed: the state stays, or it is FAULT.
  pub rearm-Quiet : (o : Option TapConfig) (w : World σ) → Quiet w.vector (rearm h o w).0.vector
  unfolding rearm with_desk sample_scan_rearm_succeeded desk
  rearm-Quiet none w = Quiet-same w.vector
  rearm-Quiet (some config) w =
      if_both (λ (r : World σ × Bool). Quiet w.vector r.0.vector)
        (not (h.biss_tap_arm config w.hardware).1) (Quiet-same w.vector)
        (if_both (λ (d : Desk σ). Quiet w.vector d.vector) (not w.node.running)
          (Quiet-same w.vector) (Quiet-same w.vector))

  pub after_poll-Lands :
      (result : PollResult) (w x : World σ)
      → x.vector.state ≡ w.vector.state
      → Lands state_fault w (after_poll h result x).0
  unfolding after_poll with_state apply_sample_scan_step
  after_poll-Lands poll_scan_step w x e =
      if_both (λ (r : World σ × Result). Lands state_fault w r.0)
        (not (apply_sample_scan_step h x).1) (inr refl)
        (inl ((rearm-Quiet (get_tap_config x.node) x).state ∙ e))
  after_poll-Lands poll_rearm_failed w x e = inr refl
  after_poll-Lands poll_io_lost w x e = inr refl
  after_poll-Lands poll_ok w x e = inl e

  pub sample_in-Lands :
      (state : State) (w : World σ) → Lands state_fault w (runtime_sample_in h state w).0
  unfolding runtime_sample_in biss_armed_sample desk with_desk
  sample_in-Lands state_seq_armed w = seq_service-Lands w
  sample_in-Lands state_enc_armed w = enc_service-Lands w
  sample_in-Lands state_biss_armed w =
      after_poll-Lands (poll_runtime h (desk w)).1 w (with_desk w (poll_runtime h (desk w)).0)
        (poll_runtime-Quiet h (desk w)).state
  sample_in-Lands _ w = inl refl
