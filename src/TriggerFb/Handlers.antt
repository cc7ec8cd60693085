-- ===== src/TriggerFb/Handlers.antt =====
-- The handlers of trigger_fb.c that use the hardware or the arbiter, one function each.
use hdrt.Prelude.{
  ◌+◌, ◌*◌, ◌%◌, ◌^◌, Bool, true, false, ◌||◌, not, Option, none, some, ◌==◌, if◌then◌else◌,
}
use hdrt.ResourceArbiter.{acquire_owned}
use hdrt.TriggerVector.Fields.{
  State, mode_idle, error_none, error_resource_conflict, error_io_arm_failed, error_io_lost,
  error_invalid_biss_config, error_forced_fault, Event, state_idle, state_seq_armed,
  state_enc_armed, state_fault, state_biss_armed,
}
use hdrt.SyncIo.Hardware.{TapConfig, Hardware}
use hdrt.BissNodeIo.State.{node_arm, node_disarm, sample_scan_rearm_succeeded, get_tap_config}
use hdrt.BissNodeIo.Position.{process_position}
use hdrt.BissNodeIo.Receive.{
  PollResult, poll_runtime, poll_ok, poll_io_lost, poll_scan_step, poll_rearm_failed,
}
use hdrt.TriggerFb.World.{
  Result, World, owner_seq_step, owner_enc_count, owner_biss_tap, seq_resources, enc_resources,
  biss_resources, desk, with_desk, with_state, with_error, release_from, release_running_io,
  valid_biss_config, fb_ok, fb_ignored, fb_error,
}
use hdrt.TriggerFb.Configure.{seq_mode_config, enc_mode_config, with_sample_point, finish_biss_arm}

module _ {σ : Type 0} (h : Hardware σ) where
  unfoldable pub seq_configured_arm : World σ → World σ × Result
  seq_configured_arm w =
      let (arbiter, acquired) = acquire_owned seq_resources (some owner_seq_step) w.arbiter in
      let w1 = record w { arbiter = arbiter } in
      if seq_resources == 0 || not acquired
      then (with_error error_resource_conflict w1, fb_error)
      else (let (hardware, armed) = h.seq_step_arm (seq_mode_config w.vector) w.hardware in
          let w2 = record w1 { hardware = hardware } in
          if not armed
          then (
            with_error error_io_arm_failed (release_from seq_resources owner_seq_step w2),
            fb_error,
          )
          else (
            with_state state_seq_armed error_none
                (record w2 { vector = record w2.vector { seq_index = 0; rollover_count = 0 } }),
            fb_ok,
          ))

  unfoldable pub seq_armed_service : World σ → World σ × Result
  seq_armed_service w =
      let v = w.vector in
      if not (h.seq_step_is_running w.hardware)
      then (
        record w {
          vector = record v {
            state = state_fault;
            error_code = error_io_lost;
            fault_timestamp_ms = 0;
          };
        },
        fb_error,
      )
      else (let index = h.seq_step_get_index w.hardware in
          let rollovers = h.seq_step_get_rollover_count w.hardware in
          let steps = (rollovers * v.seq.seq_length + index) % 2 ^ 64 % 2 ^ 32 in
          (
            record w {
              vector = record v {
                seq_index = index;
                rollover_count = rollovers;
                trigger_count = steps;
                output_count = steps;
              };
            },
            fb_ok,
          ))

  unfoldable pub seq_armed_disarm : World σ → World σ × Result
  seq_armed_disarm w = (
    with_state state_idle error_none (
        release_from seq_resources owner_seq_step
          (record w { hardware = h.seq_step_disarm w.hardware })),
    fb_ok,
  )

  unfoldable pub force_fault : Event → World σ → World σ × Result
  force_fault event w =
      let w1 = release_running_io h w in
      (
        record w1 {
          vector = record w1.vector {
            state = state_fault;
            error_code = if not (event.value == 0) then event.value else error_forced_fault;
            fault_timestamp_ms = 0;
          };
        },
        fb_error,
      )

  unfoldable pub biss_configured_arm : World σ → World σ × Result
  biss_configured_arm w =
      let (arbiter, acquired) = acquire_owned biss_resources (some owner_biss_tap) w.arbiter in
      let w1 = record w { arbiter = arbiter } in
      if not (valid_biss_config w.vector)
      then (with_error error_invalid_biss_config w, fb_error)
      else if biss_resources == 0 || not acquired
      then (with_error error_resource_conflict w1, fb_error)
      else (let w2 = with_sample_point w1 in
          let (d, armed) = node_arm h (desk w2) in finish_biss_arm armed (with_desk w2 d))

  unfoldable pub biss_armed_disarm : World σ → World σ × Result
  biss_armed_disarm w = (
    with_state state_idle error_none
        (release_from biss_resources owner_biss_tap (with_desk w (node_disarm h (desk w)))),
    fb_ok,
  )

  unfoldable pub biss_armed_frame_rx : Event → World σ → World σ × Result
  biss_armed_frame_rx event w =
      let (d, done) = process_position h event.value (desk w) in
      (with_desk w d, if done then fb_ok else fb_error)

  unfoldable pub enc_configured_arm : World σ → World σ × Result
  enc_configured_arm w =
      let (arbiter, acquired) = acquire_owned enc_resources (some owner_enc_count) w.arbiter in
      let w1 = record w { arbiter = arbiter } in
      if enc_resources == 0 || not acquired
      then (with_error error_resource_conflict w1, fb_error)
      else (let (hardware, armed) = h.enc_count_arm (enc_mode_config w.vector) w.hardware in
          let w2 = record w1 { hardware = hardware } in
          if not armed
          then (
            with_error error_io_arm_failed (release_from enc_resources owner_enc_count w2),
            fb_error,
          )
          else (
            with_state state_enc_armed error_none (record w2 {
              vector = record w2.vector {
                enc_counts = record w2.vector.enc_counts { enc_count = 0 };
              };
            }),
            fb_ok,
          ))

  unfoldable pub enc_armed_service : World σ → World σ × Result
  enc_armed_service w =
      let counts = w.vector.enc_counts in
      if not (h.enc_count_is_running w.hardware)
      then (with_state state_fault error_io_lost w, fb_error)
      else (let count = h.enc_count_get_count w.hardware in
          (
            record w {
              vector = record w.vector {
                enc_counts = record counts {
                  enc_count = count;
                  enc_total = (count + counts.enc_rev_count * w.vector.enc.enc_target) % 2 ^ 32;
                };
              };
            },
            fb_ok,
          ))

  unfoldable pub enc_armed_disarm : World σ → World σ × Result
  enc_armed_disarm w = (
    with_state state_idle error_none (
        release_from enc_resources owner_enc_count
          (record w { hardware = h.enc_count_disarm w.hardware })),
    fb_ok,
  )

  -- The tap is armed again at the delay that the sample scan chose.
  unfoldable pub rearm : Option TapConfig → World σ → World σ × Bool
  rearm none w = (w, false)
  rearm (some config) w =
      let (hardware, armed) = h.biss_tap_arm config w.hardware in
      let w1 = record w { hardware = hardware } in
      if not armed
      then (w1, false)
      else (with_desk w1 (sample_scan_rearm_succeeded h (desk w1)), true)

  unfoldable pub apply_sample_scan_step : World σ → World σ × Bool
  apply_sample_scan_step w = rearm (get_tap_config w.node) w

  unfoldable pub after_poll : PollResult → World σ → World σ × Result
  after_poll poll_scan_step w =
      let (w1, done) = apply_sample_scan_step w in
      if not done then (with_state state_fault error_io_arm_failed w1, fb_error) else (w1, fb_ok)
  after_poll poll_rearm_failed w = (with_state state_fault error_io_arm_failed w, fb_error)
  after_poll poll_io_lost w = (with_state state_fault error_io_lost w, fb_error)
  after_poll poll_ok w = (w, fb_ok)

  unfoldable pub biss_armed_sample : World σ → World σ × Result
  biss_armed_sample w =
      let (d, result) = poll_runtime h (desk w) in after_poll result (with_desk w d)

  unfoldable pub runtime_sample_in : State → World σ → World σ × Result
  runtime_sample_in state_seq_armed w = seq_armed_service w
  runtime_sample_in state_enc_armed w = enc_armed_service w
  runtime_sample_in state_biss_armed w = biss_armed_sample w
  runtime_sample_in _ w = (w, fb_ignored)

  unfoldable pub runtime_sample : World σ → World σ × Result
  runtime_sample w = runtime_sample_in w.vector.state w

  unfoldable pub fault_clear : World σ → World σ × Result
  fault_clear w =
      let w1 = release_running_io h w in
      (
        record w1 {
          vector = record w1.vector {
            state = state_idle;
            active_mode = mode_idle;
            error_code = error_none;
          };
        },
        fb_ok,
      )
