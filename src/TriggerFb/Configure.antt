-- ===== src/TriggerFb/Configure.antt =====
-- The handlers of trigger_fb.c that only write the vector: the configuration of the three modes, and
-- what arming writes.
use hdrt.Prelude.{
  ℕ, ◌+◌, ◌%◌, ◌^◌, Bool, true, false, ◌||◌, not, Option, none, some, ltb, ◌==◌, if◌then◌else◌,
  bit_or, length,
}
use hdrt.TriggerVector.Events.{event_code, event_configure_seq}
use hdrt.TriggerVector.Fields.{
  mode_idle, mode_seq_step, mode_enc_count, mode_protocol_trigger, error_none,
  error_invalid_seq_config, error_io_arm_failed, error_invalid_enc_target, error_invalid_enc_pins,
  error_invalid_biss_config, seq_table_max, seq_width_max, BissRun, Vector, Event, state_idle,
  state_seq_configured, state_enc_configured, state_biss_configured, state_biss_armed,
}
use hdrt.SyncIo.Hardware.{SeqModeConfig, EncModeConfig}
use hdrt.BissNodeIo.Position.{next_word}
use hdrt.TriggerFb.World.{
  Result, World, owner_biss_tap, biss_resources, with_state, with_error, release_from,
  valid_biss_config, enc_pins_valid, fb_ok, fb_ignored, fb_error,
}

-- `memcpy` of the first `length` words
unfoldable pub copy_words : ℕ → (ℕ → ℕ) → (ℕ → ℕ) → (ℕ → ℕ)
copy_words length from to i = if ltb i length then from i else to i

-- the settings of a vector as the sequence driver takes them
unfoldable pub seq_mode_config : Vector → SeqModeConfig
seq_mode_config v = record {
  seq_table = v.seq.seq_table;
  seq_length = v.seq.seq_length;
  seq_width = v.seq.seq_output_width;
  trigger_pin = v.io.trigger_source_pin;
  edge = v.io.edge;
  gate_enabled = v.io.gate_enabled;
}

-- the settings of a vector as the encoder driver takes them; the output is GPIO20
unfoldable pub enc_mode_config : Vector → EncModeConfig
enc_mode_config v = record {
  target = v.enc.enc_target;
  in_pin_base = v.enc.enc_a_pin;
  output_pin = 20;
}

unfoldable pub seq_configured : (ℕ → ℕ) → ℕ → ℕ → Vector → Vector
seq_configured table length width v = record v {
  seq = record {
    seq_table = copy_words length table v.seq.seq_table;
    seq_length = length;
    seq_output_width = width;
  };
  active_mode = mode_seq_step;
  seq_index = 0;
  state = state_seq_configured;
  error_code = error_none;
}

-- The counters that arming a BiSS node clears.
unfoldable pub biss_cleared : BissRun → BissRun
biss_cleared run = record run {
  biss_pulse_in_count = 0;
  biss_pulse_out_count = 0;
  biss_tx_frame_count = 0;
  biss_rx_frame_count = 0;
  biss_frame_error_count = 0;
  biss_crc_error_count = 0;
  biss_status_block_count = 0;
  biss_fifo_overflow_count = 0;
  biss_timeout_count = 0;
  biss_trigger_count = 0;
}

module _ {σ : Type 0} where
  unfoldable pub configure_table : Option (ℕ → ℕ) → ℕ → ℕ → World σ → World σ × Result
  configure_table none length width w = (with_error error_invalid_seq_config w, fb_error)
  configure_table (some table) length width w =
      if length == 0 || ltb seq_table_max length || width == 0 || ltb seq_width_max width
      then (with_error error_invalid_seq_config w, fb_error)
      else (record w { vector = seq_configured table length width w.vector }, fb_ok)

  unfoldable pub idle_configure_seq : Event → World σ → World σ × Result
  idle_configure_seq event w =
      configure_table event.seq_config.table event.seq_config.length event.seq_config.width w

  unfoldable pub seq_configured_reconfigure : Event → World σ → World σ × Result
  seq_configured_reconfigure event w =
      if not (event_code event.kind == event_code event_configure_seq)
      then (w, fb_ignored)
      else idle_configure_seq event
          (record w { vector = record w.vector { active_mode = mode_idle; state = state_idle } })

  unfoldable pub seq_armed_reject : World σ → World σ × Result
  seq_armed_reject w = (w, fb_ignored)

  unfoldable pub idle_configure_biss : World σ → World σ × Result
  idle_configure_biss w =
      if not (valid_biss_config w.vector)
      then (with_error error_invalid_biss_config w, fb_error)
      else (
        record w {
          vector = record w.vector {
            active_mode = mode_protocol_trigger;
            state = state_biss_configured;
            supported_modes = bit_or w.vector.supported_modes (2 ^ mode_protocol_trigger);
            error_code = error_none;
          };
        },
        fb_ok,
      )

  unfoldable pub idle_configure_enc : World σ → World σ × Result
  idle_configure_enc w =
      let enc = w.vector.enc in
      if enc.enc_target == 0
      then (with_error error_invalid_enc_target w, fb_error)
      else if not (enc_pins_valid enc.enc_a_pin enc.enc_b_pin enc.enc_z_pin)
      then (with_error error_invalid_enc_pins w, fb_error)
      else (
        record w {
          vector = record w.vector {
            active_mode = mode_enc_count;
            enc_counts = record w.vector.enc_counts { enc_count = 0 };
            state = state_enc_configured;
            supported_modes = bit_or w.vector.supported_modes (2 ^ mode_enc_count);
            error_code = error_none;
          };
        },
        fb_ok,
      )

  unfoldable pub biss_armed_pulse_in : Event → World σ → World σ × Result
  biss_armed_pulse_in event w =
      let run = w.vector.run in
      let pulses =
        (run.biss_pulse_in_count + (if not (event.value == 0) then event.value else 1)) % 2 ^ 32 in
      (
        record w {
          vector = record w.vector {
            run = record run {
              biss_pulse_in_count = pulses;
              biss_last_seq = next_word run.biss_last_seq;
              biss_last_position = pulses;
              biss_tx_frame_count = next_word run.biss_tx_frame_count;
            };
            trigger_count = pulses;
          };
        },
        fb_ok,
      )

  -- The sample point that the node is armed with.
  unfoldable pub with_sample_point : World σ → World σ
  with_sample_point w = record w {
    vector = record w.vector {
      run = record w.vector.run {
        biss_active_sample_edge = w.vector.biss.biss_sample_edge;
        biss_active_sample_delay_cycles = w.vector.biss.biss_sample_delay_cycles;
        biss_sample_scan_index = 0;
        biss_sample_scan_wrap_count = 0;
      };
    };
  }

  -- The end of `biss_configured_arm`, by what `biss_node_io_arm` returned.
  unfoldable pub finish_biss_arm : Bool → World σ → World σ × Result
  finish_biss_arm false w =
      (with_error error_io_arm_failed (release_from biss_resources owner_biss_tap w), fb_error)
  finish_biss_arm true w = (
    with_state state_biss_armed error_none (record w {
      vector = record w.vector {
        run = biss_cleared w.vector.run;
        trigger_count = 0;
        output_count = 0;
      };
    }),
    fb_ok,
  )
