-- ===== src/TriggerFb/Init.antt =====
-- `trigger_fb_init` of trigger_fb.c: the vector that it writes. The pins are those of
-- boards/rp2350_trig/inc/board_config.h.
use hdrt.Prelude.{◌-◌, ◌^◌, true, false}
use hdrt.TriggerVector.Fields.{
  mode_idle, mode_seq_step, protocol_biss_c, role_tap_monitor, Vector, state_idle,
}
use hdrt.BissProtocol.Types.{edge_falling, status_block_trigger, crc_late_count}

unfoldable pub initial : Vector
initial = record {
  active_mode = mode_idle;
  supported_modes = 2 ^ mode_seq_step;
  io = record {
    trigger_source_pin = 16;
    edge = 0;
    gate_enabled = false;
    safe_state = 0;
    trigger_width_us = 10;
    pulse_width_us = 10;
    rj45_trigger_width_us = 10;
    marker_width_us = 10;
    capture_sample_hz = 1000000;
  };
  seq = record { seq_table = λ i. 0; seq_length = 0; seq_output_width = 0 };
  seq_index = 0;
  enc = record {
    enc_target = 0;
    enc_decode = 1;
    enc_dir = 0;
    enc_z_enabled = true;
    enc_gate_enabled = false;
    enc_filter_ns = 0;
    enc_preset = 0;
    enc_cmp_pulse_ns = 67;
    enc_a_pin = 16;
    enc_b_pin = 17;
    enc_z_pin = 18;
  };
  enc_counts = record {
    enc_count = 0;
    enc_rev_count = 0;
    enc_total = 0;
    enc_frequency_hz = 0;
    enc_cmp_fire_count = 0;
    enc_filter_reject = 0;
  };
  biss = record {
    protocol = protocol_biss_c;
    biss_role = role_tap_monitor;
    biss_device_id = 0;
    biss_phase = 0;
    biss_clock_hz = 1000000;
    biss_frame_bits = 48;
    biss_position_offset = 4;
    biss_position_bits = 32;
    biss_position_modulo = 2 ^ 32 - 1;
    biss_anchor_offset = 0;
    biss_anchor_bits = 2;
    biss_anchor_mask = 0x3;
    biss_anchor_value = 0x2;
    biss_sample_edge = edge_falling;
    biss_sample_delay_cycles = 25;
    biss_sample_scan_enabled = 0;
    biss_sample_scan_start_cycles = 0;
    biss_sample_scan_end_cycles = 31;
    biss_sample_scan_step_cycles = 1;
    biss_timeout_us = 20;
    biss_error_bit_offset = 36;
    biss_warning_bit_offset = 37;
    biss_status_gate_policy = status_block_trigger;
    biss_crc_offset = 38;
    biss_crc_bits = 6;
    biss_crc_cover_offset = 4;
    biss_crc_cover_bits = 34;
    biss_crc_polynomial = 0x03;
    biss_crc_init = 0;
    biss_crc_xor = 0;
    biss_crc_invert = 1;
    biss_crc_gate_policy = crc_late_count;
    biss_target = 0;
    biss_latency_offset_ns = 0;
    biss_clk_in_pin = 26;
    biss_data_in_pin = 27;
    biss_clk_out_pin = 28;
    biss_data_out_pin = 29;
    biss_pulse_in_pin = 19;
    biss_pulse_out_pin = 23;
  };
  run = record {
    biss_active_sample_edge = edge_falling;
    biss_active_sample_delay_cycles = 25;
    biss_sample_scan_index = 0;
    biss_sample_scan_wrap_count = 0;
    biss_last_position = 0;
    biss_last_seq = 0;
    biss_pulse_in_count = 0;
    biss_pulse_out_count = 0;
    biss_tx_frame_count = 0;
    biss_rx_frame_count = 0;
    biss_frame_error_count = 0;
    biss_crc_error_count = 0;
    biss_status_block_count = 0;
    biss_fifo_overflow_count = 0;
    biss_timeout_count = 0;
    biss_trigger_count = 0;
    biss_cal_round_trip_ns = 0;
    biss_cal_jitter_p99_ns = 0;
    biss_cal_valid = 0;
  };
  state = state_idle;
  fault_timestamp_ms = 0;
  trigger_count = 0;
  output_count = 0;
  missed_count = 0;
  rollover_count = 0;
  error_code = 0;
  sync_clock_hz = 1000000;
  sync_clock_enabled = false;
  initialized = true;
  io_initialized = false;
  capture_running = false;
  sync_clock_running = false;
  dropped_capture_words = 0;
}
