-- ===== src/TriggerVector/Fields.antt =====
-- The trigger vector of components/sync_trigger/inc/trigger_vector.h, its fields in groups. An
-- enumeration that the code casts a payload to is a number.
use hdrt.Prelude.{ℕ, Bool, Option}
use hdrt.TriggerVector.Events.{EventType}

-- `trig_state_t`
pub data State : Type 0 where
  state_idle state_seq_configured state_seq_armed state_enc_configured : State
  state_enc_armed state_fault state_biss_configured state_biss_armed : State

unfoldable pub state_code : State → ℕ
state_code state_idle = 0
state_code state_seq_configured = 1
state_code state_seq_armed = 2
state_code state_enc_configured = 3
state_code state_enc_armed = 4
state_code state_fault = 5
state_code state_biss_configured = 6
state_code state_biss_armed = 7

-- `trig_mode_t`
abbrev pub mode_idle : ℕ
mode_idle = 0

abbrev pub mode_seq_step : ℕ
mode_seq_step = 1

abbrev pub mode_enc_count : ℕ
mode_enc_count = 2

abbrev pub mode_protocol_trigger : ℕ
mode_protocol_trigger = 3

-- `trig_error_code_t`
abbrev pub error_none : ℕ
error_none = 0

abbrev pub error_invalid_seq_config : ℕ
error_invalid_seq_config = 1

abbrev pub error_resource_conflict : ℕ
error_resource_conflict = 2

abbrev pub error_io_arm_failed : ℕ
error_io_arm_failed = 3

abbrev pub error_io_lost : ℕ
error_io_lost = 4

abbrev pub error_invalid_enc_target : ℕ
error_invalid_enc_target = 10

abbrev pub error_invalid_enc_pins : ℕ
error_invalid_enc_pins = 11

abbrev pub error_invalid_biss_config : ℕ
error_invalid_biss_config = 20

abbrev pub error_forced_fault : ℕ
error_forced_fault = 100

-- `TRIG_SEQ_TABLE_MAX` and `TRIG_SEQ_WIDTH_MAX`
abbrev pub seq_table_max : ℕ
seq_table_max = 256

abbrev pub seq_width_max : ℕ
seq_width_max = 8

-- `TRIG_PROTOCOL_BISS_C` and `TRIG_BISS_ROLE_TAP_MONITOR`
abbrev pub protocol_biss_c : ℕ
protocol_biss_c = 0

abbrev pub role_tap_monitor : ℕ
role_tap_monitor = 0

-- Trigger source, widths of the pulses, rate of the capture.
pub record IoSettings : Type 0 where
  pub trigger_source_pin : ℕ
  pub edge : ℕ
  pub gate_enabled : Bool
  pub safe_state : ℕ
  pub trigger_width_us : ℕ
  pub pulse_width_us : ℕ
  pub rj45_trigger_width_us : ℕ
  pub marker_width_us : ℕ
  pub capture_sample_hz : ℕ

-- `seq_table` has 256 words; no index from 256 on is written.
pub record SeqSettings : Type 0 where
  pub seq_table : ℕ → ℕ
  pub seq_length : ℕ
  pub seq_output_width : ℕ

pub record EncSettings : Type 0 where
  pub enc_target : ℕ
  pub enc_decode : ℕ
  pub enc_dir : ℕ
  pub enc_z_enabled : Bool
  pub enc_gate_enabled : Bool
  pub enc_filter_ns : ℕ
  pub enc_preset : ℕ
  pub enc_cmp_pulse_ns : ℕ
  pub enc_a_pin : ℕ
  pub enc_b_pin : ℕ
  pub enc_z_pin : ℕ

pub record EncCounts : Type 0 where
  pub enc_count : ℕ
  pub enc_rev_count : ℕ
  pub enc_total : ℕ
  pub enc_frequency_hz : ℕ
  pub enc_cmp_fire_count : ℕ
  pub enc_filter_reject : ℕ

-- The BiSS fields that commands and the initial state set.
pub record BissSettings : Type 0 where
  pub protocol : ℕ
  pub biss_role : ℕ
  pub biss_device_id : ℕ
  pub biss_phase : ℕ
  pub biss_clock_hz : ℕ
  pub biss_frame_bits : ℕ
  pub biss_position_offset : ℕ
  pub biss_position_bits : ℕ
  pub biss_position_modulo : ℕ
  pub biss_anchor_offset : ℕ
  pub biss_anchor_bits : ℕ
  pub biss_anchor_mask : ℕ
  pub biss_anchor_value : ℕ
  pub biss_sample_edge : ℕ
  pub biss_sample_delay_cycles : ℕ
  pub biss_sample_scan_enabled : ℕ
  pub biss_sample_scan_start_cycles : ℕ
  pub biss_sample_scan_end_cycles : ℕ
  pub biss_sample_scan_step_cycles : ℕ
  pub biss_timeout_us : ℕ
  pub biss_error_bit_offset : ℕ
  pub biss_warning_bit_offset : ℕ
  pub biss_status_gate_policy : ℕ
  pub biss_crc_offset : ℕ
  pub biss_crc_bits : ℕ
  pub biss_crc_cover_offset : ℕ
  pub biss_crc_cover_bits : ℕ
  pub biss_crc_polynomial : ℕ
  pub biss_crc_init : ℕ
  pub biss_crc_xor : ℕ
  pub biss_crc_invert : ℕ
  pub biss_crc_gate_policy : ℕ
  pub biss_target : ℕ
  pub biss_latency_offset_ns : ℕ
  pub biss_clk_in_pin : ℕ
  pub biss_data_in_pin : ℕ
  pub biss_clk_out_pin : ℕ
  pub biss_data_out_pin : ℕ
  pub biss_pulse_in_pin : ℕ
  pub biss_pulse_out_pin : ℕ

-- The BiSS fields that change while the node runs.
pub record BissRun : Type 0 where
  pub biss_active_sample_edge : ℕ
  pub biss_active_sample_delay_cycles : ℕ
  pub biss_sample_scan_index : ℕ
  pub biss_sample_scan_wrap_count : ℕ
  pub biss_last_position : ℕ
  pub biss_last_seq : ℕ
  pub biss_pulse_in_count : ℕ
  pub biss_pulse_out_count : ℕ
  pub biss_tx_frame_count : ℕ
  pub biss_rx_frame_count : ℕ
  pub biss_frame_error_count : ℕ
  pub biss_crc_error_count : ℕ
  pub biss_status_block_count : ℕ
  pub biss_fifo_overflow_count : ℕ
  pub biss_timeout_count : ℕ
  pub biss_trigger_count : ℕ
  pub biss_cal_round_trip_ns : ℕ
  pub biss_cal_jitter_p99_ns : ℕ
  pub biss_cal_valid : ℕ

pub record Vector : Type 0 where
  pub active_mode : ℕ
  pub supported_modes : ℕ
  pub io : IoSettings
  pub seq : SeqSettings
  pub seq_index : ℕ
  pub enc : EncSettings
  pub enc_counts : EncCounts
  pub biss : BissSettings
  pub run : BissRun
  pub state : State
  pub fault_timestamp_ms : ℕ
  pub trigger_count : ℕ
  pub output_count : ℕ
  pub missed_count : ℕ
  pub rollover_count : ℕ
  pub error_code : ℕ
  pub sync_clock_hz : ℕ
  pub sync_clock_enabled : Bool
  pub initialized : Bool
  pub io_initialized : Bool
  pub capture_running : Bool
  pub sync_clock_running : Bool
  pub dropped_capture_words : ℕ

-- `trig_event_seq_config_t`: the table is `none` for NULL.
pub record SeqConfig : Type 0 where
  pub table : Option (ℕ → ℕ)
  pub length : ℕ
  pub width : ℕ

-- `trig_event_t`. The payload is a union: a CONFIGURE_SEQ event carries `seq_config`, each other
-- event `value`, and no handler reads the other one.
pub record Event : Type 0 where
  pub kind : EventType
  pub seq_config : SeqConfig
  pub value : ℕ
