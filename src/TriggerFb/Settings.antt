-- ===== src/TriggerFb/Settings.antt =====
-- The commands of `fb_instant_cmd` (components/sync_trigger/src/trigger_fb.c) that write a setting
-- and do nothing else, by the group of fields that they write. An event that is no such command of
-- the group gives `none`.
use hdrt.Prelude.{ℕ, not, Option, none, some, ◌==◌, if◌then◌else◌}
use hdrt.TriggerVector.Events.{
  EventType, event_set_source_pin, event_set_edge, event_set_gate, event_set_safe_state,
  event_set_trigger_width, event_set_pulse_width, event_set_rj45_trigger_width,
  event_set_enc_target, event_set_pcnt_decode, event_set_pcnt_dir, event_set_pcnt_filter,
  event_set_pcnt_gate, event_set_pcnt_cmp, event_set_pcnt_preset, event_set_biss_role,
  event_set_biss_device, event_set_biss_clock, event_set_biss_frame_bits,
  event_set_biss_position_offset, event_set_biss_position_bits, event_set_biss_position_modulo,
  event_set_biss_sample_edge, event_set_biss_sample_delay, event_set_biss_sample_scan,
  event_set_biss_sample_scan_start, event_set_biss_sample_scan_end, event_set_biss_sample_scan_step,
  event_set_biss_timeout, event_set_biss_anchor_offset, event_set_biss_anchor_bits,
  event_set_biss_anchor_mask, event_set_biss_anchor_value, event_set_biss_error_bit,
  event_set_biss_warning_bit, event_set_biss_status_gate, event_set_biss_crc_offset,
  event_set_biss_crc_bits, event_set_biss_crc_cover_offset, event_set_biss_crc_cover_bits,
  event_set_biss_crc_polynomial, event_set_biss_crc_init, event_set_biss_crc_xor,
  event_set_biss_crc_invert, event_set_biss_crc_gate, event_set_biss_latency_offset,
  event_set_biss_target,
}
use hdrt.TriggerVector.Fields.{IoSettings, EncSettings, BissSettings}

unfoldable pub io_setting : EventType → ℕ → IoSettings → Option IoSettings
io_setting event_set_trigger_width value io = some (record io { trigger_width_us = value })
io_setting event_set_pulse_width value io = some (record io { pulse_width_us = value })
io_setting event_set_source_pin value io = some (record io { trigger_source_pin = value })
io_setting event_set_edge value io = some (record io { edge = value })
io_setting event_set_gate value io = some (record io { gate_enabled = not (value == 0) })
io_setting event_set_safe_state value io = some (record io { safe_state = value })
io_setting event_set_rj45_trigger_width value io =
    some (record io { rj45_trigger_width_us = value; marker_width_us = value })
io_setting _ value io = none

unfoldable pub enc_setting : EventType → ℕ → EncSettings → Option EncSettings
enc_setting event_set_enc_target value enc = some (record enc { enc_target = value })
enc_setting event_set_pcnt_decode value enc = some (record enc { enc_decode = value })
enc_setting event_set_pcnt_dir value enc = some (record enc { enc_dir = value })
enc_setting event_set_pcnt_filter value enc = some (record enc { enc_filter_ns = value })
enc_setting event_set_pcnt_gate value enc =
    some (record enc { enc_gate_enabled = not (value == 0) })
enc_setting event_set_pcnt_cmp value enc = some (record enc { enc_cmp_pulse_ns = value })
enc_setting event_set_pcnt_preset value enc = some (record enc { enc_preset = value })
enc_setting _ value enc = none

unfoldable pub biss_setting : EventType → ℕ → BissSettings → Option BissSettings
biss_setting event_set_biss_role value biss = some (record biss { biss_role = value })
biss_setting event_set_biss_device value biss = some (record biss { biss_device_id = value })
biss_setting event_set_biss_clock value biss = some (record biss { biss_clock_hz = value })
biss_setting event_set_biss_frame_bits value biss = some (record biss { biss_frame_bits = value })
biss_setting event_set_biss_position_offset value biss =
    some (record biss { biss_position_offset = value })
biss_setting event_set_biss_position_bits value biss =
    some (record biss { biss_position_bits = value })
biss_setting event_set_biss_position_modulo value biss =
    some (record biss { biss_position_modulo = value })
biss_setting event_set_biss_sample_edge value biss = some (record biss { biss_sample_edge = value })
biss_setting event_set_biss_sample_delay value biss =
    some (record biss { biss_sample_delay_cycles = value })
biss_setting event_set_biss_sample_scan value biss =
    some (record biss { biss_sample_scan_enabled = if value == 0 then 0 else 1 })
biss_setting event_set_biss_sample_scan_start value biss =
    some (record biss { biss_sample_scan_start_cycles = value })
biss_setting event_set_biss_sample_scan_end value biss =
    some (record biss { biss_sample_scan_end_cycles = value })
biss_setting event_set_biss_sample_scan_step value biss =
    some (record biss { biss_sample_scan_step_cycles = value })
biss_setting event_set_biss_timeout value biss = some (record biss { biss_timeout_us = value })
biss_setting event_set_biss_anchor_offset value biss =
    some (record biss { biss_anchor_offset = value })
biss_setting event_set_biss_anchor_bits value biss = some (record biss { biss_anchor_bits = value })
biss_setting event_set_biss_anchor_mask value biss = some (record biss { biss_anchor_mask = value })
biss_setting event_set_biss_anchor_value value biss =
    some (record biss { biss_anchor_value = value })
biss_setting event_set_biss_error_bit value biss =
    some (record biss { biss_error_bit_offset = value })
biss_setting event_set_biss_warning_bit value biss =
    some (record biss { biss_warning_bit_offset = value })
biss_setting event_set_biss_status_gate value biss =
    some (record biss { biss_status_gate_policy = value })
biss_setting event_set_biss_crc_offset value biss = some (record biss { biss_crc_offset = value })
biss_setting event_set_biss_crc_bits value biss = some (record biss { biss_crc_bits = value })
biss_setting event_set_biss_crc_cover_offset value biss =
    some (record biss { biss_crc_cover_offset = value })
biss_setting event_set_biss_crc_cover_bits value biss =
    some (record biss { biss_crc_cover_bits = value })
biss_setting event_set_biss_crc_polynomial value biss =
    some (record biss { biss_crc_polynomial = value })
biss_setting event_set_biss_crc_init value biss = some (record biss { biss_crc_init = value })
biss_setting event_set_biss_crc_xor value biss = some (record biss { biss_crc_xor = value })
biss_setting event_set_biss_crc_invert value biss = some (record biss { biss_crc_invert = value })
biss_setting event_set_biss_crc_gate value biss =
    some (record biss { biss_crc_gate_policy = value })
biss_setting event_set_biss_latency_offset value biss =
    some (record biss { biss_latency_offset_ns = value })
biss_setting event_set_biss_target value biss = some (record biss { biss_target = value })
biss_setting _ value biss = none
