-- ===== src/TriggerFb/Rows.antt =====
-- The rows of `s_ecc_table` in trigger_fb.c, state by state, in the order of the source.
use hdrt.Prelude.{List, [], ◌∷◌}
use hdrt.TriggerVector.Events.{
  EventType, event_configure_seq, event_set_source_pin, event_set_edge, event_set_gate,
  event_set_safe_state, event_arm, event_disarm, event_dma_rollover, event_fault, event_clear_fault,
  event_set_trigger_width, event_fire_trigger, event_set_pulse_width, event_fire_pulse,
  event_set_rj45_trigger_width, event_fire_rj45_trigger, event_set_sample_rate,
  event_set_sample_state, event_set_clock_freq, event_set_clock_state, event_reset,
  event_configure_enc, event_set_enc_target, event_set_enc_pins, event_enc_z_pulse,
  event_set_pcnt_decode, event_set_pcnt_dir, event_set_pcnt_filter, event_set_pcnt_gate,
  event_set_pcnt_cmp, event_set_pcnt_preset, event_pcnt_clear, event_configure_biss,
  event_set_biss_role, event_set_biss_device, event_set_biss_clock, event_set_biss_frame_bits,
  event_set_biss_position_offset, event_set_biss_position_bits, event_set_biss_position_modulo,
  event_set_biss_sample_edge, event_set_biss_sample_delay, event_set_biss_sample_scan,
  event_set_biss_sample_scan_start, event_set_biss_sample_scan_end, event_set_biss_sample_scan_step,
  event_set_biss_timeout, event_set_biss_anchor_offset, event_set_biss_anchor_bits,
  event_set_biss_anchor_mask, event_set_biss_anchor_value, event_set_biss_error_bit,
  event_set_biss_warning_bit, event_set_biss_status_gate, event_set_biss_crc_offset,
  event_set_biss_crc_bits, event_set_biss_crc_cover_offset, event_set_biss_crc_cover_bits,
  event_set_biss_crc_polynomial, event_set_biss_crc_init, event_set_biss_crc_xor,
  event_set_biss_crc_invert, event_set_biss_crc_gate, event_set_biss_latency_offset,
  event_set_biss_target, event_biss_pulse_in, event_biss_frame_rx, event_biss_crc_error,
  event_biss_timeout, event_runtime_sample,
}
use hdrt.TriggerVector.Fields.{
  State, state_idle, state_seq_configured, state_seq_armed, state_enc_configured, state_enc_armed,
  state_fault, state_biss_configured, state_biss_armed,
}

-- `fb_handler_t`: the functions that the table points to.
pub data Handler : Type 0 where
  fb_idle_configure_seq fb_idle_configure_enc fb_idle_configure_biss : Handler
  fb_instant_cmd fb_reset_all fb_force_fault : Handler
  fb_seq_configured_arm fb_seq_armed_disarm fb_seq_configured_reconfigure : Handler
  fb_seq_armed_service fb_runtime_sample fb_seq_armed_reject : Handler
  fb_fault_clear fb_biss_configured_arm fb_biss_armed_disarm : Handler
  fb_biss_armed_pulse_in fb_biss_armed_frame_rx fb_enc_configured_arm : Handler
  fb_enc_armed_disarm fb_enc_armed_service : Handler

-- `ecc_entry_t`
pub data Row : Type 0 where
  row : State → EventType → Handler → Row

unfoldable pub idle_rows : List Row
idle_rows =
    row state_idle event_configure_seq fb_idle_configure_seq
    ∷ row state_idle event_configure_enc fb_idle_configure_enc
    ∷ row state_idle event_configure_biss fb_idle_configure_biss
    ∷ row state_idle event_set_source_pin fb_instant_cmd
    ∷ row state_idle event_set_edge fb_instant_cmd
    ∷ row state_idle event_set_gate fb_instant_cmd
    ∷ row state_idle event_set_safe_state fb_instant_cmd
    ∷ row state_idle event_set_enc_target fb_instant_cmd
    ∷ row state_idle event_set_enc_pins fb_instant_cmd
    ∷ row state_idle event_set_pcnt_decode fb_instant_cmd
    ∷ row state_idle event_set_pcnt_dir fb_instant_cmd
    ∷ row state_idle event_set_pcnt_filter fb_instant_cmd
    ∷ row state_idle event_set_pcnt_gate fb_instant_cmd
    ∷ row state_idle event_set_pcnt_cmp fb_instant_cmd
    ∷ row state_idle event_set_pcnt_preset fb_instant_cmd
    ∷ row state_idle event_pcnt_clear fb_instant_cmd
    ∷ row state_idle event_set_biss_role fb_instant_cmd
    ∷ row state_idle event_set_biss_device fb_instant_cmd
    ∷ row state_idle event_set_biss_clock fb_instant_cmd
    ∷ row state_idle event_set_biss_frame_bits fb_instant_cmd
    ∷ row state_idle event_set_biss_position_offset fb_instant_cmd
    ∷ row state_idle event_set_biss_position_bits fb_instant_cmd
    ∷ row state_idle event_set_biss_position_modulo fb_instant_cmd
    ∷ row state_idle event_set_biss_sample_edge fb_instant_cmd
    ∷ row state_idle event_set_biss_sample_delay fb_instant_cmd
    ∷ row state_idle event_set_biss_sample_scan fb_instant_cmd
    ∷ row state_idle event_set_biss_sample_scan_start fb_instant_cmd
    ∷ row state_idle event_set_biss_sample_scan_end fb_instant_cmd
    ∷ row state_idle event_set_biss_sample_scan_step fb_instant_cmd
    ∷ row state_idle event_set_biss_timeout fb_instant_cmd
    ∷ row state_idle event_set_biss_anchor_offset fb_instant_cmd
    ∷ row state_idle event_set_biss_anchor_bits fb_instant_cmd
    ∷ row state_idle event_set_biss_anchor_mask fb_instant_cmd
    ∷ row state_idle event_set_biss_anchor_value fb_instant_cmd
    ∷ row state_idle event_set_biss_error_bit fb_instant_cmd
    ∷ row state_idle event_set_biss_warning_bit fb_instant_cmd
    ∷ row state_idle event_set_biss_status_gate fb_instant_cmd
    ∷ row state_idle event_set_biss_crc_offset fb_instant_cmd
    ∷ row state_idle event_set_biss_crc_bits fb_instant_cmd
    ∷ row state_idle event_set_biss_crc_cover_offset fb_instant_cmd
    ∷ row state_idle event_set_biss_crc_cover_bits fb_instant_cmd
    ∷ row state_idle event_set_biss_crc_polynomial fb_instant_cmd
    ∷ row state_idle event_set_biss_crc_init fb_instant_cmd
    ∷ row state_idle event_set_biss_crc_xor fb_instant_cmd
    ∷ row state_idle event_set_biss_crc_invert fb_instant_cmd
    ∷ row state_idle event_set_biss_crc_gate fb_instant_cmd
    ∷ row state_idle event_set_biss_latency_offset fb_instant_cmd
    ∷ row state_idle event_set_biss_target fb_instant_cmd
    ∷ row state_idle event_reset fb_reset_all
    ∷ row state_idle event_set_trigger_width fb_instant_cmd
    ∷ row state_idle event_fire_trigger fb_instant_cmd
    ∷ row state_idle event_set_pulse_width fb_instant_cmd
    ∷ row state_idle event_fire_pulse fb_instant_cmd
    ∷ row state_idle event_set_rj45_trigger_width fb_instant_cmd
    ∷ row state_idle event_fire_rj45_trigger fb_instant_cmd
    ∷ row state_idle event_set_sample_rate fb_instant_cmd
    ∷ row state_idle event_set_sample_state fb_instant_cmd
    ∷ row state_idle event_set_clock_freq fb_instant_cmd
    ∷ row state_idle event_set_clock_state fb_instant_cmd
    ∷ row state_idle event_fault fb_force_fault
    ∷ []

unfoldable pub seq_configured_rows : List Row
seq_configured_rows =
    row state_seq_configured event_arm fb_seq_configured_arm
    ∷ row state_seq_configured event_disarm fb_seq_armed_disarm
    ∷ row state_seq_configured event_configure_seq fb_seq_configured_reconfigure
    ∷ row state_seq_configured event_set_source_pin fb_instant_cmd
    ∷ row state_seq_configured event_set_edge fb_instant_cmd
    ∷ row state_seq_configured event_set_gate fb_instant_cmd
    ∷ row state_seq_configured event_set_safe_state fb_instant_cmd
    ∷ row state_seq_configured event_reset fb_reset_all
    ∷ row state_seq_configured event_set_trigger_width fb_instant_cmd
    ∷ row state_seq_configured event_fire_trigger fb_instant_cmd
    ∷ row state_seq_configured event_set_pulse_width fb_instant_cmd
    ∷ row state_seq_configured event_fire_pulse fb_instant_cmd
    ∷ row state_seq_configured event_set_rj45_trigger_width fb_instant_cmd
    ∷ row state_seq_configured event_fire_rj45_trigger fb_instant_cmd
    ∷ row state_seq_configured event_set_sample_rate fb_instant_cmd
    ∷ row state_seq_configured event_set_sample_state fb_instant_cmd
    ∷ row state_seq_configured event_set_clock_freq fb_instant_cmd
    ∷ row state_seq_configured event_set_clock_state fb_instant_cmd
    ∷ row state_seq_configured event_fault fb_force_fault
    ∷ []

unfoldable pub seq_armed_rows : List Row
seq_armed_rows =
    row state_seq_armed event_disarm fb_seq_armed_disarm
    ∷ row state_seq_armed event_dma_rollover fb_seq_armed_service
    ∷ row state_seq_armed event_runtime_sample fb_runtime_sample
    ∷ row state_seq_armed event_configure_seq fb_seq_armed_reject
    ∷ row state_seq_armed event_set_trigger_width fb_seq_armed_reject
    ∷ row state_seq_armed event_fire_trigger fb_seq_armed_reject
    ∷ row state_seq_armed event_fire_pulse fb_seq_armed_reject
    ∷ row state_seq_armed event_fire_rj45_trigger fb_seq_armed_reject
    ∷ row state_seq_armed event_reset fb_reset_all
    ∷ row state_seq_armed event_fault fb_force_fault
    ∷ []

unfoldable pub fault_rows : List Row
fault_rows =
    row state_fault event_clear_fault fb_fault_clear
    ∷ row state_fault event_disarm fb_fault_clear
    ∷ row state_fault event_reset fb_reset_all
    ∷ []

unfoldable pub biss_configured_rows : List Row
biss_configured_rows =
    row state_biss_configured event_arm fb_biss_configured_arm
    ∷ row state_biss_configured event_disarm fb_biss_armed_disarm
    ∷ row state_biss_configured event_configure_biss fb_idle_configure_biss
    ∷ row state_biss_configured event_set_biss_role fb_instant_cmd
    ∷ row state_biss_configured event_set_biss_device fb_instant_cmd
    ∷ row state_biss_configured event_set_biss_clock fb_instant_cmd
    ∷ row state_biss_configured event_set_biss_frame_bits fb_instant_cmd
    ∷ row state_biss_configured event_set_biss_position_offset fb_instant_cmd
    ∷ row state_biss_configured event_set_biss_position_bits fb_instant_cmd
    ∷ row state_biss_configured event_set_biss_position_modulo fb_instant_cmd
    ∷ row state_biss_configured event_set_biss_sample_edge fb_instant_cmd
    ∷ row state_biss_configured event_set_biss_sample_delay fb_instant_cmd
    ∷ row state_biss_configured event_set_biss_sample_scan fb_instant_cmd
    ∷ row state_biss_configured event_set_biss_sample_scan_start fb_instant_cmd
    ∷ row state_biss_configured event_set_biss_sample_scan_end fb_instant_cmd
    ∷ row state_biss_configured event_set_biss_sample_scan_step fb_instant_cmd
    ∷ row state_biss_configured event_set_biss_timeout fb_instant_cmd
    ∷ row state_biss_configured event_set_biss_anchor_offset fb_instant_cmd
    ∷ row state_biss_configured event_set_biss_anchor_bits fb_instant_cmd
    ∷ row state_biss_configured event_set_biss_anchor_mask fb_instant_cmd
    ∷ row state_biss_configured event_set_biss_anchor_value fb_instant_cmd
    ∷ row state_biss_configured event_set_biss_error_bit fb_instant_cmd
    ∷ row state_biss_configured event_set_biss_warning_bit fb_instant_cmd
    ∷ row state_biss_configured event_set_biss_status_gate fb_instant_cmd
    ∷ row state_biss_configured event_set_biss_crc_offset fb_instant_cmd
    ∷ row state_biss_configured event_set_biss_crc_bits fb_instant_cmd
    ∷ row state_biss_configured event_set_biss_crc_cover_offset fb_instant_cmd
    ∷ row state_biss_configured event_set_biss_crc_cover_bits fb_instant_cmd
    ∷ row state_biss_configured event_set_biss_crc_polynomial fb_instant_cmd
    ∷ row state_biss_configured event_set_biss_crc_init fb_instant_cmd
    ∷ row state_biss_configured event_set_biss_crc_xor fb_instant_cmd
    ∷ row state_biss_configured event_set_biss_crc_invert fb_instant_cmd
    ∷ row state_biss_configured event_set_biss_crc_gate fb_instant_cmd
    ∷ row state_biss_configured event_set_biss_latency_offset fb_instant_cmd
    ∷ row state_biss_configured event_set_biss_target fb_instant_cmd
    ∷ row state_biss_configured event_reset fb_reset_all
    ∷ row state_biss_configured event_fault fb_force_fault
    ∷ []

unfoldable pub biss_armed_rows : List Row
biss_armed_rows =
    row state_biss_armed event_disarm fb_biss_armed_disarm
    ∷ row state_biss_armed event_runtime_sample fb_runtime_sample
    ∷ row state_biss_armed event_biss_pulse_in fb_biss_armed_pulse_in
    ∷ row state_biss_armed event_biss_frame_rx fb_biss_armed_frame_rx
    ∷ row state_biss_armed event_biss_crc_error fb_instant_cmd
    ∷ row state_biss_armed event_biss_timeout fb_instant_cmd
    ∷ row state_biss_armed event_set_biss_role fb_seq_armed_reject
    ∷ row state_biss_armed event_set_biss_device fb_seq_armed_reject
    ∷ row state_biss_armed event_set_biss_clock fb_seq_armed_reject
    ∷ row state_biss_armed event_set_biss_frame_bits fb_seq_armed_reject
    ∷ row state_biss_armed event_set_biss_position_offset fb_seq_armed_reject
    ∷ row state_biss_armed event_set_biss_position_bits fb_seq_armed_reject
    ∷ row state_biss_armed event_set_biss_position_modulo fb_seq_armed_reject
    ∷ row state_biss_armed event_set_biss_sample_edge fb_seq_armed_reject
    ∷ row state_biss_armed event_set_biss_sample_delay fb_seq_armed_reject
    ∷ row state_biss_armed event_set_biss_sample_scan fb_seq_armed_reject
    ∷ row state_biss_armed event_set_biss_sample_scan_start fb_seq_armed_reject
    ∷ row state_biss_armed event_set_biss_sample_scan_end fb_seq_armed_reject
    ∷ row state_biss_armed event_set_biss_sample_scan_step fb_seq_armed_reject
    ∷ row state_biss_armed event_set_biss_timeout fb_seq_armed_reject
    ∷ row state_biss_armed event_set_biss_anchor_offset fb_seq_armed_reject
    ∷ row state_biss_armed event_set_biss_anchor_bits fb_seq_armed_reject
    ∷ row state_biss_armed event_set_biss_anchor_mask fb_seq_armed_reject
    ∷ row state_biss_armed event_set_biss_anchor_value fb_seq_armed_reject
    ∷ row state_biss_armed event_set_biss_error_bit fb_seq_armed_reject
    ∷ row state_biss_armed event_set_biss_warning_bit fb_seq_armed_reject
    ∷ row state_biss_armed event_set_biss_status_gate fb_seq_armed_reject
    ∷ row state_biss_armed event_set_biss_crc_offset fb_seq_armed_reject
    ∷ row state_biss_armed event_set_biss_crc_bits fb_seq_armed_reject
    ∷ row state_biss_armed event_set_biss_crc_cover_offset fb_seq_armed_reject
    ∷ row state_biss_armed event_set_biss_crc_cover_bits fb_seq_armed_reject
    ∷ row state_biss_armed event_set_biss_crc_polynomial fb_seq_armed_reject
    ∷ row state_biss_armed event_set_biss_crc_init fb_seq_armed_reject
    ∷ row state_biss_armed event_set_biss_crc_xor fb_seq_armed_reject
    ∷ row state_biss_armed event_set_biss_crc_invert fb_seq_armed_reject
    ∷ row state_biss_armed event_set_biss_crc_gate fb_seq_armed_reject
    ∷ row state_biss_armed event_set_biss_latency_offset fb_seq_armed_reject
    ∷ row state_biss_armed event_set_biss_target fb_seq_armed_reject
    ∷ row state_biss_armed event_reset fb_reset_all
    ∷ row state_biss_armed event_fault fb_force_fault
    ∷ []

unfoldable pub enc_configured_rows : List Row
enc_configured_rows =
    row state_enc_configured event_arm fb_enc_configured_arm
    ∷ row state_enc_configured event_disarm fb_enc_armed_disarm
    ∷ row state_enc_configured event_configure_enc fb_idle_configure_enc
    ∷ row state_enc_configured event_set_enc_target fb_instant_cmd
    ∷ row state_enc_configured event_set_enc_pins fb_instant_cmd
    ∷ row state_enc_configured event_set_pcnt_decode fb_instant_cmd
    ∷ row state_enc_configured event_set_pcnt_dir fb_instant_cmd
    ∷ row state_enc_configured event_set_pcnt_filter fb_instant_cmd
    ∷ row state_enc_configured event_set_pcnt_gate fb_instant_cmd
    ∷ row state_enc_configured event_set_pcnt_cmp fb_instant_cmd
    ∷ row state_enc_configured event_set_pcnt_preset fb_instant_cmd
    ∷ row state_enc_configured event_reset fb_reset_all
    ∷ row state_enc_configured event_fault fb_force_fault
    ∷ []

unfoldable pub enc_armed_rows : List Row
enc_armed_rows =
    row state_enc_armed event_disarm fb_enc_armed_disarm
    ∷ row state_enc_armed event_dma_rollover fb_enc_armed_service
    ∷ row state_enc_armed event_runtime_sample fb_runtime_sample
    ∷ row state_enc_armed event_enc_z_pulse fb_instant_cmd
    ∷ row state_enc_armed event_pcnt_clear fb_instant_cmd
    ∷ row state_enc_armed event_set_enc_target fb_instant_cmd
    ∷ row state_enc_armed event_reset fb_reset_all
    ∷ row state_enc_armed event_fault fb_force_fault
    ∷ []
