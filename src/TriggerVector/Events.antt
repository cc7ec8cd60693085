-- ===== src/TriggerVector/Events.antt =====
-- The events of components/sync_trigger/inc/trigger_vector.h. The two deprecated aliases
-- (SET_MARKER_WIDTH, FIRE_MARKER) are the RJ45 events.
use hdrt.Prelude.{ℕ}

pub data EventType : Type 0 where
  event_configure_seq event_set_source_pin event_set_edge : EventType
  event_set_gate event_set_safe_state event_arm : EventType
  event_disarm event_dma_rollover event_fault : EventType
  event_clear_fault event_set_trigger_width event_fire_trigger : EventType
  event_set_pulse_width event_fire_pulse event_set_rj45_trigger_width : EventType
  event_fire_rj45_trigger event_set_sample_rate event_set_sample_state : EventType
  event_set_clock_freq event_set_clock_state event_reset : EventType
  event_configure_enc event_set_enc_target event_set_enc_pins : EventType
  event_enc_z_pulse event_set_pcnt_decode event_set_pcnt_dir : EventType
  event_set_pcnt_filter event_set_pcnt_gate event_set_pcnt_cmp : EventType
  event_set_pcnt_preset event_pcnt_clear event_configure_biss : EventType
  event_set_biss_role event_set_biss_device event_set_biss_clock : EventType
  event_set_biss_frame_bits event_set_biss_position_offset event_set_biss_position_bits : EventType
  event_set_biss_position_modulo event_set_biss_sample_edge event_set_biss_sample_delay : EventType
  event_set_biss_sample_scan event_set_biss_sample_scan_start event_set_biss_sample_scan_end :
      EventType
  event_set_biss_sample_scan_step event_set_biss_timeout event_set_biss_anchor_offset : EventType
  event_set_biss_anchor_bits event_set_biss_anchor_mask event_set_biss_anchor_value : EventType
  event_set_biss_error_bit event_set_biss_warning_bit event_set_biss_status_gate : EventType
  event_set_biss_crc_offset event_set_biss_crc_bits event_set_biss_crc_cover_offset : EventType
  event_set_biss_crc_cover_bits event_set_biss_crc_polynomial event_set_biss_crc_init : EventType
  event_set_biss_crc_xor event_set_biss_crc_invert event_set_biss_crc_gate : EventType
  event_set_biss_latency_offset event_set_biss_target event_biss_pulse_in : EventType
  event_biss_frame_rx event_biss_crc_error event_biss_timeout : EventType
  event_runtime_sample : EventType

-- The numbers of the enumeration.
unfoldable pub event_code : EventType → ℕ
event_code event_configure_seq = 0
event_code event_set_source_pin = 1
event_code event_set_edge = 2
event_code event_set_gate = 3
event_code event_set_safe_state = 4
event_code event_arm = 5
event_code event_disarm = 6
event_code event_dma_rollover = 7
event_code event_fault = 8
event_code event_clear_fault = 9
event_code event_set_trigger_width = 10
event_code event_fire_trigger = 11
event_code event_set_pulse_width = 12
event_code event_fire_pulse = 13
event_code event_set_rj45_trigger_width = 14
event_code event_fire_rj45_trigger = 15
event_code event_set_sample_rate = 16
event_code event_set_sample_state = 17
event_code event_set_clock_freq = 18
event_code event_set_clock_state = 19
event_code event_reset = 20
event_code event_configure_enc = 21
event_code event_set_enc_target = 22
event_code event_set_enc_pins = 23
event_code event_enc_z_pulse = 24
event_code event_set_pcnt_decode = 25
event_code event_set_pcnt_dir = 26
event_code event_set_pcnt_filter = 27
event_code event_set_pcnt_gate = 28
event_code event_set_pcnt_cmp = 29
event_code event_set_pcnt_preset = 30
event_code event_pcnt_clear = 31
event_code event_configure_biss = 32
event_code event_set_biss_role = 33
event_code event_set_biss_device = 34
event_code event_set_biss_clock = 35
event_code event_set_biss_frame_bits = 36
event_code event_set_biss_position_offset = 37
event_code event_set_biss_position_bits = 38
event_code event_set_biss_position_modulo = 39
event_code event_set_biss_sample_edge = 40
event_code event_set_biss_sample_delay = 41
event_code event_set_biss_sample_scan = 42
event_code event_set_biss_sample_scan_start = 43
event_code event_set_biss_sample_scan_end = 44
event_code event_set_biss_sample_scan_step = 45
event_code event_set_biss_timeout = 46
event_code event_set_biss_anchor_offset = 47
event_code event_set_biss_anchor_bits = 48
event_code event_set_biss_anchor_mask = 49
event_code event_set_biss_anchor_value = 50
event_code event_set_biss_error_bit = 51
event_code event_set_biss_warning_bit = 52
event_code event_set_biss_status_gate = 53
event_code event_set_biss_crc_offset = 54
event_code event_set_biss_crc_bits = 55
event_code event_set_biss_crc_cover_offset = 56
event_code event_set_biss_crc_cover_bits = 57
event_code event_set_biss_crc_polynomial = 58
event_code event_set_biss_crc_init = 59
event_code event_set_biss_crc_xor = 60
event_code event_set_biss_crc_invert = 61
event_code event_set_biss_crc_gate = 62
event_code event_set_biss_latency_offset = 63
event_code event_set_biss_target = 64
event_code event_biss_pulse_in = 65
event_code event_biss_frame_rx = 66
event_code event_biss_crc_error = 67
event_code event_biss_timeout = 68
event_code event_runtime_sample = 69
