-- ===== src/TriggerVector/Codes.antt =====
-- The numbers of the states and of the events tell them apart, so the search of the table finds a
-- row of exactly the state and the event asked for.
use hdrt.Prelude.{ℕ, zero, suc, ◌≡◌, ◌∙◌, refl, sym, ap, List, [], ◌∷◌}
use hdrt.TriggerVector.Events.{
  EventType, event_code, event_configure_seq, event_set_source_pin, event_set_edge, event_set_gate,
  event_set_safe_state, event_arm, event_disarm, event_dma_rollover, event_fault, event_clear_fault,
  event_set_trigger_width, event_fire_trigger, event_set_pulse_width, event_fire_pulse,
  event_set_rj45_trigger_width, event_fire_rj45_trigger, event_set_sample_rate,
  event_set_sample_state, event_set_clock_freq, event_set_clock_state, event_reset,
  event_configure_enc, event_set_enc_target, event_set_enc_pins, event_enc_z_pulse,
  event_set_pcnt_decode, event_set_pcnt_dir, event_set_pcnt_filter, event_set_pcnt_gate,
  event_set_pcnt_cmp, event_set_pcnt_preset, event_pcnt_clear, event_configure_biss,
  event_set_biss_role, event_set_biss_device, event_set_biss_clock, event_set_biss_frame_bits,
  event_set_biss_position_offset, event_set_biss_position_bits, event_set_biss_position_modulo,
  event_set_biss_sample_edge, event_set_biss_sample_delay, event_set_biss_sample_scan,
  event_set_biss_sample_scan_start, event_set_biss_sample_scan_end, event_set_biss_sample_scan_step,
  event_set_biss_timeout, event_set_biss_anchor_offset, event_set_biss_anchor_bits,
  event_set_biss_anchor_mask, event_set_biss_anchor_value, event_set_biss_error_bit,
  event_set_biss_warning_bit, event_set_biss_status_gate, event_set_biss_crc_offset,
  event_set_biss_crc_bits, event_set_biss_crc_cover_offset, event_set_biss_crc_cover_bits,
  event_set_biss_crc_polynomial, event_set_biss_crc_init, event_set_biss_crc_xor,
  event_set_biss_crc_invert, event_set_biss_crc_gate, event_set_biss_latency_offset,
  event_set_biss_target, event_biss_pulse_in, event_biss_frame_rx, event_biss_crc_error,
  event_biss_timeout, event_runtime_sample,
}
use hdrt.TriggerVector.Fields.{
  State, state_code, state_idle, state_seq_configured, state_seq_armed, state_enc_configured,
  state_enc_armed, state_fault, state_biss_configured, state_biss_armed,
}

unfoldable all_events : List EventType
all_events =
    event_configure_seq ∷ event_set_source_pin ∷ event_set_edge ∷ event_set_gate
    ∷ event_set_safe_state ∷ event_arm ∷ event_disarm ∷ event_dma_rollover ∷ event_fault
    ∷ event_clear_fault ∷ event_set_trigger_width ∷ event_fire_trigger ∷ event_set_pulse_width
    ∷ event_fire_pulse ∷ event_set_rj45_trigger_width ∷ event_fire_rj45_trigger
    ∷ event_set_sample_rate ∷ event_set_sample_state ∷ event_set_clock_freq ∷ event_set_clock_state
    ∷ event_reset ∷ event_configure_enc ∷ event_set_enc_target ∷ event_set_enc_pins
    ∷ event_enc_z_pulse ∷ event_set_pcnt_decode ∷ event_set_pcnt_dir ∷ event_set_pcnt_filter
    ∷ event_set_pcnt_gate ∷ event_set_pcnt_cmp ∷ event_set_pcnt_preset ∷ event_pcnt_clear
    ∷ event_configure_biss ∷ event_set_biss_role ∷ event_set_biss_device ∷ event_set_biss_clock
    ∷ event_set_biss_frame_bits ∷ event_set_biss_position_offset ∷ event_set_biss_position_bits
    ∷ event_set_biss_position_modulo ∷ event_set_biss_sample_edge ∷ event_set_biss_sample_delay
    ∷ event_set_biss_sample_scan ∷ event_set_biss_sample_scan_start ∷ event_set_biss_sample_scan_end
    ∷ event_set_biss_sample_scan_step ∷ event_set_biss_timeout ∷ event_set_biss_anchor_offset
    ∷ event_set_biss_anchor_bits ∷ event_set_biss_anchor_mask ∷ event_set_biss_anchor_value
    ∷ event_set_biss_error_bit ∷ event_set_biss_warning_bit ∷ event_set_biss_status_gate
    ∷ event_set_biss_crc_offset ∷ event_set_biss_crc_bits ∷ event_set_biss_crc_cover_offset
    ∷ event_set_biss_crc_cover_bits ∷ event_set_biss_crc_polynomial ∷ event_set_biss_crc_init
    ∷ event_set_biss_crc_xor ∷ event_set_biss_crc_invert ∷ event_set_biss_crc_gate
    ∷ event_set_biss_latency_offset ∷ event_set_biss_target ∷ event_biss_pulse_in
    ∷ event_biss_frame_rx ∷ event_biss_crc_error ∷ event_biss_timeout ∷ event_runtime_sample ∷ []

unfoldable event_at : List EventType → ℕ → EventType
event_at [] n = event_reset
event_at (k ∷ rest) zero = k
event_at (k ∷ rest) (suc n) = event_at rest n

event_of_code : (k : EventType) → event_at all_events (event_code k) ≡ k
unfolding event_at all_events event_code
event_of_code event_configure_seq = refl
event_of_code event_set_source_pin = refl
event_of_code event_set_edge = refl
event_of_code event_set_gate = refl
event_of_code event_set_safe_state = refl
event_of_code event_arm = refl
event_of_code event_disarm = refl
event_of_code event_dma_rollover = refl
event_of_code event_fault = refl
event_of_code event_clear_fault = refl
event_of_code event_set_trigger_width = refl
event_of_code event_fire_trigger = refl
event_of_code event_set_pulse_width = refl
event_of_code event_fire_pulse = refl
event_of_code event_set_rj45_trigger_width = refl
event_of_code event_fire_rj45_trigger = refl
event_of_code event_set_sample_rate = refl
event_of_code event_set_sample_state = refl
event_of_code event_set_clock_freq = refl
event_of_code event_set_clock_state = refl
event_of_code event_reset = refl
event_of_code event_configure_enc = refl
event_of_code event_set_enc_target = refl
event_of_code event_set_enc_pins = refl
event_of_code event_enc_z_pulse = refl
event_of_code event_set_pcnt_decode = refl
event_of_code event_set_pcnt_dir = refl
event_of_code event_set_pcnt_filter = refl
event_of_code event_set_pcnt_gate = refl
event_of_code event_set_pcnt_cmp = refl
event_of_code event_set_pcnt_preset = refl
event_of_code event_pcnt_clear = refl
event_of_code event_configure_biss = refl
event_of_code event_set_biss_role = refl
event_of_code event_set_biss_device = refl
event_of_code event_set_biss_clock = refl
event_of_code event_set_biss_frame_bits = refl
event_of_code event_set_biss_position_offset = refl
event_of_code event_set_biss_position_bits = refl
event_of_code event_set_biss_position_modulo = refl
event_of_code event_set_biss_sample_edge = refl
event_of_code event_set_biss_sample_delay = refl
event_of_code event_set_biss_sample_scan = refl
event_of_code event_set_biss_sample_scan_start = refl
event_of_code event_set_biss_sample_scan_end = refl
event_of_code event_set_biss_sample_scan_step = refl
event_of_code event_set_biss_timeout = refl
event_of_code event_set_biss_anchor_offset = refl
event_of_code event_set_biss_anchor_bits = refl
event_of_code event_set_biss_anchor_mask = refl
event_of_code event_set_biss_anchor_value = refl
event_of_code event_set_biss_error_bit = refl
event_of_code event_set_biss_warning_bit = refl
event_of_code event_set_biss_status_gate = refl
event_of_code event_set_biss_crc_offset = refl
event_of_code event_set_biss_crc_bits = refl
event_of_code event_set_biss_crc_cover_offset = refl
event_of_code event_set_biss_crc_cover_bits = refl
event_of_code event_set_biss_crc_polynomial = refl
event_of_code event_set_biss_crc_init = refl
event_of_code event_set_biss_crc_xor = refl
event_of_code event_set_biss_crc_invert = refl
event_of_code event_set_biss_crc_gate = refl
event_of_code event_set_biss_latency_offset = refl
event_of_code event_set_biss_target = refl
event_of_code event_biss_pulse_in = refl
event_of_code event_biss_frame_rx = refl
event_of_code event_biss_crc_error = refl
event_of_code event_biss_timeout = refl
event_of_code event_runtime_sample = refl

pub event_code_injective : (j k : EventType) → event_code j ≡ event_code k → j ≡ k
event_code_injective j k e = sym (event_of_code j) ∙ ap (event_at all_events) e ∙ event_of_code k

unfoldable all_states : List State
all_states =
    state_idle ∷ state_seq_configured ∷ state_seq_armed ∷ state_enc_configured ∷ state_enc_armed
    ∷ state_fault ∷ state_biss_configured ∷ state_biss_armed ∷ []

unfoldable state_at : List State → ℕ → State
state_at [] n = state_idle
state_at (s ∷ rest) zero = s
state_at (s ∷ rest) (suc n) = state_at rest n

state_of_code : (s : State) → state_at all_states (state_code s) ≡ s
unfolding state_at all_states state_code
state_of_code state_idle = refl
state_of_code state_seq_configured = refl
state_of_code state_seq_armed = refl
state_of_code state_fault = refl
state_of_code state_biss_configured = refl
state_of_code state_biss_armed = refl
state_of_code state_enc_configured = refl
state_of_code state_enc_armed = refl

pub state_code_injective : (s t : State) → state_code s ≡ state_code t → s ≡ t
state_code_injective s t e = sym (state_of_code s) ∙ ap (state_at all_states) e ∙ state_of_code t
