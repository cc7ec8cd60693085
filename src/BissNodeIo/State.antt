-- ===== src/BissNodeIo/State.antt =====
-- The state of the node, its profile, and arming.
use hdrt.Prelude.{
  ℕ, ◌+◌, ◌/◌, ◌%◌, ◌^◌, Bool, true, false, not, Option, none, some, ◌==◌, if◌then◌else◌,
}
use hdrt.TriggerVector.Fields.{Vector}
use hdrt.BissProtocol.Types.{ProfileStatus, Profile, profile_validate, ok}
use hdrt.SyncIo.Hardware.{TapConfig, Hardware}

-- `biss_node_io_context_t`
pub record Node : Type 0 where
  pub running : Bool
  pub rx_irq_pending : Bool
  pub profile : Profile
  pub frame_accum : ℕ
  pub frame_words_seen : ℕ
  pub frame_words_expected : ℕ
  pub final_word_bits : ℕ
  pub last_frame_ms : ℕ
  pub timeout_ms : ℕ
  pub timeout_latched : Bool
  pub tap_config : TapConfig

-- What the operations of the node change.
pub record Desk (σ : Type 0) : Type 0 where
  pub vector : Vector
  pub node : Node
  pub hardware : σ

-- `memset` to 0
unfoldable pub zero_node : Node
zero_node = record {
  running = false;
  rx_irq_pending = false;
  profile = record {
    frame_bits = 0;
    position_offset = 0;
    position_bits = 0;
    modulo = 0;
    anchor_offset = 0;
    anchor_bits = 0;
    anchor_mask = 0;
    anchor_value = 0;
    error_bit_offset = 0;
    warning_bit_offset = 0;
    status_gate_policy = 0;
    crc_offset = 0;
    crc_bits = 0;
    crc_cover_offset = 0;
    crc_cover_bits = 0;
    crc_polynomial = 0;
    crc_init = 0;
    crc_xor = 0;
    crc_invert = false;
    crc_gate_policy = 0;
    sample_edge = 0;
    sample_delay_cycles = 0;
    pio_cycles_per_bit = 0;
    timeout_us = 0;
  };
  frame_accum = 0;
  frame_words_seen = 0;
  frame_words_expected = 0;
  final_word_bits = 0;
  last_frame_ms = 0;
  timeout_ms = 0;
  timeout_latched = false;
  tap_config = record {
    clk_pin = 0;
    data_pin = 0;
    frame_bits = 0;
    sample_delay_cycles = 0;
    sample_edge = 0;
  };
}

-- The CRC parameters are cast to `uint8_t`.
unfoldable pub make_profile : Vector → Profile
make_profile vector = record {
  frame_bits = vector.biss.biss_frame_bits;
  position_offset = vector.biss.biss_position_offset;
  position_bits = vector.biss.biss_position_bits;
  modulo = vector.biss.biss_position_modulo;
  anchor_offset = vector.biss.biss_anchor_offset;
  anchor_bits = vector.biss.biss_anchor_bits;
  anchor_mask = vector.biss.biss_anchor_mask;
  anchor_value = vector.biss.biss_anchor_value;
  error_bit_offset = vector.biss.biss_error_bit_offset;
  warning_bit_offset = vector.biss.biss_warning_bit_offset;
  status_gate_policy = vector.biss.biss_status_gate_policy;
  crc_offset = vector.biss.biss_crc_offset;
  crc_bits = vector.biss.biss_crc_bits;
  crc_cover_offset = vector.biss.biss_crc_cover_offset;
  crc_cover_bits = vector.biss.biss_crc_cover_bits;
  crc_polynomial = vector.biss.biss_crc_polynomial % 2 ^ 8;
  crc_init = vector.biss.biss_crc_init % 2 ^ 8;
  crc_xor = vector.biss.biss_crc_xor % 2 ^ 8;
  crc_invert = not (vector.biss.biss_crc_invert == 0);
  crc_gate_policy = vector.biss.biss_crc_gate_policy;
  sample_edge = vector.biss.biss_sample_edge;
  sample_delay_cycles = vector.biss.biss_sample_delay_cycles;
  pio_cycles_per_bit =
      if vector.biss.biss_clock_hz == 0 then 0 else 250000000 / vector.biss.biss_clock_hz;
  timeout_us = vector.biss.biss_timeout_us;
}

unfoldable pub is_ok : ProfileStatus → Bool
is_ok ok = true
is_ok _ = false

unfoldable pub tap_config_of : Vector → TapConfig
tap_config_of vector = record {
  clk_pin = vector.biss.biss_clk_in_pin;
  data_pin = vector.biss.biss_data_in_pin;
  frame_bits = vector.biss.biss_frame_bits;
  sample_delay_cycles = vector.run.biss_active_sample_delay_cycles;
  sample_edge = vector.run.biss_active_sample_edge;
}

-- The words that `biss_node_io_arm` derives: a frame of up to 64 bits comes in one or two words,
-- the last of which has `final_word_bits`.
unfoldable pub started_node : Vector → ℕ → Node
unfolding zero_node
started_node vector now =
    let profile = make_profile vector in
    let final = profile.frame_bits % 32 in
    let timeout = (profile.timeout_us + 999) % 2 ^ 32 / 1000 in
    record zero_node {
      profile = record profile {
        sample_delay_cycles = vector.run.biss_active_sample_delay_cycles;
        sample_edge = vector.run.biss_active_sample_edge;
      };
      tap_config = tap_config_of vector;
      frame_words_expected = (profile.frame_bits + 31) % 2 ^ 32 / 32;
      final_word_bits = if final == 0 then 32 else final;
      last_frame_ms = now;
      timeout_ms = if timeout == 0 then 1 else timeout;
      running = true;
    }

module _ {σ : Type 0} (h : Hardware σ) where
  unfoldable pub node_arm : Desk σ → Desk σ × Bool
  node_arm d =
      if not (is_ok (profile_validate (some (make_profile d.vector))))
      then (d, false)
      else (let (hardware, armed) = h.biss_tap_arm (tap_config_of d.vector) d.hardware in
          if not armed then (record d { hardware = hardware }, false) else (
            record d { node = started_node d.vector (h.uptime_ms hardware); hardware = hardware },
            true,
          ))

  unfoldable pub node_disarm : Desk σ → Desk σ
  node_disarm d = record d { node = zero_node; hardware = h.biss_tap_disarm d.hardware }

  unfoldable pub sample_scan_rearm_succeeded : Desk σ → Desk σ
  sample_scan_rearm_succeeded d = if not d.node.running then d else record d {
    node = record d.node { timeout_latched = false; last_frame_ms = h.uptime_ms d.hardware };
  }

unfoldable pub get_tap_config : Node → Option TapConfig
get_tap_config node = if not node.running then none else some node.tap_config

unfoldable pub rx_irq_callback : Node → Node
rx_irq_callback node = record node { rx_irq_pending = true }
