-- ===== src/SyncIo/Hardware.antt =====
-- What the trigger asks of the PIO and DMA drivers of components/sync_io and of the clock of the
-- operating system, as operations on a state `σ` of the hardware. The drivers program registers of
-- the chip, so every theorem is about all such operations.
use hdrt.Prelude.{ℕ, Bool, List}

-- `sync_io_seq_step_mode_config_t`
pub record SeqModeConfig : Type 0 where
  pub seq_table : ℕ → ℕ
  pub seq_length : ℕ
  pub seq_width : ℕ
  pub trigger_pin : ℕ
  pub edge : ℕ
  pub gate_enabled : Bool

-- `sync_io_enc_count_mode_config_t`
pub record EncModeConfig : Type 0 where
  pub target : ℕ
  pub in_pin_base : ℕ
  pub output_pin : ℕ

-- `sync_io_biss_tap_config_t`
pub record TapConfig : Type 0 where
  pub clk_pin : ℕ
  pub data_pin : ℕ
  pub frame_bits : ℕ
  pub sample_delay_cycles : ℕ
  pub sample_edge : ℕ

pub record Hardware (σ : Type 0) : Type 0 where
  pub fire_pulse_us : ℕ → σ → σ
  pub fire_pulse_out_us : ℕ → σ → σ
  pub fire_rj45_trigger_us : ℕ → σ → σ
  pub start_capture : ℕ → σ → σ
  pub stop_capture : σ → σ
  -- the register writes of `sync_io_start_clock` and `sync_io_stop_clock`
  pub run_clock : ℕ → σ → σ
  pub halt_clock : σ → σ
  pub seq_step_arm : SeqModeConfig → σ → σ × Bool
  pub seq_step_disarm : σ → σ
  pub seq_step_is_running : σ → Bool
  pub seq_step_get_index : σ → ℕ
  pub seq_step_get_rollover_count : σ → ℕ
  pub enc_count_arm : EncModeConfig → σ → σ × Bool
  pub enc_count_disarm : σ → σ
  pub enc_count_is_running : σ → Bool
  pub enc_count_get_count : σ → ℕ
  pub biss_tap_arm : TapConfig → σ → σ × Bool
  pub biss_tap_disarm : σ → σ
  pub biss_tap_is_running : σ → Bool
  pub biss_tap_rx_fifo_full : σ → Bool
  -- the words that reads of the receive FIFO give until it is empty, and what one read leaves
  pub biss_tap_frame_words : σ → List ℕ
  pub biss_tap_read_frame_word : σ → σ
  -- `osal_uptime_ms`
  pub uptime_ms : σ → ℕ
