-- ===== src/SyncIo/Modes.antt =====
-- The mode table of sync_io_mode.c with the entries of the three drivers (sync_io_mode_seq_step.c,
-- sync_io_mode_enc_count.c, sync_io_mode_biss_tap.c), and trigger_resource_map.c, which says what a
-- mode needs from the arbiter.
use hdrt.Prelude.{ℕ, ◌^◌, not, Option, none, some, bit_and, bit_or, ◌==◌, if◌then◌else◌}
use hdrt.ResourceArbiter.{pio0, pio1, pio2, dma, aux}
use hdrt.TriggerVector.Fields.{
  State, state_seq_configured, state_seq_armed, state_enc_configured, state_enc_armed,
  state_biss_configured, state_biss_armed,
}

-- `sync_io_mode_id_t`
pub data ModeId : Type 0 where
  mode_id_none mode_id_seq_step mode_id_enc_count : ModeId
  mode_id_biss_tap mode_id_aux_diff_trigger mode_id_self_cal : ModeId

-- `sync_io_mode_resource_t`
abbrev pub mode_main_input : ℕ
mode_main_input = 2 ^ 0

abbrev pub mode_main_output : ℕ
mode_main_output = 2 ^ 1

abbrev pub mode_aux_rx : ℕ
mode_aux_rx = 2 ^ 2

abbrev pub mode_aux_tx : ℕ
mode_aux_tx = 2 ^ 3

abbrev pub mode_pio_wave : ℕ
mode_pio_wave = 2 ^ 4

abbrev pub mode_pio_aux : ℕ
mode_pio_aux = 2 ^ 5

abbrev pub mode_dma : ℕ
mode_dma = 2 ^ 6

abbrev pub mode_irq : ℕ
mode_irq = 2 ^ 7

-- `SYNC_IO_MODE_HW_PIO0` to `_PIO2`
abbrev pub hw_pio0 : ℕ
hw_pio0 = 2 ^ 0

abbrev pub hw_pio1 : ℕ
hw_pio1 = 2 ^ 1

abbrev pub hw_pio2 : ℕ
hw_pio2 = 2 ^ 2

-- `sync_io_mode_hw_resources_t`, the two fields that the map reads
pub record ModeHw : Type 0 where
  pub pio_mask : ℕ
  pub dma_channel_mask : ℕ

-- `sync_io_mode_ops_t`: its data; its functions are the operations of `Hardware`
pub record ModeOps : Type 0 where
  pub resources : ℕ
  pub hw : ModeHw

pub seq_step_ops : ModeOps
seq_step_ops = record {
  resources =
      bit_or mode_main_input
        (bit_or mode_main_output (bit_or mode_pio_wave (bit_or mode_dma mode_irq)));
  hw = record { pio_mask = hw_pio1; dma_channel_mask = 2 ^ 0 };
}

pub enc_count_ops : ModeOps
enc_count_ops = record {
  resources =
      bit_or mode_main_input
        (bit_or mode_main_output (bit_or mode_pio_wave (bit_or mode_dma mode_irq)));
  hw = record { pio_mask = hw_pio1; dma_channel_mask = 2 ^ 1 };
}

pub biss_tap_ops : ModeOps
biss_tap_ops = record {
  resources = bit_or mode_aux_rx (bit_or mode_aux_tx mode_pio_aux);
  hw = record { pio_mask = hw_pio2; dma_channel_mask = 0 };
}

unfoldable pub get_ops : ModeId → Option ModeOps
unfolding seq_step_ops enc_count_ops biss_tap_ops
get_ops mode_id_seq_step = some seq_step_ops
get_ops mode_id_enc_count = some enc_count_ops
get_ops mode_id_biss_tap = some biss_tap_ops
get_ops _ = none

-- `if ((x & mask) != 0u) { resources |= resource; }`
unfoldable pub add_if : ℕ → ℕ → ℕ → ℕ → ℕ
add_if x mask resource resources =
    if not (bit_and x mask == 0) then bit_or resources resource else resources

unfoldable pub from_mode_resources : ℕ → ℕ
from_mode_resources r =
    add_if r (bit_or mode_aux_rx mode_aux_tx) aux
      (add_if r mode_dma dma (add_if r mode_pio_aux pio2 (add_if r mode_pio_wave pio1 0)))

unfoldable pub from_mode_hw : Option ModeHw → ℕ
from_mode_hw none = 0
from_mode_hw (some hw) =
    let pios =
      add_if hw.pio_mask hw_pio2 pio2
        (add_if hw.pio_mask hw_pio1 pio1 (add_if hw.pio_mask hw_pio0 pio0 0)) in
    if not (hw.dma_channel_mask == 0) then bit_or pios dma else pios

unfoldable pub for_mode : ModeId → ℕ
for_mode id = elim (get_ops id) [
  | some ops ↦ bit_or (from_mode_resources ops.resources) (from_mode_hw (some ops.hw))
  | none ↦ 0
]

unfoldable pub for_state : State → ℕ
for_state state_seq_configured = for_mode mode_id_seq_step
for_state state_seq_armed = for_mode mode_id_seq_step
for_state state_enc_configured = for_mode mode_id_enc_count
for_state state_enc_armed = for_mode mode_id_enc_count
for_state state_biss_configured = for_mode mode_id_biss_tap
for_state state_biss_armed = for_mode mode_id_biss_tap
for_state _ = 0
