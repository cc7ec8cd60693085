-- ===== src/BissProtocol/Types.antt =====
-- components/sync_trigger/inc/biss_protocol.h, and the check of a profile.
use hdrt.Prelude.{
  ℕ, ◌-◌, ◌^◌, Bool, false, ◌&&◌, ◌||◌, not, Option, none, some, ltb, leb, ◌==◌, if◌then◌else◌,
}

-- `BISS_PROFILE_DISABLED_OFFSET`, which is UINT32_MAX
abbrev pub disabled_offset : ℕ
disabled_offset = 2 ^ 32 - 1

abbrev pub max_frame_bits : ℕ
max_frame_bits = 64

abbrev pub max_position_bits : ℕ
max_position_bits = 32

abbrev pub max_crc_bits : ℕ
max_crc_bits = 16

-- `biss_sample_edge_t`
abbrev pub edge_rising : ℕ
edge_rising = 0

abbrev pub edge_falling : ℕ
edge_falling = 1

-- `biss_status_gate_policy_t`
abbrev pub status_ignore : ℕ
status_ignore = 0

abbrev pub status_count_only : ℕ
status_count_only = 1

abbrev pub status_block_trigger : ℕ
status_block_trigger = 2

-- `biss_crc_gate_policy_t`
abbrev pub crc_late_count : ℕ
crc_late_count = 0

abbrev pub crc_block_trigger : ℕ
crc_block_trigger = 1

-- `biss_profile_status_t`
pub data ProfileStatus : Type 0 where
  ok err_null err_frame_bits err_position_bits err_position_range err_modulo : ProfileStatus
  err_anchor_range err_status_range err_crc_range err_crc_cover_range : ProfileStatus
  err_sample_edge err_sample_delay err_timeout err_policy : ProfileStatus

pub record Profile : Type 0 where
  pub frame_bits : ℕ
  pub position_offset : ℕ
  pub position_bits : ℕ
  pub modulo : ℕ
  pub anchor_offset : ℕ
  pub anchor_bits : ℕ
  pub anchor_mask : ℕ
  pub anchor_value : ℕ
  pub error_bit_offset : ℕ
  pub warning_bit_offset : ℕ
  pub status_gate_policy : ℕ
  pub crc_offset : ℕ
  pub crc_bits : ℕ
  pub crc_cover_offset : ℕ
  pub crc_cover_bits : ℕ
  pub crc_polynomial : ℕ
  pub crc_init : ℕ
  pub crc_xor : ℕ
  pub crc_invert : Bool
  pub crc_gate_policy : ℕ
  pub sample_edge : ℕ
  pub sample_delay_cycles : ℕ
  pub pio_cycles_per_bit : ℕ
  pub timeout_us : ℕ

pub record StatusBits : Type 0 where
  pub error_active : Bool
  pub warning_active : Bool

unfoldable pub range_fits : ℕ → ℕ → ℕ → Bool
range_fits offset bits frame_bits =
    if bits == 0 || leb frame_bits offset then false else leb bits (frame_bits - offset)

unfoldable pub optional_bit_valid : ℕ → ℕ → Bool
optional_bit_valid offset frame_bits = offset == disabled_offset || ltb offset frame_bits

-- `biss_profile_validate` in three parts, each the guards of the source in their order. A part is
-- given what the later parts say.
unfoldable pub check_position : Profile → ProfileStatus → ProfileStatus
check_position p next =
    if p.frame_bits == 0 || ltb max_frame_bits p.frame_bits
    then err_frame_bits
    else if p.position_bits == 0 || ltb max_position_bits p.position_bits
    then err_position_bits
    else if not (range_fits p.position_offset p.position_bits p.frame_bits)
    then err_position_range
    else if p.modulo == 0
    then err_modulo
    else next

unfoldable pub check_anchor : Profile → ProfileStatus → ProfileStatus
check_anchor p next =
    if ltb 0 p.anchor_bits
      && (ltb 64 p.anchor_bits || not (range_fits p.anchor_offset p.anchor_bits p.frame_bits))
    then err_anchor_range
    else if not (optional_bit_valid p.error_bit_offset p.frame_bits)
        || not (optional_bit_valid p.warning_bit_offset p.frame_bits)
    then err_status_range
    else next

unfoldable pub check_crc : Profile → ProfileStatus → ProfileStatus
check_crc p next =
    if ltb max_crc_bits p.crc_bits
    then err_crc_range
    else if p.crc_bits == 0 && ltb 0 p.crc_cover_bits
    then err_crc_range
    else if ltb 0 p.crc_bits && not (range_fits p.crc_offset p.crc_bits p.frame_bits)
    then err_crc_range
    else if ltb 0 p.crc_cover_bits
        && not (range_fits p.crc_cover_offset p.crc_cover_bits p.frame_bits)
    then err_crc_cover_range
    else next

unfoldable pub check_sampling : Profile → ProfileStatus
check_sampling p =
    if not (p.sample_edge == edge_rising) && not (p.sample_edge == edge_falling)
    then err_sample_edge
    else if p.pio_cycles_per_bit == 0 || leb p.pio_cycles_per_bit p.sample_delay_cycles
    then err_sample_delay
    else if p.timeout_us == 0
    then err_timeout
    else if ltb status_block_trigger p.status_gate_policy || ltb crc_block_trigger p.crc_gate_policy
    then err_policy
    else ok

unfoldable pub profile_validate : Option Profile → ProfileStatus
profile_validate none = err_null
profile_validate (some p) = check_position p (check_anchor p (check_crc p (check_sampling p)))
