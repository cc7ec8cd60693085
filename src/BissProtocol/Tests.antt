-- ===== src/BissProtocol/Tests.antt =====
-- The theorems about biss_protocol.c at concrete frames and profiles.
use hdrt.Prelude.{
  ℕ, zero, suc, ◌+◌, ◌-◌, ◌%◌, ◌^◌, ◌≤◌, ◌<◌, ◌≡◌, ◌≢◌, ◌↔◌, refl, true, some, arith,
}
use hdrt.Bits.{test_bit}
use hdrt.BissProtocol.Types.{
  Profile, range_fits, optional_bit_valid, check_position, check_anchor, check_crc, check_sampling,
  profile_validate, ok,
}
use hdrt.BissProtocol.Fields.{extract_bits_msb, extract_position, crossed_position}
use hdrt.BissProtocol.Crc.{crc6_compute_bits, crc_compute_bits}
use hdrt.BissProtocol.Crossing.{crossed_position_iff}
use hdrt.BissProtocol.Extract.{extract_field_bit}
use hdrt.BissProtocol.Validate.{IsUsable, profile_validate_iff, extract_position_field}
use hdrt.BissProtocol.Crc6.{crc6_is_crc}
use hdrt.BissProtocol.CrcErrors.{Flipped, crc_single_bit}

-- The profile that `trigger_fb_init` sets up.
abbrev default_profile : Profile
default_profile = record {
  frame_bits = 48;
  position_offset = 4;
  position_bits = 32;
  modulo = 2 ^ 32 - 1;
  anchor_offset = 0;
  anchor_bits = 2;
  anchor_mask = 3;
  anchor_value = 2;
  error_bit_offset = 36;
  warning_bit_offset = 37;
  status_gate_policy = 2;
  crc_offset = 38;
  crc_bits = 6;
  crc_cover_offset = 4;
  crc_cover_bits = 34;
  crc_polynomial = 3;
  crc_init = 0;
  crc_xor = 0;
  crc_invert = true;
  crc_gate_policy = 0;
  sample_edge = 1;
  sample_delay_cycles = 25;
  pio_cycles_per_bit = 250;
  timeout_us = 20;
}

default_accepted : profile_validate (some default_profile) ≡ ok
unfolding profile_validate check_position check_anchor check_crc check_sampling range_fits
    optional_bit_valid
default_accepted = refl

profile_validate_iff_example :
    (profile_validate (some default_profile) ≡ ok) ↔ IsUsable default_profile
profile_validate_iff_example = profile_validate_iff default_profile

extract_position_field_example :
    (extract_position 0x8123456789ab (some default_profile) < 2 ^ 32)
    × (test_bit (extract_position 0x8123456789ab (some default_profile)) (32 - 1 - 7)
        ≡ test_bit 0x8123456789ab (48 - 1 - (4 + 7)))
extract_position_field_example =
    extract_position_field default_profile 0x8123456789ab 7 default_accepted (omega arith)
      (omega arith)

extract_field_bit_example :
    (extract_bits_msb 0xabc 12 4 5 < 2 ^ 5)
    × (test_bit (extract_bits_msb 0xabc 12 4 5) (5 - 1 - 2) ≡ test_bit 0xabc (12 - 1 - (4 + 2)))
extract_field_bit_example =
    extract_field_bit 0xabc 12 4 5 2
      (record {
        word = omega arith;
        some_bits = omega arith;
        inside = omega arith;
        narrow = omega arith;
      })
      (omega arith)

-- From 350 past 0 to 20, on a circle of 360 positions.
crossed_position_iff_example :
    (crossed_position 350 20 5 360 ≡ true)
    ↔ ((k : ℕ) × (1 ≤ k) × (k ≤ (20 + 360 - 350) % 360) × ((350 + k) % 360 ≡ 5))
crossed_position_iff_example =
    crossed_position_iff 350 20 5 360 (omega arith) (omega arith) (omega arith)

crc6_is_crc_example :
    crc6_compute_bits 0x123456789 34 true ≡ crc_compute_bits 0x123456789 34 6 3 0 0 true
crc6_is_crc_example = crc6_is_crc 0x123456789 34 true (omega arith)

flipped : Flipped 5 7 1
unfolding test_bit
flipped = record { differ = λ e. ground (arith, e); agree = λ i ne. same i ne }
  where
    same : (i : ℕ) → i ≢ 1 → test_bit 5 i ≡ test_bit 7 i
    same zero ne = refl
    same (suc zero) ne = absurd (ne refl)
    same (suc (suc i)) ne = refl

crc_single_bit_example : crc_compute_bits 5 34 6 3 0 0 true ≢ crc_compute_bits 7 34 6 3 0 0 true
unfolding test_bit
crc_single_bit_example =
    crc_single_bit 5 7 1 34 6 3 0 0 true flipped (omega arith) (omega arith) (omega arith)
      (omega arith) refl
