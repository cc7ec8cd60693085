-- ===== src/BissProtocol/Crc.antt =====
-- The two CRC routines of biss_protocol.c: the fixed 6-bit one and the one that a profile sets up.
-- Their loops go down with the shift, `bits - 1 - i`, which is one less than the rounds left.
use hdrt.Prelude.{
  ℕ, zero, suc, ◌-◌, ◌*◌, ◌/◌, ◌%◌, ◌^◌, Bool, true, ◌||◌, not, xor, Option, none, some, ltb, ◌==◌,
  if◌then◌else◌, bit_and, bit_xor,
}
use hdrt.Bits.{complement}
use hdrt.BissProtocol.Types.{Profile}
use hdrt.BissProtocol.Fields.{extract_bits_msb}

-- `((value >> shift) & 1ull) != 0u`
unfoldable pub value_bit : ℕ → ℕ → Bool
value_bit value shift = not (bit_and (value / 2 ^ shift) 1 == 0)

unfoldable pub crc6_update : ℕ → Bool → ℕ
crc6_update crc bit =
    let inv = xor bit (not (bit_and crc 0x20 == 0)) in
    let next = bit_and (crc * 2) 0x3e % 2 ^ 8 in
    bit_and (if inv then bit_xor next 0x03 else next) 0x3f % 2 ^ 8

unfoldable pub crc6_from : ℕ → ℕ → ℕ → ℕ
crc6_from value zero crc = crc
crc6_from value (suc shift) crc = crc6_from value shift (crc6_update crc (value_bit value shift))

unfoldable pub crc6_compute_bits : ℕ → ℕ → Bool → ℕ
crc6_compute_bits value bits invert =
    let crc = crc6_from value bits 0 in
    if invert then bit_and (complement 32 crc) 0x3f % 2 ^ 8 else crc

-- One round of the loop of `biss_crc_compute_bits`.
unfoldable pub crc_update : ℕ → ℕ → ℕ → ℕ → Bool → ℕ
crc_update mask top_bit poly crc bit =
    let feedback = xor bit (not (bit_and crc top_bit == 0)) in
    let shifted = bit_and (crc * 2 % 2 ^ 32) mask in
    if feedback then bit_xor shifted poly else shifted

unfoldable pub crc_from : ℕ → ℕ → ℕ → ℕ → ℕ → ℕ → ℕ
crc_from mask top_bit poly value zero crc = crc
crc_from mask top_bit poly value (suc shift) crc =
    crc_from mask top_bit poly value shift
      (crc_update mask top_bit poly crc (value_bit value shift))

unfoldable pub crc_mask : ℕ → ℕ
crc_mask crc_bits = if crc_bits == 32 then 2 ^ 32 - 1 else 2 ^ crc_bits - 1

unfoldable pub crc_compute_bits : ℕ → ℕ → ℕ → ℕ → ℕ → ℕ → Bool → ℕ
crc_compute_bits value bits crc_bits polynomial init xor_value invert =
    if crc_bits == 0 || ltb 32 crc_bits || ltb 64 bits
    then 0
    else (let mask = crc_mask crc_bits in
        let crc =
          crc_from mask (2 ^ (crc_bits - 1)) (bit_and polynomial mask) value bits
            (bit_and init mask) in
        let crossed = bit_xor crc (bit_and xor_value mask) in
        bit_and (if invert then bit_and (complement 32 crossed) mask else crossed) mask)

unfoldable pub crc_compute_frame : ℕ → Option Profile → ℕ
crc_compute_frame frame none = 0
crc_compute_frame frame (some p) =
    if p.crc_bits == 0 || p.crc_cover_bits == 0
    then 0
    else crc_compute_bits (extract_bits_msb frame p.frame_bits p.crc_cover_offset p.crc_cover_bits)
        p.crc_cover_bits p.crc_bits p.crc_polynomial p.crc_init p.crc_xor p.crc_invert

unfoldable pub crc_matches : ℕ → Option Profile → Bool
crc_matches frame none = true
crc_matches frame (some p) =
    if p.crc_bits == 0
    then true
    else crc_compute_frame frame (some p)
      == extract_bits_msb frame p.frame_bits p.crc_offset p.crc_bits % 2 ^ 32
