-- ===== src/BissProtocol/Fields.antt =====
-- The fields of a frame: position, anchor, status bits, and the crossing of a target position.
use hdrt.Prelude.{
  ℕ, ◌-◌, ◌/◌, ◌%◌, ◌^◌, Bool, true, false, ◌&&◌, ◌||◌, not, Option, none, some, ltb, leb, ◌==◌,
  if◌then◌else◌, bit_and,
}
use hdrt.BissProtocol.Types.{disabled_offset, status_block_trigger, Profile, StatusBits}

-- Bits are counted from the most significant bit of the frame.
unfoldable pub extract_bits_msb : ℕ → ℕ → ℕ → ℕ → ℕ
extract_bits_msb frame frame_bits offset bits =
    if frame_bits == 0
      || ltb 64 frame_bits
      || bits == 0
      || ltb 64 bits
      || leb frame_bits offset
      || ltb (frame_bits - offset) bits
    then 0
    else if bits == 64
    then frame
    else bit_and (frame / 2 ^ (frame_bits - offset - bits)) (2 ^ bits - 1)

unfoldable pub anchor_matches : ℕ → Option Profile → Bool
anchor_matches frame none = true
anchor_matches frame (some p) =
    if p.anchor_bits == 0
    then true
    else (let actual = extract_bits_msb frame p.frame_bits p.anchor_offset p.anchor_bits in
        bit_and actual p.anchor_mask == bit_and p.anchor_value p.anchor_mask)

-- The cast of the 64-bit field to `uint32_t` is written out.
unfoldable pub extract_position : ℕ → Option Profile → ℕ
extract_position frame none = 0
extract_position frame (some p) =
    extract_bits_msb frame p.frame_bits p.position_offset p.position_bits % 2 ^ 32

-- A status bit is active low, and counts as inactive where the profile disables it.
unfoldable pub status_bit : ℕ → Profile → ℕ → Bool
status_bit frame p offset =
    if not (offset == disabled_offset)
    then extract_bits_msb frame p.frame_bits offset 1 == 0
    else false

unfoldable pub extract_status : ℕ → Option Profile → StatusBits
extract_status frame none = record { error_active = false; warning_active = false }
extract_status frame (some p) = record {
  error_active = status_bit frame p p.error_bit_offset;
  warning_active = status_bit frame p p.warning_bit_offset;
}

unfoldable pub status_gate_allows : StatusBits → ℕ → Bool
status_gate_allows status policy =
    if not (policy == status_block_trigger)
    then true
    else not status.error_active && not status.warning_active

unfoldable pub crossed_position : ℕ → ℕ → ℕ → ℕ → Bool
crossed_position last current target modulo =
    if modulo == 0 || leb modulo target || leb modulo last || leb modulo current || last == current
    then false
    else if ltb last current
    then ltb last target && leb target current
    else ltb last target || leb target current
