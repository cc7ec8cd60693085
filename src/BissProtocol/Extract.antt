-- ===== src/BissProtocol/Extract.antt =====
-- What `biss_extract_bits_msb` takes out of a frame.
use hdrt.Prelude.{
  ℕ, ◌+◌, ◌-◌, ◌/◌, ◌^◌, ◌≤◌, ◌<◌, ◌≡◌, true, false, ◌&&◌, ltb, ◌==◌, arith, bit_and, inl, inr,
  Bool-cases,
}
use hdrt.Bits.{test_bit, test_bit-bit_and, test_bit_shift, test_bit_mask, test_bit_high, lt_of_bits}
use hdrt.BissProtocol.Fields.{extract_bits_msb}

module _ (frame frame_bits offset bits : ℕ) where
  -- The field lies in the frame, and the frame in a 64-bit word.
  pub record InFrame : Type 0 where
    pub word : frame < 2 ^ 64
    pub some_bits : 1 ≤ bits
    pub inside : offset + bits ≤ frame_bits
    pub narrow : frame_bits ≤ 64

  extract_whole :
      InFrame → (bits == 64) ≡ true → extract_bits_msb frame frame_bits offset bits ≡ frame
  unfolding extract_bits_msb
  extract_whole h whole = ground arith

  extract_part :
      InFrame
      → (bits == 64) ≡ false
      → extract_bits_msb frame frame_bits offset bits
        ≡ bit_and (frame / 2 ^ (frame_bits - offset - bits)) (2 ^ bits - 1)
  unfolding extract_bits_msb
  extract_part h part = ground arith

  pub extract_digits :
      (i : ℕ)
      → InFrame
      → test_bit (extract_bits_msb frame frame_bits offset bits) i
        ≡ (ltb i bits && test_bit frame (frame_bits - offset - bits + i))
  extract_digits i h = elim (Bool-cases (bits == 64)) [
    | inl whole ↦
        rw (extract_whole h whole, at_zero h whole)
          (ground (arith, test_bit_high 64 frame i h.word))
    | inr part ↦
        rw (extract_part h part, test_bit-bit_and, test_bit_shift, test_bit_mask) (ground arith)
  ]
    where
      at_zero : InFrame → (bits == 64) ≡ true → frame_bits - offset - bits + i ≡ i
      at_zero h whole = ground arith

  -- The field of a frame: it has no more digits than the field has bits, and bit `k` of it, counted
  -- from its most significant bit, is bit `offset + k` of the frame, counted from the frame's.
  pub extract_field :
      InFrame
      → (extract_bits_msb frame frame_bits offset bits < 2 ^ bits)
        × ((k : ℕ)
            → k < bits
            → test_bit (extract_bits_msb frame frame_bits offset bits) (bits - 1 - k)
              ≡ test_bit frame (frame_bits - 1 - (offset + k)))
  extract_field h = (
    lt_of_bits bits _ (λ i q. ground (arith, extract_digits i h)),
    λ k lt. rw (extract_digits (bits - 1 - k) h, place h k lt) (ground arith),
  )
    where
      place :
          InFrame
          → (k : ℕ) → k < bits
          → frame_bits - offset - bits + (bits - 1 - k) ≡ frame_bits - 1 - (offset + k)
      place h k lt = omega arith

-- A field of `bits` bits at `offset` is what `biss_extract_bits_msb` says it is: it is below
-- `2 ^ bits`, and its bit `k`, counted from its most significant bit, is bit `offset + k` of the
-- frame, counted from the frame's. The field lies in the frame, and the frame in a 64-bit word.
pub extract_field_bit :
    (frame frame_bits offset bits k : ℕ)
    → InFrame frame frame_bits offset bits
    → k < bits
    → (extract_bits_msb frame frame_bits offset bits < 2 ^ bits)
      × (test_bit (extract_bits_msb frame frame_bits offset bits) (bits - 1 - k)
          ≡ test_bit frame (frame_bits - 1 - (offset + k)))
extract_field_bit frame frame_bits offset bits k h lt =
    let r = extract_field frame frame_bits offset bits h in (r.0, r.1 k lt)
