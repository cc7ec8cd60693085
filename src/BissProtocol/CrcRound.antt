-- ===== src/BissProtocol/CrcRound.antt =====
-- One round of the CRC loop, digit by digit. With an odd polynomial a round forgets nothing.
use hdrt.Prelude.{
  ℕ, suc, ◌+◌, ◌-◌, ◌*◌, ◌/◌, ◌%◌, ◌^◌, ◌≤◌, ◌<◌, ◌≡◌, ◌≢◌, ◌∙◌, sym, ap, Bool, true, false, ◌&&◌,
  ltb, arith, bit_and, xor, inl, inr, Bool-cases, dec_lt, ℕ_discrete,
}
use hdrt.Bits.{
  test_bit, test_bit-bit_and, test_bit-bit_xor, bit_and-pow, test_bit_shift, test_bit_mask,
  test_bit_double, test_bit_mod, test_bit_high, bits_ext, lt_of_bits,
}
use hdrt.BissProtocol.Crc.{value_bit, crc_update}

pub value_bit_lem : (value shift : ℕ) → value_bit value shift ≡ test_bit value shift
unfolding value_bit
value_bit_lem value shift = bit_and-pow (value / 2 ^ shift) 0 ∙ digit value shift
  where
    digit : (value shift : ℕ) → test_bit (value / 2 ^ shift) 0 ≡ test_bit value shift
    digit value shift = test_bit_shift shift value 0 ∙ ap (test_bit value) (right shift)
      where
        right : (n : ℕ) → n + 0 ≡ n
        right n = omega arith

-- A CRC of `k + 1` bits, of at most 32.
module _ (k poly : ℕ) (narrow : k < 32) where
  abbrev pub round : ℕ → Bool → ℕ
  round = crc_update (2 ^ suc k - 1) (2 ^ k) poly

  abbrev pub feedback : ℕ → Bool → Bool
  feedback crc bit = xor bit (test_bit crc k)

  abbrev shifted : ℕ → ℕ
  shifted crc = bit_and (crc * 2 % 2 ^ 32) (2 ^ suc k - 1)

  shifted_digit :
      (crc i : ℕ) → test_bit (shifted crc) i ≡ (ltb i (suc k) && ltb 0 i && test_bit crc (i - 1))
  shifted_digit crc i =
      rw (test_bit-bit_and, test_bit_mod 32 (crc * 2) i, test_bit_double, test_bit_mask)
        (ground arith)

  round_digit :
      (crc : ℕ) (bit : Bool) (i : ℕ)
      → test_bit (round crc bit) i
        ≡ xor
            (ltb i (suc k) && ltb 0 i && test_bit crc (i - 1))
            (feedback crc bit && test_bit poly i)
  unfolding crc_update xor
  round_digit crc bit i = elim (Bool-cases (feedback crc bit)) [
    | inl back ↦
        rw (bit_and-pow crc k, back)
          (test_bit-bit_xor (shifted crc) poly i
            ∙ ap (λ b. xor b (test_bit poly i)) (shifted_digit crc i))
    | inr no_back ↦ rw (bit_and-pow crc k, no_back) (ground (arith, shifted_digit crc i))
  ]

  pub round-lt : (crc : ℕ) (bit : Bool) → poly < 2 ^ suc k → round crc bit < 2 ^ suc k
  unfolding xor
  round-lt crc bit small =
      lt_of_bits (suc k) (round crc bit) (λ i q. ground (arith, round_digit crc bit i, high i q))
    where
      high : (i : ℕ) → suc k ≤ i → test_bit poly i ≡ false
      high i q = test_bit_high (suc k) poly i small q

  module _ (odd : test_bit poly 0 ≡ true) where
    low_digit : (crc : ℕ) (bit : Bool) → test_bit (round crc bit) 0 ≡ feedback crc bit
    unfolding xor
    low_digit crc bit = ground (arith, round_digit crc bit 0)

    same_feedback :
        (c d : ℕ) (bit : Bool) → round c bit ≡ round d bit → feedback c bit ≡ feedback d bit
    same_feedback c d bit e =
        sym (low_digit c bit) ∙ ap (λ (t : ℕ). test_bit t 0) e ∙ low_digit d bit

    top_digit :
        (c d : ℕ) (bit : Bool) → feedback c bit ≡ feedback d bit → test_bit c k ≡ test_bit d k
    unfolding xor
    top_digit c d bit e = ground arith

    next_digit :
        (crc : ℕ) (bit : Bool) (i : ℕ)
        → i < k
        → test_bit (round crc bit) (suc i)
          ≡ xor (test_bit crc i) (feedback crc bit && test_bit poly (suc i))
    next_digit crc bit i lt = rw (round_digit crc bit (suc i), down i) (ground arith)
      where
        down : (i : ℕ) → suc i - 1 ≡ i
        down i = omega arith

    -- Rounds that agree on the bit and on the result agree on the CRC before.
    pub round_injective :
        (c d : ℕ) (bit : Bool) → c < 2 ^ suc k → d < 2 ^ suc k → round c bit ≡ round d bit → c ≡ d
    unfolding xor
    round_injective c d bit hc hd e = bits_ext c d (λ i. elim (dec_lt i k) [
      | yes below ↦ ground (
        arith,
        next_digit c bit i below,
        next_digit d bit i below,
        same_feedback c d bit e,
        ap (λ (t : ℕ). test_bit t (suc i)) e,
      )
      | no above ↦ elim (ℕ_discrete i k) [
        | yes top ↦ rw top (top_digit c d bit (same_feedback c d bit e))
        | no high ↦
            test_bit_high (suc k) c i hc (omega arith)
            ∙ sym (test_bit_high (suc k) d i hd (omega arith))
      ]
    ])

    -- Rounds on one CRC with two bits have two results.
    pub round_separates : (crc : ℕ) (a b : Bool) → a ≢ b → round crc a ≢ round crc b
    unfolding xor
    round_separates crc a b ne e =
        ground (arith, low_digit crc a, low_digit crc b, ap (λ (t : ℕ). test_bit t 0) e)
