-- ===== src/BissProtocol/Crc6.antt =====
-- The 6-bit CRC routine is the general one at its parameters.
use hdrt.Prelude.{
  ℕ, zero, suc, ◌%◌, ◌^◌, ◌≤◌, ◌<◌, ◌≡◌, ◌∙◌, ap, Bool, true, false, ◌&&◌, ltb, ◌==◌, if◌then◌else◌,
  arith, refl, bit_and, bit_xor, xor, ==_iff,
}
use hdrt.Bits.{complement}
use hdrt.BissProtocol.Crc.{
  value_bit, crc6_update, crc6_from, crc6_compute_bits, crc_update, crc_from, crc_mask,
  crc_compute_bits,
}

-- A test of every number below a bound.
check_below : ℕ → (ℕ → Bool) → Bool
check_below zero p = true
check_below (suc n) p = p n && check_below n p

checked : (p : ℕ → Bool) (n x : ℕ) → check_below n p ≡ true → x < n → p x ≡ true
unfolding check_below
checked p zero x h lt = absurd (omega arith)
checked p (suc n) x h lt = ground (arith, checked p n x)

-- One round of the two loops, for a CRC of six bits.
same_round : Bool → ℕ → Bool
same_round bit crc =
    (crc6_update crc bit == crc_update 63 32 3 crc bit) && ltb (crc6_update crc bit) 64

round_table : (bit : Bool) → check_below 64 (same_round bit) ≡ true
unfolding check_below same_round crc6_update crc_update xor
round_table true = refl
round_table false = refl

round_agrees :
    (crc : ℕ) (bit : Bool)
    → crc < 64
    → (crc6_update crc bit ≡ crc_update 63 32 3 crc bit) × (crc6_update crc bit < 64)
unfolding same_round
round_agrees crc bit h = ground (arith, checked (same_round bit) 64 crc (round_table bit) h)

loops_agree :
    (value bits crc : ℕ)
    → crc < 64
    → (crc6_from value bits crc ≡ crc_from 63 32 3 value bits crc) × (crc6_from value bits crc < 64)
unfolding crc6_from crc_from
loops_agree value zero crc h = (refl, h)
loops_agree value (suc shift) crc h =
    let (same, small) = round_agrees crc (value_bit value shift) h in
    let rest = loops_agree value shift (crc6_update crc (value_bit value shift)) small in
    (rest.0 ∙ ap (crc_from 63 32 3 value shift) same, rest.1)

-- What the two routines do after their loops.
same_end : Bool → ℕ → Bool
same_end invert crc =
    (if invert then bit_and (complement 32 crc) 0x3f % 2 ^ 8 else crc)
    == bit_and (if invert then bit_and (complement 32 (bit_xor crc 0)) 63 else bit_xor crc 0) 63

end_table : (invert : Bool) → check_below 64 (same_end invert) ≡ true
unfolding check_below same_end
end_table true = refl
end_table false = refl

ends_agree :
    (invert : Bool) (crc : ℕ)
    → crc < 64
    → (if invert then bit_and (complement 32 crc) 0x3f % 2 ^ 8 else crc)
      ≡ bit_and (if invert then bit_and (complement 32 (bit_xor crc 0)) 63 else bit_xor crc 0) 63
unfolding same_end
ends_agree invert crc h = (==_iff _ _).0 (checked (same_end invert) 64 crc (end_table invert) h)

-- For up to 64 bits `biss_crc6_compute_bits` returns what `biss_crc_compute_bits` does with the
-- polynomial 0x03, six bits, and nothing for the start and the final xor.
pub crc6_is_crc :
    (value bits : ℕ) (invert : Bool)
    → bits ≤ 64
    → (crc6_compute_bits value bits invert ≡ crc_compute_bits value bits 6 3 0 0 invert)
unfolding crc6_compute_bits crc_compute_bits crc_mask
crc6_is_crc value bits invert h =
    let l = loops_agree value bits 0 (omega arith) in
    rw (short, ← l.0) (ends_agree invert (crc6_from value bits 0) l.1)
  where
    short : ltb 64 bits ≡ false
    short = ground arith
