-- ===== src/BissProtocol/CrcErrors.antt =====
-- The CRC of biss_protocol.c catches every single-bit error.
use hdrt.Prelude.{
  ℕ, zero, suc, ◌-◌, ◌^◌, ◌≤◌, ◌<◌, ◌≡◌, ◌≢◌, ◌∙◌, sym, ap, Bool, true, false, ◌&&◌, ◌||◌, ltb,
  ◌==◌, if◌then◌else◌, arith, refl, bit_and, bit_xor, xor, inl, inr, Bool-cases, ==_iff, dec_lt,
  ℕ_discrete,
}
use hdrt.Bits.{
  test_bit, test_bit-bit_and, test_bit-bit_xor, test_bit-complement, test_bit_mask, test_bit_high,
  bits_ext, lt_of_bits, complement,
}
use hdrt.BissProtocol.Crc.{value_bit, crc_from, crc_mask, crc_compute_bits}
use hdrt.BissProtocol.CrcRound.{value_bit_lem, round, round-lt, round_injective, round_separates}

-- Two words that differ in digit `e` and in no other.
pub record Flipped (v w e : ℕ) : Type 0 where
  pub differ : test_bit v e ≢ test_bit w e
  pub agree : (i : ℕ) → i ≢ e → test_bit v i ≡ test_bit w i

bit_agrees : (v w s : ℕ) → test_bit v s ≡ test_bit w s → value_bit w s ≡ value_bit v s
bit_agrees v w s e = value_bit_lem w s ∙ sym e ∙ sym (value_bit_lem v s)

bit_differs : (v w s : ℕ) → test_bit v s ≢ test_bit w s → value_bit v s ≢ value_bit w s
bit_differs v w s ne e = ne (sym (value_bit_lem v s) ∙ e ∙ value_bit_lem w s)

module _ (k poly : ℕ) (narrow : k < 32) (small : poly < 2 ^ suc k)
    (odd : test_bit poly 0 ≡ true) where
  abbrev loop : ℕ → ℕ → ℕ → ℕ
  loop = crc_from (2 ^ suc k - 1) (2 ^ k) poly

  -- The same bits after two different CRCs leave two different CRCs.
  loop_injective :
      (v w n c d : ℕ)
      → c < 2 ^ suc k
      → d < 2 ^ suc k
      → ((i : ℕ) → i < n → test_bit v i ≡ test_bit w i)
      → loop v n c ≡ loop w n d
      → c ≡ d
  unfolding crc_from
  loop_injective v w zero c d hc hd same e = e
  loop_injective v w (suc s) c d hc hd same e =
      round_injective k poly narrow odd c d (value_bit v s) hc hd (
        loop_injective v w s (round k poly narrow c (value_bit v s))
          (round k poly narrow d (value_bit v s)) (round-lt k poly narrow c (value_bit v s) small)
          (round-lt k poly narrow d (value_bit v s) small) (λ i lt. same i (omega arith))
          (e
            ∙ ap (λ b. loop w s (round k poly narrow d b))
                (bit_agrees v w s (same s (omega arith)))))

  loop_separates : (v w e n c : ℕ) → Flipped v w e → e < n → c < 2 ^ suc k → loop v n c ≢ loop w n c
  unfolding crc_from
  loop_separates v w e zero c f lt hc same = absurd (omega arith)
  loop_separates v w e (suc s) c f lt hc same = elim (ℕ_discrete e s) [
    | yes here ↦
        round_separates k poly narrow odd c (value_bit v s) (value_bit w s)
          (bit_differs v w s (rw (← here) f.differ))
          (loop_injective v w s (round k poly narrow c (value_bit v s))
            (round k poly narrow c (value_bit w s)) (round-lt k poly narrow c (value_bit v s) small)
            (round-lt k poly narrow c (value_bit w s) small) (λ i below. f.agree i (omega arith))
            same)
    | no before ↦
        loop_separates v w e s (round k poly narrow c (value_bit v s)) f (omega arith)
          (round-lt k poly narrow c (value_bit v s) small)
          (same
            ∙ ap (λ b. loop w s (round k poly narrow c b))
                (bit_agrees v w s (f.agree s (omega arith))))
  ]

  loop-lt : (v n c : ℕ) → c < 2 ^ suc k → loop v n c < 2 ^ suc k
  unfolding crc_from
  loop-lt v zero c h = h
  loop-lt v (suc s) c h =
      loop-lt v s (round k poly narrow c (value_bit v s))
        (round-lt k poly narrow c (value_bit v s) small)

-- What follows the loop: the final xor and the inversion.
abbrev finish : ℕ → ℕ → Bool → ℕ → ℕ
finish mask xor_value invert crc =
    bit_and
      (if invert
        then bit_and (complement 32 (bit_xor crc (bit_and xor_value mask))) mask
        else bit_xor crc (bit_and xor_value mask))
      mask

module _ (k xor_value : ℕ) (narrow : k < 32) where
  abbrev crossed : ℕ → ℕ
  crossed crc = bit_xor crc (bit_and xor_value (2 ^ suc k - 1))

  crossed_digit :
      (crc i : ℕ)
      → test_bit (crossed crc) i ≡ xor (test_bit crc i) (test_bit xor_value i && ltb i (suc k))
  crossed_digit crc i =
      test_bit-bit_xor crc (bit_and xor_value (2 ^ suc k - 1)) i
      ∙ ap (xor (test_bit crc i)) (
          test_bit-bit_and xor_value (2 ^ suc k - 1) i
          ∙ ap (λ b. test_bit xor_value i && b) (test_bit_mask (suc k) i))

  crossed-lt : (crc : ℕ) → crc < 2 ^ suc k → crossed crc < 2 ^ 32
  unfolding xor
  crossed-lt crc h =
      lt_of_bits 32 (crossed crc)
        (λ i q. ground (arith, crossed_digit crc i, test_bit_high (suc k) crc i h (omega arith)))

  finish_digit :
      (invert : Bool) (crc i : ℕ)
      → crc < 2 ^ suc k
      → i < suc k
      → test_bit (finish (2 ^ suc k - 1) xor_value invert crc) i
        ≡ xor (xor (test_bit crc i) (test_bit xor_value i)) invert
  unfolding xor
  finish_digit true crc i h lt =
      rw
        (
          test_bit-bit_and,
          test_bit-bit_and,
          test_bit_mask,
          test_bit-complement 32 (crossed crc) i (crossed-lt crc h),
        )
        (ground (arith, crossed_digit crc i))
  finish_digit false crc i h lt =
      rw (test_bit-bit_and, test_bit_mask) (ground (arith, crossed_digit crc i))

  finish_injective :
      (invert : Bool) (c d : ℕ)
      → c < 2 ^ suc k
      → d < 2 ^ suc k
      → finish (2 ^ suc k - 1) xor_value invert c ≡ finish (2 ^ suc k - 1) xor_value invert d
      → c ≡ d
  unfolding xor
  finish_injective invert c d hc hd e = bits_ext c d (λ i. elim (dec_lt i (suc k)) [
    | yes low ↦ ground (
      arith,
      finish_digit invert c i hc low,
      finish_digit invert d i hd low,
      ap (λ (t : ℕ). test_bit t i) e,
    )
    | no high ↦
        test_bit_high (suc k) c i hc (omega arith)
        ∙ sym (test_bit_high (suc k) d i hd (omega arith))
  ])

masked-lt : (x k : ℕ) → bit_and x (2 ^ suc k - 1) < 2 ^ suc k
masked-lt x k =
    lt_of_bits (suc k) (bit_and x (2 ^ suc k - 1))
      (λ i q. ground (arith, test_bit-bit_and x (2 ^ suc k - 1) i, test_bit_mask (suc k) i))

mask_of : (crc_bits : ℕ) → crc_bits ≤ 32 → crc_mask crc_bits ≡ 2 ^ crc_bits - 1
unfolding crc_mask
mask_of crc_bits h = elim (Bool-cases (crc_bits == 32)) [
  | inl all ↦ rw (all, (==_iff crc_bits 32).0 all) refl
  | inr some_bits ↦ rw some_bits refl
]

last : (k : ℕ) → suc k - 1 ≡ k
last k = omega arith

runs_guard :
    (bits crc_bits : ℕ)
    → 1 ≤ crc_bits
    → crc_bits ≤ 32
    → bits ≤ 64
    → (crc_bits == 0 || ltb 32 crc_bits || ltb 64 bits) ≡ false
runs_guard bits crc_bits lo hi short = ground (arith)

separated :
    (v w e bits k polynomial init xor_value : ℕ) (invert : Bool)
    → Flipped v w e
    → e < bits
    → k < 32
    → test_bit polynomial 0 ≡ true
    → finish (2 ^ suc k - 1) xor_value invert (
        crc_from
          (2 ^ suc k - 1)
          (2 ^ k)
          (bit_and polynomial (2 ^ suc k - 1))
          v
          bits
          (bit_and init (2 ^ suc k - 1)))
      ≢ finish (2 ^ suc k - 1) xor_value invert (
          crc_from
            (2 ^ suc k - 1)
            (2 ^ k)
            (bit_and polynomial (2 ^ suc k - 1))
            w
            bits
            (bit_and init (2 ^ suc k - 1)))
separated v w e bits k polynomial init xor_value invert f lt narrow odd same =
    let small = masked-lt polynomial k in
    let low =
      test_bit-bit_and polynomial (2 ^ suc k - 1) 0
      ∙ ap (λ b. test_bit polynomial 0 && b) (test_bit_mask (suc k) 0) in
    let start = masked-lt init k in
    loop_separates k (bit_and polynomial (2 ^ suc k - 1)) narrow small (ground (arith, low)) v w e
      bits (bit_and init (2 ^ suc k - 1)) f lt start
      (finish_injective k xor_value narrow invert
        (loop k (bit_and polynomial (2 ^ suc k - 1)) narrow small (ground (arith, low)) v bits
          (bit_and init (2 ^ suc k - 1)))
        (loop k (bit_and polynomial (2 ^ suc k - 1)) narrow small (ground (arith, low)) w bits
          (bit_and init (2 ^ suc k - 1)))
        (loop-lt k (bit_and polynomial (2 ^ suc k - 1)) narrow small (ground (arith, low)) v bits
          (bit_and init (2 ^ suc k - 1)) start)
        (loop-lt k (bit_and polynomial (2 ^ suc k - 1)) narrow small (ground (arith, low)) w bits
          (bit_and init (2 ^ suc k - 1)) start)
        same)

-- Two values that differ in exactly one of the bits that a CRC covers have different CRCs, if the
-- polynomial is odd; whatever the width (1 to 32), the start, the final xor and the inversion.
pub crc_single_bit :
    (v w e bits crc_bits polynomial init xor_value : ℕ) (invert : Bool)
    → Flipped v w e
    → e < bits
    → bits ≤ 64
    → 1 ≤ crc_bits
    → crc_bits ≤ 32
    → test_bit polynomial 0 ≡ true
    → crc_compute_bits v bits crc_bits polynomial init xor_value invert
      ≢ crc_compute_bits w bits crc_bits polynomial init xor_value invert
unfolding crc_compute_bits
crc_single_bit v w e bits zero polynomial init xor_value invert f lt short lo hi odd =
    absurd (omega arith)
crc_single_bit v w e bits (suc k) polynomial init xor_value invert f lt short lo hi odd =
    rw (runs_guard bits (suc k) lo hi short, mask_of (suc k) hi, last k)
      (λ same. separated v w e bits k polynomial init xor_value invert f lt hi odd same)
