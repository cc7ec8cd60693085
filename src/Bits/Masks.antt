-- ===== src/Bits/Masks.antt =====
-- Single bits, complements and bounds: `1u << k`, `~x`, and which words are equal.
use native.Mathlib.Nat.{
  pow-suc, one-le-pow, pow-le-pow_right, div-div-eq-div-mul, div-add-mod', mod-lt,
}
use hdrt.Prelude.{
  ℕ, zero, suc, ◌+◌, ◌-◌, ◌*◌, ◌/◌, ◌%◌, ◌^◌, ◌≤◌, ◌<◌, bit_and, bit_or, bit_xor, ◌≡◌, refl, true,
  false, ◌&&◌, not, xor, arith, ◌==◌, ltb, sym, ap, ◌∙◌, ◌↔◌, inl, inr, Bool-cases, ==_iff, dec_lt,
}
use hdrt.Bits.Digits.{test_bit, test_bit-bit_and, test_bit-bit_or, test_bit-bit_xor}

-- `~x` of a word of `w` bits.
abbrev pub complement : ℕ → ℕ → ℕ
complement w x = 2 ^ w - 1 - x

double : (w : ℕ) → (2 ^ suc w ≡ 2 * 2 ^ w) × (1 ≤ 2 ^ w)
double w = (omega (arith, pow-suc 2 w), one-le-pow w 2 (omega arith))

pub pow-lt : (k w : ℕ) → k < w → 2 ^ k < 2 ^ w
pow-lt k w h = omega (arith, double k, pow-le-pow_right {n = 2} (omega arith) {i = suc k} {j = w} h)

pub test_bit-zero : (i : ℕ) → test_bit 0 i ≡ false
unfolding test_bit
test_bit-zero zero = refl
test_bit-zero (suc i) = test_bit-zero i

pub test_bit-pow : (k i : ℕ) → test_bit (2 ^ k) i ≡ (k == i)
unfolding test_bit
test_bit-pow zero zero = refl
test_bit-pow zero (suc i) = ground (arith, test_bit-zero i)
test_bit-pow (suc k) zero = ground (arith, double k)
test_bit-pow (suc k) (suc i) = rw (half k) (ground (arith, test_bit-pow k i))
  where
    half : (k : ℕ) → 2 ^ suc k / 2 ≡ 2 ^ k
    half k = omega (arith, double k)

pub test_bit-complement :
    (w x i : ℕ) → x < 2 ^ w → test_bit (complement w x) i ≡ (ltb i w && not (test_bit x i))
unfolding test_bit
test_bit-complement zero x i h = rw (none x h) (ground (arith, test_bit-zero i))
  where
    none : (x : ℕ) → x < 2 ^ 0 → 2 ^ 0 - 1 - x ≡ 0
    none x h = omega arith
test_bit-complement (suc w) x zero h = ground (arith, double w)
test_bit-complement (suc w) x (suc i) h =
    rw (half w x h) (ground (arith, double w, test_bit-complement w (x / 2) i))
  where
    half : (w x : ℕ) → x < 2 ^ suc w → complement (suc w) x / 2 ≡ complement w (x / 2)
    half w x h = omega (arith, double w)

pub test_bit_high : (w x i : ℕ) → x < 2 ^ w → w ≤ i → test_bit x i ≡ false
unfolding test_bit
test_bit_high zero x i h q = rw (none x h) (test_bit-zero i)
  where
    none : (x : ℕ) → x < 2 ^ 0 → x ≡ 0
    none x h = omega arith
test_bit_high (suc w) x zero h q = absurd (omega arith)
test_bit_high (suc w) x (suc i) h q =
    test_bit_high w (x / 2) i (omega (arith, double w)) (omega arith)

-- Two words with the same digits are equal.
bits_ext_below : (n a b : ℕ) → a ≤ n → b ≤ n → ((i : ℕ) → test_bit a i ≡ test_bit b i) → a ≡ b
unfolding test_bit
bits_ext_below zero a b p q h = omega arith
bits_ext_below (suc n) a b p q h =
    ground
      (arith, h 0, bits_ext_below n (a / 2) (b / 2) (omega arith) (omega arith) (λ i. h (suc i)))

pub bits_ext : (a b : ℕ) → ((i : ℕ) → test_bit a i ≡ test_bit b i) → a ≡ b
bits_ext a b h = bits_ext_below (a + b) a b (omega arith) (omega arith) h

-- A word whose digits from `w` on are 0 fits `w` bits.
pub lt_of_bits : (w x : ℕ) → ((i : ℕ) → w ≤ i → test_bit x i ≡ false) → x < 2 ^ w
unfolding test_bit
lt_of_bits zero x h = omega (arith, bits_ext x 0 (λ i. h i (omega arith) ∙ sym (test_bit-zero i)))
lt_of_bits (suc w) x h =
    omega (arith, double w, lt_of_bits w (x / 2) (λ i q. h (suc i) (omega arith)))

pub bit_and-lt : (w a b : ℕ) → a < 2 ^ w → bit_and a b < 2 ^ w
bit_and-lt w a b h =
    lt_of_bits w (bit_and a b) (λ i q. rw (test_bit-bit_and, test_bit_high w a i h q) refl)

pub bit_or-lt : (w a b : ℕ) → a < 2 ^ w → b < 2 ^ w → bit_or a b < 2 ^ w
bit_or-lt w a b h k =
    lt_of_bits w (bit_or a b)
      (λ i q. rw (test_bit-bit_or, test_bit_high w a i h q, test_bit_high w b i k q) refl)

pub bit_xor-lt : (w a b : ℕ) → a < 2 ^ w → b < 2 ^ w → bit_xor a b < 2 ^ w
unfolding xor
bit_xor-lt w a b h k =
    lt_of_bits w (bit_xor a b)
      (λ i q. rw (test_bit-bit_xor, test_bit_high w a i h q, test_bit_high w b i k q) refl)

one_digit : (x k i : ℕ) → test_bit (bit_and x (2 ^ k)) i ≡ (test_bit x k && (k == i))
one_digit x k i = rw (test_bit-bit_and, test_bit-pow) (ground arith)

-- `x & (1u << k)` is not 0 just where digit `k` of `x` is 1.
pub bit_and-pow : (x k : ℕ) → not (bit_and x (2 ^ k) == 0) ≡ test_bit x k
bit_and-pow x k = elim (Bool-cases (test_bit x k)) [
  | inl set ↦ ground (arith, double k, bits_ext (bit_and x (2 ^ k)) (2 ^ k) (same set))
  | inr clear ↦ ground (arith, bits_ext (bit_and x (2 ^ k)) 0 (zeros clear))
]
  where
    same : test_bit x k ≡ true → (i : ℕ) → test_bit (bit_and x (2 ^ k)) i ≡ test_bit (2 ^ k) i
    same e i = ground (arith, one_digit x k i, test_bit-pow k i)

    zeros : test_bit x k ≡ false → (i : ℕ) → test_bit (bit_and x (2 ^ k)) i ≡ test_bit 0 i
    zeros e i = ground (arith, one_digit x k i, test_bit-zero i)

-- `(a & b) == 0` just where no digit is 1 in both.
pub disjoint_iff :
    (a b : ℕ) → ((bit_and a b == 0) ≡ true) ↔ ((i : ℕ) → test_bit a i ≡ true → test_bit b i ≡ false)
disjoint_iff a b = (
  λ e i h. ground (arith, test_bit-bit_and a b i, at_zero e i),
  λ h. ground (arith, bits_ext (bit_and a b) 0 (zeros h)),
)
  where
    at_zero : (bit_and a b == 0) ≡ true → (i : ℕ) → test_bit (bit_and a b) i ≡ false
    at_zero e i = rw ((==_iff (bit_and a b) 0).0 e) (test_bit-zero i)

    zeros :
        ((i : ℕ) → test_bit a i ≡ true → test_bit b i ≡ false)
        → (i : ℕ) → test_bit (bit_and a b) i ≡ test_bit 0 i
    zeros h i = ground (arith, h i, test_bit-bit_and a b i, test_bit-zero i)

-- `(x >> k)` moves digit `k + i` to place `i`.
pub test_bit_shift : (k x i : ℕ) → test_bit (x / 2 ^ k) i ≡ test_bit x (k + i)
unfolding test_bit
test_bit_shift zero x i = rw (same x, add-zero_left i) refl
  where
    same : (x : ℕ) → x / 2 ^ 0 ≡ x
    same x = omega arith

    add-zero_left : (i : ℕ) → 0 + i ≡ i
    add-zero_left i = omega arith
test_bit_shift (suc k) x i = rw (halved x k, next k i) (test_bit_shift k (x / 2) i)
  where
    halved : (x k : ℕ) → x / 2 ^ suc k ≡ x / 2 / 2 ^ k
    halved x k = rw div-div-eq-div-mul (ap (λ (t : ℕ). x / t) (double k).0)

    next : (k i : ℕ) → suc k + i ≡ suc (k + i)
    next k i = omega arith

-- `(1 << w) - 1` has its lowest `w` digits 1, and no others.
pub test_bit_mask : (w i : ℕ) → test_bit (2 ^ w - 1) i ≡ ltb i w
test_bit_mask w i = ground (arith, double w, test_bit-complement w 0 i, test_bit-zero i)

-- `x << 1` moves each digit up by one place.
pub test_bit_double : (x i : ℕ) → test_bit (x * 2) i ≡ (ltb 0 i && test_bit x (i - 1))
unfolding test_bit
test_bit_double x zero = ground arith
test_bit_double x (suc i) = rw (halved x, pred_suc i) (ground arith)
  where
    halved : (x : ℕ) → x * 2 / 2 ≡ x
    halved x = omega arith

    pred_suc : (i : ℕ) → suc i - 1 ≡ i
    pred_suc i = omega arith

test_bit_join : (w q r i : ℕ) → r < 2 ^ w → i < w → test_bit (q * 2 ^ w + r) i ≡ test_bit r i
unfolding test_bit
test_bit_join zero q r i small lt = absurd (omega arith)
test_bit_join (suc w) q r zero small lt = ground (arith, twice w q)
  where
    twice : (w q : ℕ) → q * 2 ^ suc w ≡ 2 * (q * 2 ^ w)
    twice w q = omega (arith, ap (λ (t : ℕ). q * t) (double w).0)
test_bit_join (suc w) q r (suc i) small lt =
    rw (halved w q r) (test_bit_join w q (r / 2) i (omega (arith, double w)) (omega arith))
  where
    halved : (w q r : ℕ) → (q * 2 ^ suc w + r) / 2 ≡ q * 2 ^ w + r / 2
    halved w q r = omega (arith, ap (λ (t : ℕ). q * t) (double w).0)

-- `(uint32_t)x`, for any width: the digits below the width stay.
pub test_bit_mod : (w x i : ℕ) → test_bit (x % 2 ^ w) i ≡ (ltb i w && test_bit x i)
test_bit_mod w x i = elim (dec_lt i w) [
  | yes below ↦ ground (
    arith,
    test_bit_join w (x / 2 ^ w) (x % 2 ^ w) i (small w x) below,
    ap (λ (t : ℕ). test_bit t i) (div-add-mod' x (2 ^ w)),
  )
  | no above ↦ ground (arith, test_bit_high w (x % 2 ^ w) i (small w x))
]
  where
    small : (w x : ℕ) → x % 2 ^ w < 2 ^ w
    small w x = mod-lt x (double w).1
