-- ===== src/Bits/Digits.antt =====
-- The binary digits of a number, and what `&`, `|` and `^` do to each of them.
use Prim.Native.Nat.{differ, digits, bitwise, bit_and-bitwise, bit_or-bitwise, bit_xor-bitwise}
use hdrt.Prelude.{
  ℕ, zero, suc, ◌+◌, ◌*◌, ◌/◌, ◌%◌, ◌≤◌, min, max, bit_and, bit_or, bit_xor, ◌≡◌, refl, Bool, ◌&&◌,
  ◌||◌, xor, arith, ◌==◌, ap,
}

-- `(x >> i) & 1`, as a Boolean.
unfoldable pub test_bit : ℕ → ℕ → Bool
test_bit x zero = x % 2 == 1
test_bit x (suc i) = test_bit (x / 2) i

-- The native operations recur on a count of digits; any count that is large enough serves.
count_of_digits :
    (z : ℕ → ℕ) (f : ℕ → ℕ → ℕ) (a b n k : ℕ) → a ≤ n → a ≤ k → digits z f n a b ≡ digits z f k a b
count_of_digits z f zero b zero zero p q = refl
count_of_digits z f zero b zero (suc k) p q = refl
count_of_digits z f zero b (suc n) zero p q = refl
count_of_digits z f zero b (suc n) (suc k) p q = refl
count_of_digits z f (suc a) b zero k p q = absurd (omega arith)
count_of_digits z f (suc a) b (suc n) zero p q = absurd (omega arith)
count_of_digits z f (suc a) b (suc n) (suc k) p q =
    ap (λ (t : ℕ). t * 2 + f (suc a % 2) (b % 2))
      (count_of_digits z f (suc a / 2) (b / 2) n k (omega arith) (omega arith))

lowest_digit :
    (z : ℕ → ℕ) (f : ℕ → ℕ → ℕ) (a b : ℕ)
    → bitwise z f (suc a) b ≡ bitwise z f (suc a / 2) (b / 2) * 2 + f (suc a % 2) (b % 2)
lowest_digit z f a b =
    ap (λ (t : ℕ). t * 2 + f (suc a % 2) (b % 2))
      (count_of_digits z f (suc a / 2) (b / 2) a (suc a / 2) (omega arith) (omega arith))

bit_and-halves : (a b : ℕ) → bit_and a b ≡ bit_and (a / 2) (b / 2) * 2 + min (a % 2) (b % 2)
bit_and-halves zero b = simp bit_and-bitwise (omega arith)
bit_and-halves (suc a) b = simp bit_and-bitwise (lowest_digit (λ y. 0) min a b)

bit_or-halves : (a b : ℕ) → bit_or a b ≡ bit_or (a / 2) (b / 2) * 2 + max (a % 2) (b % 2)
bit_or-halves zero b = simp bit_or-bitwise (omega arith)
bit_or-halves (suc a) b = simp bit_or-bitwise (lowest_digit (λ y. y) max a b)

pub test_bit-bit_and : (a b i : ℕ) → test_bit (bit_and a b) i ≡ (test_bit a i && test_bit b i)
unfolding test_bit
test_bit-bit_and a b zero = ground (arith, bit_and-halves a b)
test_bit-bit_and a b (suc i) = rw (half a b) (test_bit-bit_and (a / 2) (b / 2) i)
  where
    half : (a b : ℕ) → bit_and a b / 2 ≡ bit_and (a / 2) (b / 2)
    half a b = omega (arith, bit_and-halves a b)

pub test_bit-bit_or : (a b i : ℕ) → test_bit (bit_or a b) i ≡ (test_bit a i || test_bit b i)
unfolding test_bit
test_bit-bit_or a b zero = ground (arith, bit_or-halves a b)
test_bit-bit_or a b (suc i) = rw (half a b) (test_bit-bit_or (a / 2) (b / 2) i)
  where
    half : (a b : ℕ) → bit_or a b / 2 ≡ bit_or (a / 2) (b / 2)
    half a b = omega (arith, bit_or-halves a b)

bit_xor-halves : (a b : ℕ) → bit_xor a b ≡ bit_xor (a / 2) (b / 2) * 2 + differ (a % 2) (b % 2)
bit_xor-halves zero b = simp bit_xor-bitwise (digit b)
  where
    digit : (b : ℕ) → b ≡ b / 2 * 2 + b % 2
    digit b = omega arith
bit_xor-halves (suc a) b = simp bit_xor-bitwise (lowest_digit (λ y. y) differ a b)

-- Of two digits `differ` is 1 just where they are not the same.
differ_digits :
    (a b : ℕ) → a ≤ 1 → b ≤ 1 → (differ a b ≤ 1) × ((differ a b == 1) ≡ xor (a == 1) (b == 1))
unfolding xor
differ_digits zero zero p q = (omega arith, refl)
differ_digits zero (suc zero) p q = (omega arith, refl)
differ_digits (suc zero) zero p q = (omega arith, refl)
differ_digits (suc zero) (suc zero) p q = (omega arith, refl)
differ_digits zero (suc (suc b)) p q = absurd (omega arith)
differ_digits (suc (suc a)) b p q = absurd (omega arith)
differ_digits (suc zero) (suc (suc b)) p q = absurd (omega arith)

pub test_bit-bit_xor : (a b i : ℕ) → test_bit (bit_xor a b) i ≡ xor (test_bit a i) (test_bit b i)
unfolding test_bit
test_bit-bit_xor a b zero =
    rw (low a b) (differ_digits (a % 2) (b % 2) (omega arith) (omega arith)).1
  where
    low : (a b : ℕ) → bit_xor a b % 2 ≡ differ (a % 2) (b % 2)
    low a b =
        omega
          (arith, bit_xor-halves a b, (differ_digits (a % 2) (b % 2) (omega arith) (omega arith)).0)
test_bit-bit_xor a b (suc i) = rw (half a b) (test_bit-bit_xor (a / 2) (b / 2) i)
  where
    half : (a b : ℕ) → bit_xor a b / 2 ≡ bit_xor (a / 2) (b / 2)
    half a b =
        omega
          (arith, bit_xor-halves a b, (differ_digits (a % 2) (b % 2) (omega arith) (omega arith)).0)
