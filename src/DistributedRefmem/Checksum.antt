-- ===== src/DistributedRefmem/Checksum.antt =====
-- components/distributed_refmem/src/distributed_refmem.c: what the checksum of the header detects.
use hdrt.Prelude.{
  ℕ, ◌*◌, ◌%◌, ◌^◌, ◌<◌, ◌≡◌, ◌≢◌, ◌∙◌, sym, ap, Bool, xor, List, [], ◌∷◌, ◌++◌, arith, bit_xor,
}
use hdrt.Bits.{bits_ext, test_bit, test_bit-bit_xor, bit_xor-lt}
use hdrt.DistributedRefmem.{fast_crc32_byte, fast_crc32_from, fast_crc32}

-- The multiplier is odd: 899433627 takes it back.
times_injective :
    (a b : ℕ) → a < 2 ^ 32 → b < 2 ^ 32 → a * 16777619 % 2 ^ 32 ≡ b * 16777619 % 2 ^ 32 → a ≡ b
times_injective a b h k e = omega (arith, h, k, e)

xor_cancel : (a b c : Bool) → xor a c ≡ xor b c → a ≡ b
unfolding xor
xor_cancel a b c e = ground arith

bit_xor_cancel : (a b c : ℕ) → bit_xor a c ≡ bit_xor b c → a ≡ b
bit_xor_cancel a b c e = bits_ext a b λ i.
    xor_cancel (test_bit a i) (test_bit b i) (test_bit c i)
      (sym (test_bit-bit_xor a c i) ∙ ap (λ x. test_bit x i) e ∙ test_bit-bit_xor b c i)

bit_xor_comm : (a b : ℕ) → bit_xor a b ≡ bit_xor b a
unfolding xor
bit_xor_comm a b =
    bits_ext (bit_xor a b) (bit_xor b a)
      λ i. ground (arith, test_bit-bit_xor a b i, test_bit-bit_xor b a i)

abbrev pub AllBytes : List ℕ → Type 0
AllBytes [] = Unit {0}
AllBytes (b ∷ bytes) = (b < 2 ^ 8) × AllBytes bytes

fast_crc32_byte-lt : (crc b : ℕ) → fast_crc32_byte crc b < 2 ^ 32
unfolding fast_crc32_byte
fast_crc32_byte-lt crc b = omega arith

-- One round separates two checksums, and two bytes.
fast_crc32_byte_injective :
    (c d b : ℕ)
    → c < 2 ^ 32
    → d < 2 ^ 32
    → b < 2 ^ 8
    → fast_crc32_byte c b ≡ fast_crc32_byte d b
    → c ≡ d
unfolding fast_crc32_byte
fast_crc32_byte_injective c d b h k t e = bit_xor_cancel c d b (
    times_injective (bit_xor c b) (bit_xor d b) (bit_xor-lt 32 c b h (omega (arith, t)))
      (bit_xor-lt 32 d b k (omega (arith, t))) e)

fast_crc32_byte_separates :
    (crc b c : ℕ)
    → crc < 2 ^ 32
    → b < 2 ^ 8
    → c < 2 ^ 8
    → fast_crc32_byte crc b ≡ fast_crc32_byte crc c
    → b ≡ c
unfolding fast_crc32_byte
fast_crc32_byte_separates crc b c h s t e = bit_xor_cancel b c crc (
    bit_xor_comm b crc
    ∙ times_injective (bit_xor crc b) (bit_xor crc c) (bit_xor-lt 32 crc b h (omega (arith, s)))
        (bit_xor-lt 32 crc c h (omega (arith, t))) e
    ∙ bit_xor_comm crc c)

fast_crc32_from_injective :
    (bytes : List ℕ) (c d : ℕ)
    → AllBytes bytes
    → c < 2 ^ 32
    → d < 2 ^ 32
    → fast_crc32_from c bytes ≡ fast_crc32_from d bytes
    → c ≡ d
unfolding fast_crc32_from
fast_crc32_from_injective [] c d a h k e = e
fast_crc32_from_injective (b ∷ bytes) c d a h k e = fast_crc32_byte_injective c d b h k (a.0) (
    fast_crc32_from_injective bytes (fast_crc32_byte c b) (fast_crc32_byte d b) (a.1)
      (fast_crc32_byte-lt c b) (fast_crc32_byte-lt d b) e)

one_byte_from :
    (before after : List ℕ) (b c crc : ℕ)
    → AllBytes after
    → b < 2 ^ 8
    → c < 2 ^ 8
    → crc < 2 ^ 32
    → fast_crc32_from crc (before ++ (b ∷ after)) ≡ fast_crc32_from crc (before ++ (c ∷ after))
    → b ≡ c
unfolding fast_crc32_from
one_byte_from [] after b c crc a s t h e = fast_crc32_byte_separates crc b c h s t (
    fast_crc32_from_injective after (fast_crc32_byte crc b) (fast_crc32_byte crc c) a
      (fast_crc32_byte-lt crc b) (fast_crc32_byte-lt crc c) e)
one_byte_from (x ∷ before) after b c crc a s t h e =
    one_byte_from before after b c (fast_crc32_byte crc x) a s t (fast_crc32_byte-lt crc x) e

-- Two rows of bytes that differ in one place have different checksums.
pub fast_crc32_one_byte :
    (before after : List ℕ) (b c : ℕ)
    → AllBytes after
    → b < 2 ^ 8
    → c < 2 ^ 8
    → b ≢ c
    → fast_crc32 (before ++ (b ∷ after)) ≢ fast_crc32 (before ++ (c ∷ after))
unfolding fast_crc32
fast_crc32_one_byte before after b c a s t h e =
    h (one_byte_from before after b c 2166136261 a s t (omega arith) e)
