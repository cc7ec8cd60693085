-- ===== src/ResourceArbiter/Loops.antt =====
-- What the three bit loops of resource_arbiter.c compute, one bit at a time.
use hdrt.Prelude.{
  ℕ, zero, suc, ◌+◌, ◌^◌, ◌≤◌, ◌<◌, ◌≡◌, Bool, true, false, ◌&&◌, not, none, ltb, leb, ◌==◌,
  if◌then◌else◌, arith, inl, inr, Bool-cases,
}
use hdrt.Bits.{
  test_bit, test_bit-bit_and, test_bit-complement, test_bit-pow, bit_and-pow, bit_and-lt,
  complement, pow-lt, test_bit_high,
}
use hdrt.ResourceArbiter.{Owner, has_bit, owner_matches, claim_from, Holding, drop_bit, drop_from}

pub has_bit_lem : (x bit : ℕ) → has_bit x bit ≡ test_bit x bit
unfolding has_bit
has_bit_lem x bit = bit_and-pow x bit

-- `bit` up to `bit + left`, the last left out.
abbrev pub in_range : ℕ → ℕ → ℕ → Bool
in_range bit left j = leb bit j && ltb j (bit + left)

pub claim_from_lem :
    (resources : ℕ) (owner : Owner) (left bit : ℕ) (owners : ℕ → Owner) (j : ℕ)
    → claim_from resources owner left bit owners j
      ≡ (if in_range bit left j && test_bit resources j then owner else owners j)
unfolding claim_from
claim_from_lem resources owner zero bit owners j = ground arith
claim_from_lem resources owner (suc left) bit owners j = ground (
  arith,
  has_bit_lem resources bit,
  claim_from_lem resources owner left (bit + 1)
      (if has_bit resources bit then (λ k. if bit == k then owner else owners k) else owners) j,
)

test_bit-drop_bit :
    (bit : ℕ) (h : Holding) (j : ℕ)
    → bit < 32
    → h.active < 2 ^ 32
    → test_bit (drop_bit bit h).active j ≡ (test_bit h.active j && not (bit == j))
unfolding drop_bit
test_bit-drop_bit bit h j lt small =
    rw (test_bit-bit_and, test_bit-complement 32 (2 ^ bit) j (pow-lt bit 32 lt), test_bit-pow)
      (ground (arith, test_bit_high 32 h.active j small))

drop_bit-lt : (bit : ℕ) (h : Holding) → h.active < 2 ^ 32 → (drop_bit bit h).active < 2 ^ 32
unfolding drop_bit
drop_bit-lt bit h small = bit_and-lt 32 h.active (complement 32 (2 ^ bit)) small

-- The condition under which `release_owned` takes resource `j` away.
abbrev pub drops : ℕ → Owner → Holding → ℕ → Bool
drops resources owner h j = test_bit resources j && owner_matches owner (h.owners j)

-- What `left` rounds from `bit` on make of `h`.
pub record Dropped (resources : ℕ) (owner : Owner) (left bit : ℕ) (h out : Holding) : Type 0 where
  pub small : out.active < 2 ^ 32
  pub active :
      (j : ℕ)
      → test_bit out.active j
        ≡ (test_bit h.active j && not (in_range bit left j && drops resources owner h j))
  pub owners :
      (j : ℕ)
      → out.owners j
        ≡ (if in_range bit left j && drops resources owner h j then none else h.owners j)

module _ (resources : ℕ) (owner : Owner) (left bit : ℕ) (h out : Holding) where
  Dropped-hit :
      bit < 32
      → h.active < 2 ^ 32
      → drops resources owner h bit ≡ true
      → Dropped resources owner left (bit + 1) (drop_bit bit h) out
      → Dropped resources owner (suc left) bit h out
  unfolding drop_bit
  Dropped-hit lt small hit d = record {
    small = d.small;
    active = λ j. ground (arith, d.active j, test_bit-drop_bit bit h j lt small);
    owners = λ j. ground (arith, d.owners j);
  }

  Dropped-miss :
      drops resources owner h bit ≡ false
      → Dropped resources owner left (bit + 1) h out
      → Dropped resources owner (suc left) bit h out
  Dropped-miss miss d = record {
    small = d.small;
    active = λ j. ground (arith, d.active j);
    owners = λ j. ground (arith, d.owners j);
  }

pub drop_from-Dropped :
    (resources : ℕ) (owner : Owner) (left bit : ℕ) (h : Holding)
    → bit + left ≤ 32
    → h.active < 2 ^ 32
    → Dropped resources owner left bit h (drop_from resources owner left bit h)
unfolding drop_from
drop_from-Dropped resources owner zero bit h fits small = record {
  small = small;
  active = λ j. ground arith;
  owners = λ j. ground arith;
}
drop_from-Dropped resources owner (suc left) bit h fits small =
    elim (Bool-cases (drops resources owner h bit)) [
      | inl hit ↦
          rw (has_bit_lem, hit)
            (Dropped-hit resources owner left bit h _ (omega arith) small hit (
              drop_from-Dropped resources owner left (bit + 1) (drop_bit bit h) (omega arith)
                (drop_bit-lt bit h small)))
      | inr miss ↦
          rw (has_bit_lem, miss)
            (Dropped-miss resources owner left bit h _ miss
              (drop_from-Dropped resources owner left (bit + 1) h (omega arith) small))
    ]
