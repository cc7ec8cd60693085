-- ===== src/BissNodeIo/Words.antt =====
-- A frame of more than 32 bits comes as two words, and the node puts it together again.
use native.Mathlib.Nat.{pow-suc, mul_assoc}
use hdrt.Prelude.{
  ℕ, zero, suc, ◌+◌, ◌-◌, ◌*◌, ◌/◌, ◌%◌, ◌^◌, ◌≤◌, ◌<◌, ◌≡◌, ◌∙◌, inl, inr, sym, ap, false, ◌&&◌,
  ◌||◌, [], ◌∷◌, ltb, leb, ◌==◌, if◌then◌else◌, arith, Bool-cases, ==_iff,
}
use hdrt.Bits.{
  test_bit-bit_or, test_bit_double, test_bit_mask, test_bit_mod, test_bit_shift, bits_ext,
  test_bit-zero, test_bit, test_bit-bit_and, test_bit_high,
}
use hdrt.TriggerVector.Fields.{Vector}
use hdrt.SyncIo.Hardware.{Hardware}
use hdrt.BissNodeIo.State.{Node, Desk, zero_node, make_profile, started_node}
use hdrt.BissNodeIo.Position.{next_word, process_frame}
use hdrt.BissNodeIo.Receive.{
  reset_frame_assembler, chunk_bits, push_chunk, assemble, ingest_word, ingest_words,
}

times_one : (a : ℕ) → a * 2 ^ 0 ≡ a
times_one a = omega arith

sub-zero_lem : (i : ℕ) → i - 0 ≡ i
sub-zero_lem i = omega arith

before : (i b : ℕ) → i - 1 - b ≡ i - suc b
before i b = omega arith

shifted_once : (a b : ℕ) → a * 2 ^ suc b ≡ a * 2 ^ b * 2
shifted_once a b = ap (λ p. a * p) (pow-suc 2 b) ∙ sym (mul_assoc a (2 ^ b) 2)

test_bit_shl : (b a i : ℕ) → test_bit (a * 2 ^ b) i ≡ (leb b i && test_bit a (i - b))
test_bit_shl zero a i = rw (times_one a, sub-zero_lem i) (ground arith)
test_bit_shl (suc b) a i =
    rw (shifted_once a b, test_bit_double, test_bit_shl b a (i - 1), before i b) (ground arith)

-- The digits of a chunk pushed behind the words before it.
push_digit :
    (accum bits word i : ℕ)
    → bits ≤ 32
    → test_bit (push_chunk accum bits word) i
      ≡ (ltb i 64 && (leb bits i && test_bit accum (i - bits)) || ltb i bits && test_bit word i)
unfolding push_chunk
push_digit accum bits word i small = elim (Bool-cases (bits == 32)) [
  | inl whole ↦
      rw
        (
          whole,
          test_bit-bit_or,
          test_bit_mod,
          test_bit_shl,
          test_bit-bit_and,
          (==_iff bits 32).0 whole,
        )
        (ground (arith, test_bit_mask 32 i))
  | inr part ↦
      rw (part, test_bit-bit_or, test_bit_mod, test_bit_shl, test_bit-bit_and, test_bit_mask)
        (ground arith)
]

-- the place of a digit above the last word
back : (i bits : ℕ) → bits ≤ i → bits + (i - bits) ≡ i
back i bits le = omega arith

-- Two words pushed one after the other are the frame that they were cut from.
pushed_twice :
    (frame bits : ℕ)
    → bits ≤ 32
    → frame < 2 ^ (32 + bits)
    → push_chunk (push_chunk 0 32 (frame / 2 ^ bits)) bits (frame % 2 ^ bits) ≡ frame
pushed_twice frame bits small fits = bits_ext _ frame (λ i. ground (
  arith,
  push_digit (push_chunk 0 32 (frame / 2 ^ bits)) bits (frame % 2 ^ bits) i small,
  push_digit 0 32 (frame / 2 ^ bits) (i - bits) (omega arith),
  test_bit_shift bits frame (i - bits),
  test_bit_mod bits frame i,
  test_bit_high (32 + bits) frame i fits,
  test_bit-zero (i - bits - 32),
  back i bits,
))

-- The node before the first of two words.
abbrev waiting : Node → ℕ → Node
waiting node bits = record node {
  frame_accum = 0;
  frame_words_seen = 0;
  frame_words_expected = 2;
  final_word_bits = bits;
}

module _ {σ : Type 0} (h : Hardware σ) where
  receive_two :
      (node : Node) (bits frame : ℕ) (v : Vector) (hw : σ)
      → bits ≤ 32
      → frame < 2 ^ (32 + bits)
      → ingest_words h
          (frame / 2 ^ bits ∷ frame % 2 ^ bits ∷ [])
          (record { vector = v; node = waiting node bits; hardware = hw })
        ≡ (process_frame h frame (record {
          vector = v;
          node = record (waiting node bits) {
            last_frame_ms =
                h.uptime_ms (h.biss_tap_read_frame_word (h.biss_tap_read_frame_word hw));
            timeout_latched = false;
          };
          hardware = h.biss_tap_read_frame_word (h.biss_tap_read_frame_word hw);
        })).0
  unfolding ingest_words ingest_word assemble chunk_bits next_word reset_frame_assembler
  receive_two node bits frame v hw small fits =
      ap
        (λ f.
          (process_frame h f (record {
            vector = v;
            node = record (waiting node bits) {
              last_frame_ms =
                  h.uptime_ms (h.biss_tap_read_frame_word (h.biss_tap_read_frame_word hw));
              timeout_latched = false;
            };
            hardware = h.biss_tap_read_frame_word (h.biss_tap_read_frame_word hw);
          })).0)
        (pushed_twice frame bits small fits)

words_expected : (bits : ℕ) → 33 ≤ bits → bits ≤ 64 → (bits + 31) % 2 ^ 32 / 32 ≡ 2
words_expected bits lo hi = omega arith

last_word :
    (bits : ℕ) → 33 ≤ bits → bits ≤ 64 → (if bits % 32 == 0 then 32 else bits % 32) ≡ bits - 32
last_word bits lo hi = ground arith

started-waiting :
    (v : Vector) (now : ℕ)
    → 33 ≤ v.biss.biss_frame_bits
    → v.biss.biss_frame_bits ≤ 64
    → started_node v now ≡ waiting (started_node v now) (v.biss.biss_frame_bits - 32)
unfolding started_node make_profile zero_node
started-waiting v now lo hi i = record (started_node v now) {
  frame_words_expected = words_expected v.biss.biss_frame_bits lo hi i;
  final_word_bits = last_word v.biss.biss_frame_bits lo hi i;
}

module _ {σ : Type 0} (h : Hardware σ) where
  -- What `biss_node_io_process_frame` works on when the second of two words was read.
  abbrev pub received : Node → Vector → σ → Desk σ
  received node v hw =
      let read = h.biss_tap_read_frame_word (h.biss_tap_read_frame_word hw) in
      record {
        vector = v;
        node = record node { last_frame_ms = h.uptime_ms read; timeout_latched = false };
        hardware = read;
      }

  -- A frame of 33 to 64 bits that reaches a node armed for that length as two words, the 32 most
  -- significant bits and then the rest, is processed once, as the frame that it was, by a node that
  -- is back to waiting for a first word.
  pub receive_frame :
      (set v : Vector) (now frame : ℕ) (hw : σ)
      → 33 ≤ set.biss.biss_frame_bits
      → set.biss.biss_frame_bits ≤ 64
      → frame < 2 ^ set.biss.biss_frame_bits
      → let rest = set.biss.biss_frame_bits - 32 in
        ingest_words h
          (frame / 2 ^ rest ∷ frame % 2 ^ rest ∷ [])
          (record { vector = v; node = started_node set now; hardware = hw })
        ≡ (process_frame h frame (received (started_node set now) v hw)).0
  receive_frame set v now frame hw lo hi fits =
      let rest = set.biss.biss_frame_bits - 32 in
      let e = started-waiting set now lo hi in
      ap
        (λ n.
          ingest_words h (frame / 2 ^ rest ∷ frame % 2 ^ rest ∷ [])
            (record { vector = v; node = n; hardware = hw }))
        e
      ∙ receive_two h (started_node set now) rest frame v hw (omega arith)
          (ground (arith, fits, whole set.biss.biss_frame_bits lo))
      ∙ ap (λ n. (process_frame h frame (received n v hw)).0) (sym e)
    where
      whole : (bits : ℕ) → 33 ≤ bits → 32 + (bits - 32) ≡ bits
      whole bits lo = omega arith
