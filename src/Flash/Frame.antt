-- ===== src/Flash/Frame.antt =====
-- drivers/mcu/flash/src/drv_flash.c: what a write leaves alone.
use hdrt.Prelude.{ℕ, ◌+◌, ◌%◌, ◌≤◌, ◌<◌, ◌≡◌, ◌⊎◌, ◌∙◌, Bool, arith}
use hdrt.Flash.{
  page_size, Bytes, Port, Flash, is_aligned, begin_write, end_write, erase_locked, erase,
  program_locked, program,
}

-- What the SDK documents: an erase and a program change no byte outside their range.
pub record IsLocal (P : Port) : Type 0 where
  pub erase_local : (m : Bytes) (o n i : ℕ) → (i < o) ⊎ (o + n ≤ i) → P.range_erase m o n i ≡ m i
  pub program_local :
      (m : Bytes) (o : ℕ) (bytes : Bytes) (n i : ℕ)
      → (i < o) ⊎ (o + n ≤ i)
      → P.range_program m o bytes n i ≡ m i

-- The bytes at the offsets of `S` are the same in both.
abbrev pub SameOn : (ℕ → Type 0) → Flash → Flash → Type 0
SameOn S f g = (i : ℕ) → S i → g.memory i ≡ f.memory i

pub SameOn_trans : (S : ℕ → Type 0) (f g h : Flash) → SameOn S f g → SameOn S g h → SameOn S f h
SameOn_trans S f g h p q i s = q i s ∙ p i s

module _ (P : Port) (law : IsLocal P) where
  memory-begin_write : (f : Flash) (i : ℕ) → (begin_write P f).0.memory i ≡ f.memory i
  unfolding begin_write
  memory-begin_write f i = ground arith

  memory-erase_locked :
      (o n i : ℕ) (r : Flash × Bool)
      → (i < o) ⊎ (o + n ≤ i)
      → (erase_locked P o n r).0.memory i ≡ r.0.memory i
  unfolding erase_locked end_write
  memory-erase_locked o n i (g, ready) h = ground (arith, law.erase_local g.memory o n i h)

  memory-program_locked :
      (o : ℕ) (bytes : Bytes) (n i : ℕ) (r : Flash × Bool)
      → (i < o) ⊎ (o + n ≤ i)
      → (program_locked P o bytes n r).0.memory i ≡ r.0.memory i
  unfolding program_locked end_write
  memory-program_locked o bytes n i (g, ready) h =
      ground (arith, law.program_local g.memory o bytes n i h)

  pub erase-SameOn :
      (S : ℕ → Type 0) (f : Flash) (o n : ℕ)
      → ((i : ℕ) → S i → (i < o) ⊎ (o + n ≤ i))
      → SameOn S f (erase P f o n).0
  unfolding erase
  erase-SameOn S f o n h i s =
      ground (arith, memory-erase_locked o n i (begin_write P f), memory-begin_write f i, h i s)

  -- A program that starts off a page does nothing, so only an aligned one need keep away.
  pub program-SameOn :
      (S : ℕ → Type 0) (f : Flash) (o : ℕ) (bytes : Bytes) (n : ℕ)
      → ((i : ℕ) → o % page_size ≡ 0 → S i → (i < o) ⊎ (o + n ≤ i))
      → SameOn S f (program P f o bytes n).0
  unfolding program is_aligned
  program-SameOn S f o bytes n h i s =
      ground
        (arith, memory-program_locked o bytes n i (begin_write P f), memory-begin_write f i, h i)
