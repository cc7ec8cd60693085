-- ===== src/Flash/Writes.antt =====
-- drivers/mcu/flash/src/drv_flash.c: what a write that reports success leaves in the flash.
use hdrt.Prelude.{ℕ, zero, suc, ◌+◌, ◌≤◌, ◌<◌, ◌≡◌, Bool, true, false, arith}
use hdrt.Flash.{
  Bytes, Port, Flash, erased_from, is_erased, equal_from, begin_write, end_write, erase_locked,
  erase, program_locked, program,
}

erased_from_lem :
    (bytes : Bytes) (n k i : ℕ) → erased_from bytes n k ≡ true → k ≤ i → i < k + n → bytes i ≡ 0xff
unfolding erased_from
erased_from_lem bytes zero k i e h t = omega (arith, h, t)
erased_from_lem bytes (suc n) k i e h t = ground (arith, erased_from_lem bytes n (k + 1) i)

pub equal_from_lem :
    (a b : Bytes) (n k i : ℕ) → equal_from a b n k ≡ true → k ≤ i → i < k + n → a i ≡ b i
unfolding equal_from
equal_from_lem a b zero k i e h t = omega (arith, h, t)
equal_from_lem a b (suc n) k i e h t = ground (arith, equal_from_lem a b n (k + 1) i)

module _ (P : Port) where
  erase_locked_lem :
      (o n i : ℕ) (r : Flash × Bool)
      → (erase_locked P o n r).1 ≡ true
      → o ≤ i
      → i < o + n
      → (erase_locked P o n r).0.memory i ≡ 0xff
  unfolding erase_locked is_erased
  erase_locked_lem o n i (g, true) e h t = ground (
    arith,
    erased_from_lem (end_write P (record g { memory = P.range_erase g.memory o n })).memory n o i,
  )
  erase_locked_lem o n i (g, false) e h t = ground arith

  -- After an erase that reports success every byte of its range is 0xff, whatever the SDK did.
  pub erase_effect :
      (f : Flash) (o n i : ℕ)
      → (erase P f o n).1 ≡ true
      → o ≤ i
      → i < o + n
      → (erase P f o n).0.memory i ≡ 0xff
  unfolding erase
  erase_effect f o n i e h t = ground (arith, erase_locked_lem o n i (begin_write P f))

  program_locked_lem :
      (o n i : ℕ) (bytes : Bytes) (r : Flash × Bool)
      → (program_locked P o bytes n r).1 ≡ true
      → i < n
      → (program_locked P o bytes n r).0.memory (o + i) ≡ bytes i
  unfolding program_locked
  program_locked_lem o n i bytes (g, true) e t = ground (
    arith,
    equal_from_lem
        (λ k.
          (end_write P (record g { memory = P.range_program g.memory o bytes n })).memory (o + k))
        bytes n 0 i,
  )
  program_locked_lem o n i bytes (g, false) e t = ground arith

  -- After a program that reports success its range holds the bytes it was given.
  pub program_effect :
      (f : Flash) (o : ℕ) (bytes : Bytes) (n i : ℕ)
      → (program P f o bytes n).1 ≡ true
      → i < n
      → (program P f o bytes n).0.memory (o + i) ≡ bytes i
  unfolding program
  program_effect f o bytes n i e t =
      ground (arith, program_locked_lem o n i bytes (begin_write P f))
