-- ===== src/Flash.antt =====
-- drivers/mcu/flash/src/drv_flash.c: reading, erasing and programming the flash, and the lockout
-- of the second core while the flash is written. The flash is its bytes by offset; the two static
-- flags that core 0 writes are fields. What the file calls of the SDK, and what the other core
-- answers, is the record `Port`.
pub mod Writes
pub mod Frame
use hdrt.Prelude.{
  ℕ, zero, suc, ◌+◌, ◌-◌, ◌*◌, ◌%◌, Bool, true, false, ◌||◌, not, Option, none, some, leb, ◌==◌,
  if◌then◌else◌, length,
}

abbrev pub total_size : ℕ
total_size = 4 * 1024 * 1024

abbrev pub sector_size : ℕ
sector_size = 4096

abbrev pub page_size : ℕ
page_size = 256

abbrev pub xip_base : ℕ
xip_base = 0x10000000

abbrev pub lockout_wait_loops : ℕ
lockout_wait_loops = 1_000_000

abbrev pub Bytes : Type 0
Bytes = ℕ → ℕ

-- `multicore` is PROJECT_USE_MULTICORE. `acknowledged n i` is what round `i` of the wait of the
-- `n`-th write reads in `s_core1_lockout_ack`, which core 1 writes. `range_erase` and
-- `range_program` are the SDK's `flash_range_erase` and `flash_range_program`.
pub record Port : Type 0 where
  pub multicore : Bool
  pub acknowledged : ℕ → ℕ → Bool
  pub range_erase : Bytes → ℕ → ℕ → Bytes
  pub range_program : Bytes → ℕ → Bytes → ℕ → Bytes

-- `writes` counts the writes begun; only the model has it, to number core 1's answers.
pub record Flash : Type 0 where
  pub memory : Bytes
  pub lockout_online : Bool
  pub lockout_request : Bool
  pub writes : ℕ

unfoldable pub is_aligned : ℕ → ℕ → Bool
is_aligned value alignment = value % alignment == 0

unfoldable pub is_range_valid : ℕ → ℕ → Bool
is_range_valid offset length =
    if length == 0
    then false
    else (if leb total_size offset then false else leb length (total_size - offset))

-- The bytes that `memcpy` finds at the offset; the caller reads the first `length`.
unfoldable pub read : Flash → ℕ → ℕ → Option Bytes
read f offset length =
    if not (is_range_valid offset length) then none else some (λ i. f.memory (offset + i))

-- the loop of `drv_flash_is_erased`, with `left` bytes to go from `i`
unfoldable pub erased_from : Bytes → ℕ → ℕ → Bool
erased_from bytes zero i = true
erased_from bytes (suc left) i =
    let rest = erased_from bytes left (i + 1) in if not (bytes i == 0xff) then false else rest

unfoldable pub is_erased : Flash → ℕ → ℕ → Bool
is_erased f offset length =
    if not (is_range_valid offset length) then false else erased_from f.memory length offset

-- `memcmp(a, b, n) == 0`, from byte `i`
unfoldable pub equal_from : Bytes → Bytes → ℕ → ℕ → Bool
equal_from a b zero i = true
equal_from a b (suc left) i =
    let rest = equal_from a b left (i + 1) in if not (a i == b i) then false else rest

-- the loop of `drv_flash_begin_write`
unfoldable pub wait_acknowledged : (ℕ → Bool) → ℕ → ℕ → Bool
wait_acknowledged answer zero i = false
wait_acknowledged answer (suc left) i =
    let rest = wait_acknowledged answer left (i + 1) in if answer i then true else rest

module _ (P : Port) where
  unfoldable pub begin_write : Flash → Flash × Bool
  begin_write f =
      let waiting = record f { lockout_request = true; writes = f.writes + 1 } in
      if not P.multicore
      then (f, true)
      else (if not f.lockout_online
          then (f, true)
          else (if wait_acknowledged (P.acknowledged f.writes) lockout_wait_loops 0
              then (waiting, true)
              else (record waiting { lockout_request = false }, false)))

  -- The wait for core 1 to go on leaves nothing behind.
  unfoldable pub end_write : Flash → Flash
  end_write f = if P.multicore then record f { lockout_request = false } else f

  unfoldable pub erase_locked : ℕ → ℕ → Flash × Bool → Flash × Bool
  erase_locked offset length (g, ready) =
      let h = end_write (record g { memory = P.range_erase g.memory offset length }) in
      if not ready then (g, false) else (h, is_erased h offset length)

  unfoldable pub erase : Flash → ℕ → ℕ → Flash × Bool
  erase f offset length =
      if not (is_range_valid offset length)
      then (f, false)
      else (if not (is_aligned offset sector_size) || not (is_aligned length sector_size)
          then (f, false)
          else erase_locked offset length (begin_write f))

  unfoldable pub program_locked : ℕ → Bytes → ℕ → Flash × Bool → Flash × Bool
  program_locked offset bytes length (g, ready) =
      let h = end_write (record g { memory = P.range_program g.memory offset bytes length }) in
      if not ready then (g, false) else (h, equal_from (λ i. h.memory (offset + i)) bytes length 0)

  unfoldable pub program : Flash → ℕ → Bytes → ℕ → Flash × Bool
  program f offset bytes length =
      if not (is_range_valid offset length)
      then (f, false)
      else (if not (is_aligned offset page_size) || not (is_aligned length page_size)
          then (f, false)
          else program_locked offset bytes length (begin_write f))
