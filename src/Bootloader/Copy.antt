-- ===== src/Bootloader/Copy.antt =====
-- bootloader/src/bootloader_main.c: copying the staged image from slot B over slot A, with the
-- progress kept in the metadata. The fault injection that PROJECT_ENABLE_OTA_FAULT_INJECTION
-- compiles in is off by default, and left out.
use hdrt.Prelude.{
  ℕ, zero, suc, ◌+◌, ◌-◌, ◌*◌, ◌/◌, Bool, true, false, ◌&&◌, ◌||◌, not, Option, none, some, ltb,
  leb, ◌==◌, if◌then◌else◌,
}
use hdrt.Flash.{sector_size, page_size, Bytes, Port, Flash, erase, program}
use hdrt.OtaMetadata.Metadata.{Metadata}
use hdrt.OtaMetadata.Partition.{
  Slot, slot_none, slot_a, slot_b, partition_slot_offset, partition_slot_size,
}
use hdrt.OtaMetadata.Copies.{store}
use hdrt.Bootloader.Images.{Library, validate_slot_as_slot_a}

-- `ota_copy_txn_state_t`
abbrev pub txn_started : ℕ
txn_started = 1

abbrev pub txn_erased_active : ℕ
txn_erased_active = 2

abbrev pub txn_programming : ℕ
txn_programming = 3

abbrev pub txn_verifying : ℕ
txn_verifying = 4

abbrev pub txn_done : ℕ
txn_done = 5

abbrev pub txn_failed : ℕ
txn_failed = 6

-- `ota_boot_result_t`
abbrev pub result_none : ℕ
result_none = 0

abbrev pub result_no_pending : ℕ
result_no_pending = 2

abbrev pub result_max_attempts : ℕ
result_max_attempts = 3

abbrev pub result_stage_validate_failed : ℕ
result_stage_validate_failed = 4

abbrev pub result_copy_failed : ℕ
result_copy_failed = 5

abbrev pub result_active_validate_failed : ℕ
result_active_validate_failed = 6

abbrev pub max_boot_attempts : ℕ
max_boot_attempts = 3

abbrev pub progress_store_bytes : ℕ
progress_store_bytes = 64 * 1024

pub record Boot : Type 0 where
  pub flash : Flash
  pub metadata : Metadata

-- `if (!first) return false;` and what follows
abbrev pub and_then : Boot × Bool → (Boot → Boot × Bool) → Boot × Bool
and_then (s, true) next = next s
and_then (s, false) next = (s, false)

-- `(void)first; return false;`
abbrev pub and_fail : Boot × Bool → Boot × Bool
and_fail (s, ok) = (s, false)

-- `(void)first;` and what follows
abbrev pub regardless : Boot × Bool → (Boot → Boot × Bool) → Boot × Bool
regardless (s, ok) next = next s

-- `(n + unit - 1u) & ~(unit - 1u)`, for a power of two
unfoldable pub round_up : ℕ → ℕ → ℕ
round_up n unit = (n + unit - 1) / unit * unit

unfoldable pub copy_transaction_matches : Metadata → Bool
copy_transaction_matches m =
    (m.copy_source_slot == slot_b)
    && (m.copy_destination_slot == slot_a)
    && (m.copy_size == m.slot_b_size)
    && (m.copy_crc32 == m.slot_b_crc32)

-- the page that a round programs
unfoldable pub copied_page : Flash → ℕ → ℕ → Bytes
copied_page f from chunk i = if ltb i chunk then f.memory (from + i) else 0xff

abbrev pub finished : Boot → Option (Boot × Bool) → Boot × Bool
finished s (some r) = r
finished s none = (s, false)

module _ (L : Library) (P : Port) where
  unfoldable pub store_metadata : Boot → Boot × Bool
  store_metadata s = let (f, ok) = store L.pota P s.flash s.metadata in (record s { flash = f }, ok)

  -- `return change(metadata) ? ota_metadata_store(metadata) : false;`
  unfoldable pub change_and_store : Boot → Metadata × Bool → Boot × Bool
  change_and_store s (m, ok) =
      let changed = record s { metadata = m } in
      if ok then store_metadata changed else (changed, false)

  unfoldable pub store_copy_transaction : ℕ → ℕ → ℕ → Boot → Boot × Bool
  store_copy_transaction state written last_error s =
      let m = s.metadata in
      change_and_store s (
        if state == txn_started
        then L.pota.begin_copy_transaction m slot_b slot_a m.slot_b_size m.slot_b_crc32
        else L.pota.update_copy_transaction m state written last_error)

  unfoldable pub store_result : ℕ → Slot → Bool → Boot → Boot × Bool
  store_result result source clear_pending s =
      change_and_store s (L.pota.record_boot_result s.metadata result source clear_pending)

  unfoldable pub store_copy_failure : ℕ → ℕ → Boot → Boot × Bool
  store_copy_failure result written s =
      regardless (store_copy_transaction txn_failed written result s)
        (store_result result slot_b false)

  unfoldable pub program_chunk : ℕ → ℕ → ℕ → ℕ → Boot → Boot × Bool
  program_chunk src dst copied chunk s =
      let (f, ok) =
        program P s.flash (dst + copied) (copied_page s.flash (src + copied) chunk)
          (round_up chunk page_size) in
      (record s { flash = f }, ok)

  -- The progress is stored each time 64 KiB more are there, and at the end.
  unfoldable pub store_progress : Bool → ℕ → Boot → Boot × Bool
  store_progress due copied s =
      if due then store_copy_transaction txn_programming copied result_none s else (s, true)

  -- One round of the loop of `bootloader_copy_slot`.
  unfoldable pub copy_round : ℕ → ℕ → ℕ → ℕ → ℕ → Boot → Boot × Bool
  copy_round src dst size copied next s =
      let remain = size - copied in
      let chunk = if ltb page_size remain then page_size else remain in
      and_then (program_chunk src dst copied chunk s)
        (store_progress (leb next (copied + chunk) || leb size (copied + chunk)) (copied + chunk))

  -- The loop, on fuel: `none` says that the fuel ran out.
  unfoldable pub copy_rounds : ℕ → ℕ → ℕ → ℕ → ℕ → ℕ → Boot → Option (Boot × Bool)
  copy_rounds zero src dst size copied next s = none
  copy_rounds (suc fuel) src dst size copied next s =
      let remain = size - copied in
      let done = copied + (if ltb page_size remain then page_size else remain) in
      let stored = leb next done || leb size done in
      let further = if stored then next + progress_store_bytes else next in
      let (t, ok) = copy_round src dst size copied next s in
      let rest = copy_rounds fuel src dst size done further t in
      if not (ltb copied size) then some (s, true) else (if not ok then some (t, false) else rest)

  -- The erase, and the two states of the transaction that follow it.
  unfoldable pub erase_active : ℕ → ℕ → Boot → Boot × Bool
  erase_active dst size s =
      let (f, ok) = erase P s.flash dst (round_up size sector_size) in
      and_then (record s { flash = f }, ok)
        λ t.
          and_then (store_copy_transaction txn_erased_active 0 result_none t)
            (store_copy_transaction txn_programming 0 result_none)

  -- A round copies a byte at least, so that the size of the image is fuel enough.
  unfoldable pub copy_slot : Slot → Slot → ℕ → Boot → Boot × Bool
  copy_slot source destination size s =
      let src = partition_slot_offset source in
      let dst = partition_slot_offset destination in
      if (src == 0) || (dst == 0) || (size == 0) || ltb (partition_slot_size destination) size
      then (s, false)
      else and_then (erase_active dst size s)
          λ t. finished t (copy_rounds (size + 1) src dst size 0 progress_store_bytes t)

  unfoldable pub applied_done : Boot → Boot × Bool
  applied_done s = change_and_store s (L.pota.apply_copy_to_active_done s.metadata slot_b slot_a)

  -- From the staged image's check on.
  unfoldable pub verify_active : Boot → Boot × Bool
  verify_active s =
      let m = s.metadata in
      if not (validate_slot_as_slot_a L s.flash slot_a m.slot_b_size m.slot_b_crc32)
      then and_fail (store_copy_failure result_active_validate_failed m.slot_b_size s)
      else and_then (store_copy_transaction txn_done m.slot_b_size result_none s) applied_done

  unfoldable pub after_copy : Boot × Bool → Boot × Bool
  after_copy (t, false) = and_fail (store_copy_failure result_copy_failed t.metadata.copy_written t)
  after_copy (t, true) =
      and_then (store_copy_transaction txn_verifying t.metadata.slot_b_size result_none t)
        verify_active

  -- The attempt is counted if the library agrees; then the staged image is checked and copied.
  unfoldable pub attempt_copy : Boot → Boot × Bool
  attempt_copy s =
      let m = s.metadata in
      if not (validate_slot_as_slot_a L s.flash slot_b m.slot_b_size m.slot_b_crc32)
      then and_fail (store_copy_failure result_stage_validate_failed 0 s)
      else after_copy (copy_slot slot_b slot_a m.slot_b_size s)

  unfoldable pub count_attempt : Boot → Boot × Bool
  count_attempt s = change_and_store s (L.pota.increment_boot_attempts s.metadata)

  unfoldable pub apply_pending_image : Boot → Boot × Bool
  apply_pending_image s =
      let m = s.metadata in
      if m.pending_slot == slot_none
      then (s, false)
      else (if not (m.pending_slot == slot_b)
          then and_fail (store_result result_no_pending m.pending_slot true s)
          else (if (m.copy_txn_state == txn_done)
                && copy_transaction_matches m
                && validate_slot_as_slot_a L s.flash slot_a m.slot_b_size m.slot_b_crc32
              then applied_done s
              else (if (m.slot_b_size == 0) || leb max_boot_attempts m.boot_attempts
                  then and_fail (store_copy_failure result_max_attempts m.copy_written s)
                  else and_then (store_copy_transaction txn_started 0 result_none s)
                      λ t. regardless (count_attempt t) attempt_copy)))
