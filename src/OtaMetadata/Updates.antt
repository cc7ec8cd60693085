-- ===== src/OtaMetadata/Updates.antt =====
-- components/ota_manager/src/ota_metadata.c: the updates, each of which loads the metadata, lets the
-- library change them and stores them.
use hdrt.Prelude.{ℕ, ◌+◌, ◌%◌, ◌^◌, Bool, false, not, Option, none, some, leb, if◌then◌else◌}
use hdrt.Flash.{Port, Flash, erase}
use hdrt.OtaMetadata.Metadata.{Metadata, Pota}
use hdrt.OtaMetadata.Copies.{copy_size_bytes, copy_count, copy_offset, load, store}

module _ (Q : Pota) (P : Port) where
  unfoldable pub store_changed : Flash → Metadata × Bool → Flash × Bool
  store_changed f (m, ok) = if not ok then (f, false) else store Q P f m

  unfoldable pub updated : (Metadata → Metadata × Bool) → Flash → Option Metadata → Flash × Bool
  updated change f none = (f, false)
  updated change f (some m) = store_changed f (change m)

  unfoldable pub metadata_mark_pending : ℕ → ℕ → ℕ → Flash → Flash × Bool
  metadata_mark_pending slot size crc f = updated (λ m. Q.mark_pending m slot size crc) f (load Q f)

  unfoldable pub metadata_confirm_active : Flash → Flash × Bool
  metadata_confirm_active f = updated (λ m. Q.confirm_active m) f (load Q f)

  unfoldable pub metadata_set_boot_mode : ℕ → Flash → Flash × Bool
  metadata_set_boot_mode mode f = updated (λ m. Q.set_boot_mode m mode) f (load Q f)

  unfoldable pub metadata_set_fault_injection : ℕ → Flash → Flash × Bool
  metadata_set_fault_injection flags f = updated (λ m. Q.set_fault_injection m flags) f (load Q f)

  unfoldable pub metadata_begin_copy_transaction : ℕ → ℕ → ℕ → ℕ → Flash → Flash × Bool
  metadata_begin_copy_transaction source destination size crc f =
      updated (λ m. Q.begin_copy_transaction m source destination size crc) f (load Q f)

  unfoldable pub metadata_update_copy_transaction : ℕ → ℕ → ℕ → Flash → Flash × Bool
  metadata_update_copy_transaction state written last_error f =
      updated (λ m. Q.update_copy_transaction m state written last_error) f (load Q f)

  unfoldable pub metadata_finish_copy_transaction : Flash → Flash × Bool
  metadata_finish_copy_transaction f = updated (λ m. Q.finish_copy_transaction m) f (load Q f)

  unfoldable pub metadata_fail_copy_transaction : ℕ → Flash → Flash × Bool
  metadata_fail_copy_transaction last_error f =
      updated (λ m. Q.fail_copy_transaction m last_error) f (load Q f)

  unfoldable pub metadata_clear_copy_transaction : Flash → Flash × Bool
  metadata_clear_copy_transaction f = updated (λ m. Q.clear_copy_transaction m) f (load Q f)

  unfoldable pub metadata_corrupt_copy : ℕ → Flash → Flash × Bool
  metadata_corrupt_copy index f =
      if leb copy_count index then (f, false) else erase P f (copy_offset index) copy_size_bytes

  unfoldable pub next_sequence : Metadata → Metadata
  next_sequence m = Q.update_crc (record m { sequence = (m.sequence + 1) % 2 ^ 32 })

  unfoldable pub repair : Flash → Option Metadata → Flash × Bool
  repair f none = (f, false)
  repair f (some m) =
      let first = next_sequence m in
      let (g, ok) = store Q P f first in
      if not ok then (g, false) else store Q P g (next_sequence first)

  -- Writes both copies, with the two sequence numbers that follow.
  unfoldable pub metadata_repair_copies : Flash → Flash × Bool
  metadata_repair_copies f = repair f (load Q f)
