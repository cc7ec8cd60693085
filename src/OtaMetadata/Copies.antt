-- ===== src/OtaMetadata/Copies.antt =====
-- components/ota_manager/src/ota_metadata.c: reading the newer of the two copies, and writing one.
use hdrt.Prelude.{
  ℕ, zero, suc, ◌+◌, ◌-◌, ◌%◌, Bool, true, false, ◌||◌, not, Option, none, some, [], ◌∷◌, ltb, ◌==◌,
  if◌then◌else◌,
}
use hdrt.Flash.{sector_size, page_size, Bytes, Port, Flash, read, equal_from, erase, program}
use hdrt.OtaMetadata.Metadata.{
  metadata_magic, metadata_version, metadata_version_v2, mode_direct_ab, Metadata, MetadataV2,
  sizeof_metadata, sizeof_metadata_v2, Pota,
}
use hdrt.OtaMetadata.Partition.{metadata_offset}

abbrev pub copy_size_bytes : ℕ
copy_size_bytes = sector_size

abbrev pub copy_count : ℕ
copy_count = 2

unfoldable pub copy_offset : ℕ → ℕ
copy_offset index = if index == 0 then metadata_offset else metadata_offset + copy_size_bytes

-- `memset` to zero, then the fields of the older record
unfoldable pub fields_of_v2 : MetadataV2 → Metadata
fields_of_v2 old = record {
  magic = old.v2_magic;
  version = metadata_version;
  sequence = old.v2_sequence;
  active_slot = old.v2_active_slot;
  pending_slot = old.v2_pending_slot;
  confirmed_slot = old.v2_confirmed_slot;
  boot_attempts = old.v2_boot_attempts;
  rollback_count = old.v2_rollback_count;
  slot_a_size = old.v2_slot_a_size;
  slot_a_crc32 = old.v2_slot_a_crc32;
  slot_a_sha256 = old.v2_slot_a_sha256;
  slot_b_size = old.v2_slot_b_size;
  slot_b_crc32 = old.v2_slot_b_crc32;
  slot_b_sha256 = old.v2_slot_b_sha256;
  last_boot_result = old.v2_last_boot_result;
  last_boot_source_slot = old.v2_last_boot_source_slot;
  last_boot_size = old.v2_last_boot_size;
  last_boot_crc32 = old.v2_last_boot_crc32;
  metadata_crc32 = 0;
  fault_injection_flags = 0;
  copy_txn_state = 0;
  copy_source_slot = 0;
  copy_destination_slot = 0;
  copy_size = 0;
  copy_crc32 = 0;
  copy_written = 0;
  copy_attempts = 0;
  copy_last_error = 0;
  metadata_ext_crc32 = 0;
  boot_mode = 0;
  previous_slot = 0;
  boot_generation = 0;
  boot_capabilities = 0;
  metadata_ab_crc32 = 0;
}

module _ (Q : Pota) where
  unfoldable pub v2_crc32 : MetadataV2 → ℕ
  v2_crc32 old =
      Q.crc32_compute (Q.v2_bytes_of (record old { v2_metadata_crc32 = 0 })) sizeof_metadata_v2

  unfoldable pub v2_is_valid : MetadataV2 → Bool
  v2_is_valid old =
      if not (old.v2_magic == metadata_magic) || not (old.v2_version == metadata_version_v2)
      then false
      else v2_crc32 old == old.v2_metadata_crc32

  unfoldable pub from_v2 : MetadataV2 → Metadata
  from_v2 old = Q.update_crc (Q.init_extension_defaults (fields_of_v2 old))

  unfoldable pub from_legacy : Metadata → Option Bytes → Metadata
  from_legacy copy none = copy
  from_legacy copy (some bytes) =
      let old = Q.v2_of_bytes bytes in if v2_is_valid old then from_v2 old else copy

  -- One round of the loop of `ota_metadata_load`, after the read of the copy: the copy that was
  -- read, or one of zeros.
  unfoldable pub checked_copy : Flash → ℕ → Option Bytes → Metadata
  checked_copy f i none =
      from_legacy (Q.of_bytes (λ k. 0)) (read f (copy_offset i) sizeof_metadata_v2)
  checked_copy f i (some bytes) =
      let copy = Q.of_bytes bytes in
      if Q.is_valid copy then copy else from_legacy copy (read f (copy_offset i) sizeof_metadata_v2)

  unfoldable pub load_copy : Flash → ℕ → Metadata
  load_copy f i = checked_copy f i (read f (copy_offset i) sizeof_metadata)

  -- `portable_ota_port_metadata_set_default`
  unfoldable pub default_metadata : Metadata
  default_metadata =
      if Q.default_direct_ab
      then (Q.set_boot_mode Q.set_default mode_direct_ab).0
      else Q.set_default

  unfoldable pub selected : Option Metadata → Metadata
  selected (some copy) = Q.upgrade_if_needed copy
  selected none = default_metadata

  -- The result is false only for a null pointer, which no caller passes: `none` stands for it.
  unfoldable pub load : Flash → Option Metadata
  load f = some (selected (Q.select_newest (load_copy f 0 ∷ load_copy f 1 ∷ [])))

  module _ (P : Port) where
    -- `page` after the `memset` and the `memcpy` of a round
    unfoldable pub padded_page : Bytes → ℕ → ℕ → Bytes
    padded_page src written chunk i = if ltb i chunk then src (written + i) else 0xff

    -- the loop of `ota_metadata_store`, which goes round once for each page of the record
    unfoldable pub program_pages : ℕ → Bytes → ℕ → ℕ → Flash → Flash × Bool
    program_pages zero src offset written f = (f, not (ltb written sizeof_metadata))
    program_pages (suc left) src offset written f =
        let rest = program_pages left src offset (written + page_size) in
        let chunk =
          if ltb page_size (sizeof_metadata - written)
          then page_size
          else sizeof_metadata - written in
        let (g, ok) = program P f (offset + written) (padded_page src written chunk) page_size in
        if not (ltb written sizeof_metadata)
        then (f, true)
        else (if not ok then (g, false) else rest g)

    unfoldable pub verify_copy : Metadata → ℕ → Flash → Bool
    verify_copy stored offset f = elim (read f offset sizeof_metadata) [
      | none ↦ false
      | some bytes ↦ equal_from bytes (Q.bytes_of stored) sizeof_metadata 0
    ]

    unfoldable pub write_copy : Metadata → ℕ → Flash × Bool → Flash × Bool
    write_copy stored offset (f, erased) =
        let (g, ok) = program_pages 1 (Q.bytes_of stored) offset 0 f in
        if not erased
        then (f, false)
        else (if not ok then (g, false) else (g, verify_copy stored offset g))

    unfoldable pub store : Flash → Metadata → Flash × Bool
    store f m =
        let stored = Q.update_crc m in
        let offset = copy_offset (stored.sequence % copy_count) in
        write_copy stored offset (erase P f offset copy_size_bytes)
