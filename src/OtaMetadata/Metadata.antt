-- ===== src/OtaMetadata/Metadata.antt =====
-- components/ota_manager/inc/ota_metadata.h and the older layout in src/ota_metadata.c: the record
-- in the flash, and the functions of the portable_ota library on it.
use hdrt.Prelude.{ℕ, Bool, Option, List}
use hdrt.Flash.{Bytes}
use hdrt.OtaMetadata.Partition.{Slot}

abbrev pub metadata_magic : ℕ
metadata_magic = 0x4F544D44

abbrev pub metadata_version : ℕ
metadata_version = 3

abbrev pub metadata_version_v2 : ℕ
metadata_version_v2 = 2

-- `ota_boot_mode_t`
abbrev pub mode_copy_to_active : ℕ
mode_copy_to_active = 0

abbrev pub mode_direct_ab : ℕ
mode_direct_ab = 1

-- `ota_metadata_t`, a digest of 32 bytes as one number
pub record Metadata : Type 0 where
  pub magic : ℕ
  pub version : ℕ
  pub sequence : ℕ
  pub active_slot : ℕ
  pub pending_slot : ℕ
  pub confirmed_slot : ℕ
  pub boot_attempts : ℕ
  pub rollback_count : ℕ
  pub slot_a_size : ℕ
  pub slot_a_crc32 : ℕ
  pub slot_a_sha256 : ℕ
  pub slot_b_size : ℕ
  pub slot_b_crc32 : ℕ
  pub slot_b_sha256 : ℕ
  pub last_boot_result : ℕ
  pub last_boot_source_slot : ℕ
  pub last_boot_size : ℕ
  pub last_boot_crc32 : ℕ
  pub metadata_crc32 : ℕ
  pub fault_injection_flags : ℕ
  pub copy_txn_state : ℕ
  pub copy_source_slot : ℕ
  pub copy_destination_slot : ℕ
  pub copy_size : ℕ
  pub copy_crc32 : ℕ
  pub copy_written : ℕ
  pub copy_attempts : ℕ
  pub copy_last_error : ℕ
  pub metadata_ext_crc32 : ℕ
  pub boot_mode : ℕ
  pub previous_slot : ℕ
  pub boot_generation : ℕ
  pub boot_capabilities : ℕ
  pub metadata_ab_crc32 : ℕ

-- `ota_metadata_v2_t`
pub record MetadataV2 : Type 0 where
  pub v2_magic : ℕ
  pub v2_version : ℕ
  pub v2_sequence : ℕ
  pub v2_active_slot : ℕ
  pub v2_pending_slot : ℕ
  pub v2_confirmed_slot : ℕ
  pub v2_boot_attempts : ℕ
  pub v2_rollback_count : ℕ
  pub v2_slot_a_size : ℕ
  pub v2_slot_a_crc32 : ℕ
  pub v2_slot_a_sha256 : ℕ
  pub v2_slot_b_size : ℕ
  pub v2_slot_b_crc32 : ℕ
  pub v2_slot_b_sha256 : ℕ
  pub v2_last_boot_result : ℕ
  pub v2_last_boot_source_slot : ℕ
  pub v2_last_boot_size : ℕ
  pub v2_last_boot_crc32 : ℕ
  pub v2_metadata_crc32 : ℕ

-- `sizeof(ota_metadata_t)`: 32 words and two digests
abbrev pub sizeof_metadata : ℕ
sizeof_metadata = 192

-- `sizeof(ota_metadata_v2_t)`: 17 words and two digests
abbrev pub sizeof_metadata_v2 : ℕ
sizeof_metadata_v2 = 132

-- The library's functions, by their names without `pota_metadata_`: one that changes the record it
-- is given returns it. The first four are how the compiler lays the two records out in memory;
-- `crc32_compute` is `pota_crc32_compute`, on the first bytes of an array; `default_direct_ab` is the
-- build's PROJECT_OTA_DEFAULT_BOOT_MODE_DIRECT_AB.
pub record Pota : Type 0 where
  pub bytes_of : Metadata → Bytes
  pub of_bytes : Bytes → Metadata
  pub v2_bytes_of : MetadataV2 → Bytes
  pub v2_of_bytes : Bytes → MetadataV2
  pub crc32_compute : Bytes → ℕ → ℕ
  pub update_crc : Metadata → Metadata
  pub is_valid : Metadata → Bool
  pub set_default : Metadata
  pub default_direct_ab : Bool
  pub upgrade_if_needed : Metadata → Metadata
  pub init_extension_defaults : Metadata → Metadata
  pub select_newest : List Metadata → Option Metadata
  pub mark_pending : Metadata → Slot → ℕ → ℕ → Metadata × Bool
  pub can_confirm_active : Metadata → Bool
  pub confirm_active : Metadata → Metadata × Bool
  pub set_boot_mode : Metadata → ℕ → Metadata × Bool
  pub set_fault_injection : Metadata → ℕ → Metadata × Bool
  pub begin_copy_transaction : Metadata → Slot → Slot → ℕ → ℕ → Metadata × Bool
  pub update_copy_transaction : Metadata → ℕ → ℕ → ℕ → Metadata × Bool
  pub finish_copy_transaction : Metadata → Metadata × Bool
  pub fail_copy_transaction : Metadata → ℕ → Metadata × Bool
  pub clear_copy_transaction : Metadata → Metadata × Bool
  pub record_boot_result : Metadata → ℕ → Slot → Bool → Metadata × Bool
  pub apply_copy_to_active_done : Metadata → Slot → Slot → Metadata × Bool
  pub apply_direct_ab_pending : Metadata → Slot → Metadata × Bool
  pub rollback_direct_ab : Metadata → ℕ → Slot → Slot → Metadata × Bool
  pub increment_boot_attempts : Metadata → Metadata × Bool
