-- ===== src/OtaMetadata/TestData.antt =====
-- Concrete instances of what ota_metadata.c and drv_flash.c call: a flash chip that writes what it is
-- told, and a library that never refuses, on records in little-endian bytes.
use hdrt.Prelude.{
  ℕ, zero, suc, ◌+◌, ◌-◌, ◌^◌, ◌<◌, ◌≡◌, ◌∙◌, refl, ap, Bool, true, false, ◌&&◌, ◌||◌, not, Option,
  none, some, List, [], ◌∷◌, ltb, leb, ◌==◌, if◌then◌else◌, arith,
}
use hdrt.Flash.{Bytes, Port, Flash}
use hdrt.Flash.Frame.{IsLocal}
use hdrt.OtaMetadata.Layout.{
  fields, encode, decode, widths, values, decode-encode, AllBytes, encode-AllBytes,
}
use hdrt.OtaMetadata.Metadata.{metadata_magic, metadata_version, Metadata, MetadataV2, Pota}
use hdrt.OtaMetadata.Partition.{slot_none, slot_a}
use hdrt.OtaMetadata.StoreLoad.{IsLayout, SelectsNewest}

abbrev between : ℕ → ℕ → ℕ → Bool
between o n i = leb o i && ltb i (o + n)

abbrev pub test_port : Port
test_port = record {
  multicore = false;
  acknowledged = λ n i. false;
  range_erase = λ m o n i. if between o n i then 0xff else m i;
  range_program = λ m o bytes n i. if between o n i then bytes (i - o) else m i;
}

pub test_port-IsLocal : IsLocal test_port
test_port-IsLocal = record {
  erase_local = λ m o n i h. ground (arith, h);
  program_local = λ m o bytes n i h. ground (arith, h);
}

abbrev pub blank_flash : Flash
blank_flash = record {
  memory = λ i. 0xff;
  lockout_online = false;
  lockout_request = false;
  writes = 0;
}

abbrev pub number_at : List ℕ → ℕ → ℕ
number_at [] i = 0
number_at (x ∷ xs) zero = x
number_at (x ∷ xs) (suc i) = number_at xs i

abbrev test_bytes : Metadata → Bytes
test_bytes m = number_at (encode (fields m))

abbrev fields_from : Bytes → Metadata
fields_from b = record {
  magic = b 0;
  version = b 1;
  sequence = b 2;
  active_slot = b 3;
  pending_slot = b 4;
  confirmed_slot = b 5;
  boot_attempts = b 6;
  rollback_count = b 7;
  slot_a_size = b 8;
  slot_a_crc32 = b 9;
  slot_a_sha256 = b 10;
  slot_b_size = b 11;
  slot_b_crc32 = b 12;
  slot_b_sha256 = b 13;
  last_boot_result = b 14;
  last_boot_source_slot = b 15;
  last_boot_size = b 16;
  last_boot_crc32 = b 17;
  metadata_crc32 = b 18;
  fault_injection_flags = b 19;
  copy_txn_state = b 20;
  copy_source_slot = b 21;
  copy_destination_slot = b 22;
  copy_size = b 23;
  copy_crc32 = b 24;
  copy_written = b 25;
  copy_attempts = b 26;
  copy_last_error = b 27;
  metadata_ext_crc32 = b 28;
  boot_mode = b 29;
  previous_slot = b 30;
  boot_generation = b 31;
  boot_capabilities = b 32;
  metadata_ab_crc32 = b 33;
}

abbrev v2_fields_from : Bytes → MetadataV2
v2_fields_from b = record {
  v2_magic = b 0;
  v2_version = b 1;
  v2_sequence = b 2;
  v2_active_slot = b 3;
  v2_pending_slot = b 4;
  v2_confirmed_slot = b 5;
  v2_boot_attempts = b 6;
  v2_rollback_count = b 7;
  v2_slot_a_size = b 8;
  v2_slot_a_crc32 = b 9;
  v2_slot_a_sha256 = b 10;
  v2_slot_b_size = b 11;
  v2_slot_b_crc32 = b 12;
  v2_slot_b_sha256 = b 13;
  v2_last_boot_result = b 14;
  v2_last_boot_source_slot = b 15;
  v2_last_boot_size = b 16;
  v2_last_boot_crc32 = b 17;
  v2_metadata_crc32 = b 18;
}

abbrev bytes_from : Bytes → ℕ → ℕ → List ℕ
bytes_from b zero i = []
bytes_from b (suc n) i = b i ∷ bytes_from b n (i + 1)

bytes_from_local :
    (b c : Bytes) (n i : ℕ)
    → ((k : ℕ) → k < i + n → b k ≡ c k)
    → bytes_from b n i ≡ bytes_from c n i
bytes_from_local b c zero i h = refl
bytes_from_local b c (suc n) i h =
    rw (h i (omega arith))
      (ap (λ l. c i ∷ l) (bytes_from_local b c n (i + 1) λ k t. h k (omega (arith, t))))

abbrev test_metadata_of : Bytes → Metadata
test_metadata_of b =
    fields_from (number_at (decode (widths (fields (fields_from b))) (bytes_from b 192 0)))

-- The older record is the first 19 fields.
abbrev test_v2_of : Bytes → MetadataV2
test_v2_of b =
    v2_fields_from (number_at (decode (widths (fields (fields_from b))) (bytes_from b 132 0)))

-- Version 3 is valid.
abbrev test_valid : Metadata → Bool
test_valid m = m.version == metadata_version

-- The valid one, or the later of two.
abbrev test_newest : List Metadata → Option Metadata
test_newest (a ∷ b ∷ []) =
    if test_valid a && (not (test_valid b) || ltb b.sequence a.sequence)
    then some a
    else (if test_valid b then some b else none)
test_newest _ = none

abbrev pub test_metadata : Metadata
test_metadata = record (fields_from (λ i. 0)) {
  magic = metadata_magic;
  version = metadata_version;
  active_slot = slot_a;
  confirmed_slot = slot_a;
}

abbrev pub test_pota : Pota
test_pota = record {
  bytes_of = test_bytes;
  of_bytes = test_metadata_of;
  v2_bytes_of = λ m i. 0;
  v2_of_bytes = test_v2_of;
  crc32_compute = λ b n. b 0;
  update_crc = λ m. m;
  is_valid = test_valid;
  set_default = test_metadata;
  default_direct_ab = true;
  upgrade_if_needed = λ m. m;
  init_extension_defaults = λ m. m;
  select_newest = test_newest;
  mark_pending = λ m slot size crc. (
    record m {
      sequence = m.sequence + 1;
      pending_slot = slot;
      slot_b_size = size;
      slot_b_crc32 = crc;
    },
    true,
  );
  can_confirm_active = λ m. true;
  confirm_active =
      λ m. (record m { sequence = m.sequence + 1; confirmed_slot = m.active_slot }, true);
  set_boot_mode = λ m mode. (record m { boot_mode = mode }, true);
  set_fault_injection = λ m flags. (record m { fault_injection_flags = flags }, true);
  begin_copy_transaction = λ m from to size crc. (record m { copy_txn_state = 1 }, true);
  update_copy_transaction =
      λ m state written error. (record m { copy_txn_state = state; copy_written = written }, true);
  finish_copy_transaction = λ m. (record m { copy_txn_state = 5 }, true);
  fail_copy_transaction = λ m error. (record m { copy_txn_state = 6 }, true);
  clear_copy_transaction = λ m. (record m { copy_txn_state = 0 }, true);
  record_boot_result = λ m result slot clear. (record m { last_boot_result = result }, true);
  apply_copy_to_active_done = λ m from to. (record m { pending_slot = slot_none }, true);
  apply_direct_ab_pending = λ m slot. (record m { active_slot = slot }, true);
  rollback_direct_ab = λ m reason failed slot. (record m { active_slot = slot }, true);
  increment_boot_attempts = λ m. (record m { boot_attempts = m.boot_attempts + 1 }, true);
}

number_at-lt : (l : List ℕ) (i : ℕ) → AllBytes l → number_at l i < 2 ^ 8
number_at-lt [] i h = omega arith
number_at-lt (x ∷ xs) zero h = h.0
number_at-lt (x ∷ xs) (suc i) h = number_at-lt xs i (h.1)

-- The record takes 192 bytes.
bytes_from-encode :
    (m : Metadata) → bytes_from (number_at (encode (fields m))) 192 0 ≡ encode (fields m)
bytes_from-encode m = refl

fields_from-values : (m : Metadata) → fields_from (number_at (values (fields m))) ≡ m
fields_from-values m = refl

pub test_pota-IsLayout : IsLayout test_pota
test_pota-IsLayout = record {
  bytes_of-lt = λ m i. number_at-lt (encode (fields m)) i (encode-AllBytes (fields m));
  of_bytes-bytes_of = λ m h.
      ap (λ l. fields_from (number_at (decode (widths (fields m)) l))) (bytes_from-encode m)
      ∙ ap (λ l. fields_from (number_at l)) (decode-encode (fields m) h)
      ∙ fields_from-values m;
  of_bytes_local = λ b c h.
      ap (λ l. fields_from (number_at (decode (widths (fields test_metadata)) l)))
        (bytes_from_local b c 192 0 λ k t. h k (omega (arith, t)));
  v2_of_bytes_local = λ b c h.
      ap (λ l. v2_fields_from (number_at (decode (widths (fields test_metadata)) l)))
        (bytes_from_local b c 132 0 λ k t. h k (omega (arith, t)));
}

pub test_pota-SelectsNewest : SelectsNewest test_pota
test_pota-SelectsNewest = record {
  newest_first = λ a b v o. ground (arith, v, o);
  newest_second = λ a b v o. ground (arith, v, o);
}
