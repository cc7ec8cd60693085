-- ===== src/OtaMetadata/Partition.antt =====
-- components/ota_manager/inc/ota_partition.h: the slots and where they lie in the flash. A slot is
-- its number, since the metadata may hold one that is no slot.
use hdrt.Prelude.{ℕ, ◌==◌, if◌then◌else◌}

abbrev pub Slot : Type 0
Slot = ℕ

abbrev pub slot_none : Slot
slot_none = 0

abbrev pub slot_a : Slot
slot_a = 1

abbrev pub slot_b : Slot
slot_b = 2

abbrev pub slot_a_offset : ℕ
slot_a_offset = 0x040000

abbrev pub slot_b_offset : ℕ
slot_b_offset = 0x1C0000

abbrev pub slot_size : ℕ
slot_size = 0x180000

abbrev pub metadata_offset : ℕ
metadata_offset = 0x340000

abbrev pub product_config_offset : ℕ
product_config_offset = 0x350000

unfoldable pub partition_slot_offset : Slot → ℕ
partition_slot_offset slot =
    if slot == slot_a then slot_a_offset else (if slot == slot_b then slot_b_offset else 0)

unfoldable pub partition_slot_size : Slot → ℕ
partition_slot_size slot =
    if slot == slot_a then slot_size else (if slot == slot_b then slot_size else 0)
