-- ===== src/Bootloader/Images.antt =====
-- bootloader/src/bootloader_main.c: whether a slot holds an image that may run.
use hdrt.Prelude.{
  ℕ, ◌+◌, ◌*◌, ◌^◌, Bool, false, ◌&&◌, ◌||◌, not, Option, none, some, ltb, leb, ◌==◌, if◌then◌else◌,
  bit_and,
}
use hdrt.Flash.{total_size, Bytes, Flash, read}
use hdrt.OtaMetadata.Metadata.{Metadata, Pota}
use hdrt.OtaMetadata.Partition.{
  Slot, slot_a, slot_b, slot_a_offset, partition_slot_offset, partition_slot_size,
}

abbrev pub sram_base : ℕ
sram_base = 0x20000000

abbrev pub sram_end : ℕ
sram_end = 0x20082000

-- `app_vector_valid` is the library's `pota_image_validate_app_vector`, which reads the flash
-- through `drv_flash_read`: the image's offset, its size and the offset it runs at.
pub record Library : Type 0 where
  pub pota : Pota
  pub app_vector_valid : Bytes → ℕ → ℕ → ℕ → Bool

unfoldable pub slot_is_valid : Slot → Bool
slot_is_valid slot = (slot == slot_a) || (slot == slot_b)

unfoldable pub metadata_slot_size : Metadata → Slot → ℕ
metadata_slot_size m slot =
    if slot == slot_a then m.slot_a_size else (if slot == slot_b then m.slot_b_size else 0)

unfoldable pub metadata_slot_crc32 : Metadata → Slot → ℕ
metadata_slot_crc32 m slot =
    if slot == slot_a then m.slot_a_crc32 else (if slot == slot_b then m.slot_b_crc32 else 0)

-- a little-endian `uint32_t` at an offset
unfoldable pub word_at : Bytes → ℕ → ℕ
word_at bytes o = bytes o + 2 ^ 8 * bytes (o + 1) + 2 ^ 16 * bytes (o + 2) + 2 ^ 24 * bytes (o + 3)

-- The two words are a stack pointer in the RAM and an odd entry address.
unfoldable pub vector_words_valid : Option Bytes → Bool
vector_words_valid none = false
vector_words_valid (some vector) =
    if ltb (word_at vector 0) sram_base || ltb sram_end (word_at vector 0)
    then false
    else not (bit_and (word_at vector 4) 1 == 0)

unfoldable pub app_vector_is_valid : Flash → ℕ → Bool
app_vector_is_valid f vector_offset = vector_words_valid (read f vector_offset 8)

module _ (L : Library) where
  unfoldable pub validate_slot_at_run_offset : Flash → Slot → ℕ → ℕ → ℕ → Bool
  validate_slot_at_run_offset f slot image_size image_crc32 run_offset =
      let o = partition_slot_offset slot in
      if (o == 0) || (image_size == 0) || ltb (partition_slot_size slot) image_size
      then false
      else (if not (L.app_vector_valid f.memory o image_size run_offset)
          then false
          else (if leb total_size o
              then false
              else L.pota.crc32_compute (λ i. f.memory (o + i)) image_size == image_crc32))

  unfoldable pub validate_slot_as_slot_a : Flash → Slot → ℕ → ℕ → Bool
  validate_slot_as_slot_a f slot image_size image_crc32 =
      validate_slot_at_run_offset f slot image_size image_crc32 slot_a_offset

  unfoldable pub validate_slot_direct : Flash → Metadata → Slot → Bool
  validate_slot_direct f m slot =
      validate_slot_at_run_offset f slot (metadata_slot_size m slot) (metadata_slot_crc32 m slot)
        (partition_slot_offset slot)

  unfoldable pub direct_slot_is_bootable : Flash → Metadata → Slot → Bool
  direct_slot_is_bootable f m slot =
      if not (slot_is_valid slot)
      then false
      else (if not (metadata_slot_size m slot == 0)
          then validate_slot_direct f m slot
          else app_vector_is_valid f (partition_slot_offset slot))

  unfoldable pub active_app_is_valid : Flash → Option Metadata → Bool
  active_app_is_valid f none = app_vector_is_valid f slot_a_offset
  active_app_is_valid f (some m) =
      if (m.active_slot == slot_a) && not (m.slot_a_size == 0)
      then validate_slot_as_slot_a f slot_a m.slot_a_size m.slot_a_crc32
      else app_vector_is_valid f slot_a_offset

  unfoldable pub direct_active_app_is_valid : Flash → Metadata → Bool
  direct_active_app_is_valid f m = direct_slot_is_bootable f m m.active_slot
