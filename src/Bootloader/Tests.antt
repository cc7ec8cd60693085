-- ===== src/Bootloader/Tests.antt =====
-- The theorems about bootloader_main.c at a concrete flash.
use hdrt.Prelude.{◌+◌, ◌≡◌, inl, inr, refl, Bool, true, ◌&&◌, some, ltb, leb, if◌then◌else◌, arith}
use hdrt.Flash.{
  is_aligned, is_range_valid, read, erased_from, is_erased, equal_from, begin_write, end_write,
  erase_locked, erase, program_locked, program,
}
use hdrt.OtaMetadata.Partition.{
  slot_a, slot_b, slot_a_offset, slot_b_offset, metadata_offset, partition_slot_offset,
  partition_slot_size,
}
use hdrt.OtaMetadata.Copies.{
  copy_offset, padded_page, program_pages, verify_copy, write_copy, store,
}
use hdrt.OtaMetadata.TestData.{test_port, test_port-IsLocal, blank_flash, test_metadata, test_pota}
use hdrt.Bootloader.Images.{Library}
use hdrt.Bootloader.Copy.{
  Boot, round_up, copied_page, store_metadata, change_and_store, store_copy_transaction,
  program_chunk, store_progress, copy_round, copy_rounds, erase_active, copy_slot,
}
use hdrt.Bootloader.Main.{main}
use hdrt.Bootloader.Frame.{main_spares}
use hdrt.Bootloader.Copied.{copy_rounds_total, copy_slot_copies}
use hdrt.Bootloader.Jump.{Justified, main-Justified}

abbrev test_library : Library
test_library = record { pota = test_pota; app_vector_valid = λ b o size run. true }

-- Slot B holds 7 at every offset, and four bytes are to be copied.
abbrev staged : Boot
staged = record {
  flash = record blank_flash {
    memory = λ i. if leb slot_b_offset i && ltb i metadata_offset then 7 else 0xff;
  };
  metadata = record test_metadata { pending_slot = slot_b; slot_b_size = 4; slot_b_crc32 = 7 };
}

main_spares_example : (main test_library test_port staged.flash).end_flash.memory slot_b_offset ≡ 7
main_spares_example =
    main_spares test_library test_port staged.flash slot_b_offset test_port-IsLocal
      (inr (omega arith, inl (omega arith)))

main-Justified_example : Justified test_library (main test_library test_port staged.flash)
main-Justified_example = main-Justified test_library test_port staged.flash

copy_rounds_total_example :
    (r : Boot × Bool) × (copy_rounds test_library test_port 5 slot_b_offset slot_a_offset 4 0 65536
        staged
      ≡ some r)
copy_rounds_total_example =
    copy_rounds_total test_library test_port 5 slot_b_offset slot_a_offset 4 0 65536 staged
      (omega arith)

copy_slot_copies_example :
    let after = (copy_slot test_library test_port slot_b slot_a 4 staged).0.flash in
    (after.memory (slot_a_offset + 3) ≡ 7) × (after.memory (slot_b_offset + 3) ≡ 7)
unfolding copy_slot erase_active copy_rounds copy_round program_chunk store_progress
    store_copy_transaction change_and_store store_metadata round_up copied_page
    partition_slot_offset partition_slot_size store write_copy program_pages padded_page verify_copy
    read erase program erase_locked program_locked begin_write end_write is_erased is_range_valid
    is_aligned equal_from erased_from copy_offset
copy_slot_copies_example =
    copy_slot_copies test_library test_port test_port-IsLocal 4 3 staged refl (omega arith)
