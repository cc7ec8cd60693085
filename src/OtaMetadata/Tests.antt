-- ===== src/OtaMetadata/Tests.antt =====
-- The theorems about ota_metadata.c at a concrete flash.
use hdrt.Prelude.{◌≡◌, inl, refl, some, arith}
use hdrt.Flash.{
  is_aligned, is_range_valid, read, erased_from, is_erased, equal_from, begin_write, end_write,
  erase_locked, erase, program_locked, program,
}
use hdrt.OtaMetadata.Copies.{
  copy_offset, v2_is_valid, from_legacy, checked_copy, load_copy, load, padded_page, program_pages,
  verify_copy, write_copy, store,
}
use hdrt.OtaMetadata.StoreLoad.{load-store}
use hdrt.OtaMetadata.TestData.{
  test_port, test_port-IsLocal, blank_flash, test_metadata, test_pota, test_pota-IsLayout,
  test_pota-SelectsNewest,
}

-- A blank flash takes the first record, and gives it back.
load-store_example :
    load test_pota (store test_pota test_port blank_flash test_metadata).0 ≡ some test_metadata
unfolding store write_copy program_pages padded_page verify_copy read erase program erase_locked
    program_locked begin_write end_write is_erased is_range_valid is_aligned equal_from erased_from
    copy_offset load_copy checked_copy from_legacy v2_is_valid
load-store_example =
    load-store test_pota test_port test_port-IsLocal test_pota-IsLayout blank_flash test_metadata
      test_pota-SelectsNewest refl (omega arith) refl (inl refl)
