-- ===== src/ProductConfig/Tests.antt =====
-- The theorems about product_config.c at a concrete flash.
use hdrt.Prelude.{
  ℕ, ◌+◌, ◌-◌, ◌<◌, ◌≡◌, ◌↔◌, ◌⊎◌, refl, true, false, ◌&&◌, some, List, [], ◌∷◌, map, leb,
  if◌then◌else◌,
}
use hdrt.Flash.{
  Bytes, is_aligned, is_range_valid, read, erased_from, is_erased, equal_from, begin_write,
  end_write, erase_locked, erase, program_locked, program,
}
use hdrt.OtaMetadata.TestData.{test_port, blank_flash, number_at}
use hdrt.ProductConfig.{
  mode_usbtmc, ConfigRecord, Runtime, Store, usb_mode_is_valid, usb_mode_to_string,
  default_usb_mode, config_crc32, record_is_valid, with_crc32, config_set_default, loaded_record,
  read_record, next_record, record_page, take_over, program_record, set_usb_mode,
  usb_mode_from_text,
}
use hdrt.ProductConfig.Names.{Names, from_text_iff}
use hdrt.ProductConfig.Saved.{SetOutcome, set_usb_mode-SetOutcome}

abbrev test_record_of : Bytes → ConfigRecord
test_record_of b = record {
  magic = b 0;
  version = b 1;
  sequence = b 2;
  usb_mode = b 3;
  reserved = b 4;
  crc32 = b 5;
}

abbrev test_runtime : Runtime
test_runtime = record {
  record_bytes =
      λ r. number_at (r.magic ∷ r.version ∷ r.sequence ∷ r.usb_mode ∷ r.reserved ∷ r.crc32 ∷ []);
  record_of = test_record_of;
  crc32_compute = λ b n. b 2 + b 3;
  toupper = λ c. if leb 97 c && leb c 122 then c - 32 else c;
  default_usbtmc = false;
}

abbrev blank_store : Store
blank_store = record { current = test_record_of (λ i. 0); chip = blank_flash }

set_usb_mode-SetOutcome_example :
    SetOutcome test_runtime mode_usbtmc blank_store
      (set_usb_mode test_runtime test_port mode_usbtmc blank_store)
set_usb_mode-SetOutcome_example =
    set_usb_mode-SetOutcome test_runtime test_port mode_usbtmc blank_store

from_text_iff_example :
    let text : List ℕ = b't' ∷ b'M' ∷ b'c' ∷ [] in
    ((usb_mode_from_text test_runtime (some text) ≡ some mode_usbtmc)
      ↔ Names (map test_runtime.toupper text) mode_usbtmc)
    × (Names (usb_mode_to_string mode_usbtmc) mode_usbtmc
        ⊎ ((1 < mode_usbtmc)
            × (usb_mode_to_string mode_usbtmc
                ≡ b'U' ∷ b'N' ∷ b'K' ∷ b'N' ∷ b'O' ∷ b'W' ∷ b'N' ∷ [])))
from_text_iff_example = from_text_iff test_runtime (b't' ∷ b'M' ∷ b'c' ∷ []) mode_usbtmc

-- On a blank flash the mode is set.
set_on_blank : (set_usb_mode test_runtime test_port mode_usbtmc blank_store).1 ≡ true
unfolding set_usb_mode program_record take_over next_record with_crc32 config_crc32 record_is_valid
    usb_mode_is_valid config_set_default default_usb_mode record_page read_record loaded_record read
    erase program erase_locked program_locked begin_write end_write is_erased is_range_valid
    is_aligned equal_from erased_from
set_on_blank = refl
