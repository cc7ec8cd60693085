-- ===== src/ProductConfig.antt =====
-- components/product_config/src/product_config.c: the USB mode that the device keeps in the flash.
-- The static record and the flash are a `Store`. How the compiler lays the record out, the CRC-32 of
-- the portable_ota library and `toupper` are the record `Runtime`. A text is its character codes.
pub mod Saved
pub mod Names
mod Tests
use hdrt.Prelude.{
  ℕ, ◌+◌, ◌%◌, ◌^◌, Bool, true, false, ◌||◌, not, Option, none, some, List, [], ◌∷◌, ltb, ◌==◌,
  if◌then◌else◌,
}
use hdrt.Flash.{sector_size, page_size, Bytes, Port, Flash, read, erase, program}
use hdrt.OtaMetadata.Partition.{product_config_offset}

abbrev pub config_magic : ℕ
config_magic = 0x47544346

abbrev pub config_version : ℕ
config_version = 1

-- `product_config_usb_mode_t`
abbrev pub mode_cdc : ℕ
mode_cdc = 0

abbrev pub mode_usbtmc : ℕ
mode_usbtmc = 1

-- `product_config_record_t`, its eleven reserved words as one number
pub record ConfigRecord : Type 0 where
  pub magic : ℕ
  pub version : ℕ
  pub sequence : ℕ
  pub usb_mode : ℕ
  pub reserved : ℕ
  pub crc32 : ℕ

abbrev pub sizeof_record : ℕ
sizeof_record = 64

-- `default_usbtmc` is PROJECT_USB_DEFAULT_MODE_USBTMC.
pub record Runtime : Type 0 where
  pub record_bytes : ConfigRecord → Bytes
  pub record_of : Bytes → ConfigRecord
  pub crc32_compute : Bytes → ℕ → ℕ
  pub toupper : ℕ → ℕ
  pub default_usbtmc : Bool

-- `s_product_config`, and the flash
pub record Store : Type 0 where
  pub current : ConfigRecord
  pub chip : Flash

unfoldable pub usb_mode_is_valid : ℕ → Bool
usb_mode_is_valid mode = (mode == mode_cdc) || (mode == mode_usbtmc)

-- `strlen` and the loop of `product_config_text_equals`
unfoldable pub text_equals : (ℕ → ℕ) → List ℕ → List ℕ → Bool
text_equals upper [] [] = true
text_equals upper [] (e ∷ es) = false
text_equals upper (c ∷ cs) [] = false
text_equals upper (c ∷ cs) (e ∷ es) =
    let rest = text_equals upper cs es in if not (upper c == e) then false else rest

unfoldable pub usb_mode_to_string : ℕ → List ℕ
usb_mode_to_string mode =
    if mode == mode_cdc
    then b'C' ∷ b'D' ∷ b'C' ∷ []
    else (if mode == mode_usbtmc
        then b'U' ∷ b'S' ∷ b'B' ∷ b'T' ∷ b'M' ∷ b'C' ∷ []
        else b'U' ∷ b'N' ∷ b'K' ∷ b'N' ∷ b'O' ∷ b'W' ∷ b'N' ∷ [])

module _ (R : Runtime) where
  unfoldable pub default_usb_mode : ℕ
  default_usb_mode = if R.default_usbtmc then mode_usbtmc else mode_cdc

  unfoldable pub config_crc32 : ConfigRecord → ℕ
  config_crc32 r = R.crc32_compute (R.record_bytes (record r { crc32 = 0 })) sizeof_record

  unfoldable pub record_is_valid : ConfigRecord → Bool
  record_is_valid r =
      if not (r.magic == config_magic)
        || not (r.version == config_version)
        || not (usb_mode_is_valid r.usb_mode)
      then false
      else config_crc32 r == r.crc32

  unfoldable pub with_crc32 : ConfigRecord → ConfigRecord
  with_crc32 r = record r { crc32 = config_crc32 r }

  unfoldable pub config_set_default : ConfigRecord
  config_set_default = with_crc32 (record {
    magic = config_magic;
    version = config_version;
    sequence = 0;
    usb_mode = default_usb_mode;
    reserved = 0;
    crc32 = 0;
  })

  unfoldable pub loaded_record : Option Bytes → Option ConfigRecord
  loaded_record none = none
  loaded_record (some bytes) =
      let r = R.record_of bytes in if record_is_valid r then some r else none

  -- `drv_flash_read(...) && product_config_record_is_valid(...)`
  unfoldable pub read_record : Flash → Option ConfigRecord
  read_record f = loaded_record (read f product_config_offset sizeof_record)

  unfoldable pub or_default : Option ConfigRecord → ConfigRecord
  or_default (some r) = r
  or_default none = config_set_default

  unfoldable pub product_config_init : Store → Store × Bool
  product_config_init s = (record s { current = or_default (read_record s.chip) }, true)

  -- The pointer to store the mode in is never null.
  unfoldable pub get_usb_mode : Store → Store × ℕ
  get_usb_mode s =
      let t =
        if not (usb_mode_is_valid s.current.usb_mode)
        then record s { current = config_set_default }
        else s in
      (t, t.current.usb_mode)

  -- the record that `product_config_set_usb_mode` writes
  unfoldable pub next_record : ℕ → ConfigRecord → ConfigRecord
  next_record mode r =
      let base = if not (record_is_valid r) then config_set_default else r in
      with_crc32 (record base {
        magic = config_magic;
        version = config_version;
        sequence = (base.sequence + 1) % 2 ^ 32;
        usb_mode = mode;
      })

  unfoldable pub record_page : ConfigRecord → Bytes
  record_page r i = if ltb i sizeof_record then R.record_bytes r i else 0xff

  -- From the read-back on.
  unfoldable pub take_over : ℕ → Store → Option ConfigRecord → Store × Bool
  take_over mode s none = (s, false)
  take_over mode s (some r) =
      if not (r.usb_mode == mode) then (s, false) else (record s { current = r }, true)

  module _ (P : Port) where
    unfoldable pub program_record : ℕ → ConfigRecord → Store → Flash × Bool → Store × Bool
    program_record mode r s (f, erased) =
        let (g, ok) = program P f product_config_offset (record_page r) page_size in
        if not erased
        then (record s { chip = f }, false)
        else (if not ok
            then (record s { chip = g }, false)
            else take_over mode (record s { chip = g }) (read_record g))

    unfoldable pub set_usb_mode : ℕ → Store → Store × Bool
    set_usb_mode mode s =
        if not (usb_mode_is_valid mode)
        then (s, false)
        else program_record mode (next_record mode s.current) s
            (erase P s.chip product_config_offset sector_size)

  -- The pointer to store the mode in is never null; `none` is a null text.
  unfoldable pub usb_mode_from_text : Option (List ℕ) → Option ℕ
  usb_mode_from_text none = none
  usb_mode_from_text (some text) =
      if text_equals R.toupper text (b'C' ∷ b'D' ∷ b'C' ∷ [])
      then some mode_cdc
      else (if text_equals R.toupper text (b'U' ∷ b'S' ∷ b'B' ∷ b'T' ∷ b'M' ∷ b'C' ∷ [])
            || text_equals R.toupper text (b'T' ∷ b'M' ∷ b'C' ∷ [])
          then some mode_usbtmc
          else none)
