-- ===== src/OtaMetadata/Layout.antt =====
-- components/ota_manager/inc/ota_metadata.h: the fields of `ota_metadata_t` in their order, with the
-- bytes that each takes, and little-endian bytes.
use hdrt.Prelude.{ℕ, zero, suc, ◌+◌, ◌*◌, ◌/◌, ◌%◌, ◌^◌, ◌<◌, ◌≡◌, refl, ap, List, [], ◌∷◌, arith}
use hdrt.OtaMetadata.Metadata.{Metadata}

-- the fields with their widths in bytes
abbrev pub fields : Metadata → List (ℕ × ℕ)
fields m =
    (m.magic, 4)
    ∷ (m.version, 4)
    ∷ (m.sequence, 4)
    ∷ (m.active_slot, 4)
    ∷ (m.pending_slot, 4)
    ∷ (m.confirmed_slot, 4)
    ∷ (m.boot_attempts, 4)
    ∷ (m.rollback_count, 4)
    ∷ (m.slot_a_size, 4)
    ∷ (m.slot_a_crc32, 4)
    ∷ (m.slot_a_sha256, 32)
    ∷ (m.slot_b_size, 4)
    ∷ (m.slot_b_crc32, 4)
    ∷ (m.slot_b_sha256, 32)
    ∷ (m.last_boot_result, 4)
    ∷ (m.last_boot_source_slot, 4)
    ∷ (m.last_boot_size, 4)
    ∷ (m.last_boot_crc32, 4)
    ∷ (m.metadata_crc32, 4)
    ∷ (m.fault_injection_flags, 4)
    ∷ (m.copy_txn_state, 4)
    ∷ (m.copy_source_slot, 4)
    ∷ (m.copy_destination_slot, 4)
    ∷ (m.copy_size, 4)
    ∷ (m.copy_crc32, 4)
    ∷ (m.copy_written, 4)
    ∷ (m.copy_attempts, 4)
    ∷ (m.copy_last_error, 4)
    ∷ (m.metadata_ext_crc32, 4)
    ∷ (m.boot_mode, 4)
    ∷ (m.previous_slot, 4)
    ∷ (m.boot_generation, 4)
    ∷ (m.boot_capabilities, 4)
    ∷ (m.metadata_ab_crc32, 4)
    ∷ []

-- Each number fits its bytes.
abbrev pub AllFit : List (ℕ × ℕ) → Type 0
AllFit [] = Unit {0}
AllFit ((v, w) ∷ fs) = (v < 256 ^ w) × AllFit fs

-- A record that the C type can hold.
abbrev pub IsWords : Metadata → Type 0
IsWords m = AllFit (fields m)

-- a number's bytes, the lowest first, before others
abbrev pub le_bytes : ℕ → ℕ → List ℕ → List ℕ
le_bytes zero v rest = rest
le_bytes (suc w) v rest = v % 256 ∷ le_bytes w (v / 256) rest

abbrev pub encode : List (ℕ × ℕ) → List ℕ
encode [] = []
encode ((v, w) ∷ fs) = le_bytes w v (encode fs)

abbrev pub le_number : ℕ → List ℕ → ℕ
le_number zero bytes = 0
le_number (suc w) [] = 0
le_number (suc w) (x ∷ xs) = x + 256 * le_number w xs

abbrev pub skip : ℕ → List ℕ → List ℕ
skip zero bytes = bytes
skip (suc w) [] = []
skip (suc w) (x ∷ xs) = skip w xs

abbrev pub decode : List ℕ → List ℕ → List ℕ
decode [] bytes = []
decode (w ∷ ws) bytes = le_number w bytes ∷ decode ws (skip w bytes)

abbrev pub widths : List (ℕ × ℕ) → List ℕ
widths [] = []
widths ((v, w) ∷ fs) = w ∷ widths fs

abbrev pub values : List (ℕ × ℕ) → List ℕ
values [] = []
values ((v, w) ∷ fs) = v ∷ values fs

quotient-lt : (v w : ℕ) → v < 256 ^ suc w → v / 256 < 256 ^ w
quotient-lt v w h = omega arith

le_number-le_bytes : (w v : ℕ) (rest : List ℕ) → v < 256 ^ w → le_number w (le_bytes w v rest) ≡ v
le_number-le_bytes zero v rest h = omega arith
le_number-le_bytes (suc w) v rest h =
    let ih = le_number-le_bytes w (v / 256) rest (quotient-lt v w h) in omega arith

skip-le_bytes : (w v : ℕ) (rest : List ℕ) → skip w (le_bytes w v rest) ≡ rest
skip-le_bytes zero v rest = refl
skip-le_bytes (suc w) v rest = skip-le_bytes w (v / 256) rest

-- Numbers that fit their bytes are read back from them.
pub decode-encode : (fs : List (ℕ × ℕ)) → AllFit fs → decode (widths fs) (encode fs) ≡ values fs
decode-encode [] h = refl
decode-encode ((v, w) ∷ fs) h =
    rw (le_number-le_bytes w v (encode fs) (h.0), skip-le_bytes w v (encode fs))
      (ap (λ l. v ∷ l) (decode-encode fs (h.1)))

-- every number of a list is a byte
abbrev pub AllBytes : List ℕ → Type 0
AllBytes [] = Unit {0}
AllBytes (x ∷ xs) = (x < 256) × AllBytes xs

le_bytes-AllBytes : (w v : ℕ) (rest : List ℕ) → AllBytes rest → AllBytes (le_bytes w v rest)
le_bytes-AllBytes zero v rest h = h
le_bytes-AllBytes (suc w) v rest h = (omega arith, le_bytes-AllBytes w (v / 256) rest h)

pub encode-AllBytes : (fs : List (ℕ × ℕ)) → AllBytes (encode fs)
encode-AllBytes [] = tt
encode-AllBytes ((v, w) ∷ fs) = le_bytes-AllBytes w v (encode fs) (encode-AllBytes fs)
