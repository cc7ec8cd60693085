-- ===== src/OtaManager/Port.antt =====
-- middleware/portable_ota_port/src/portable_ota_core_port.c: what the library's session is given to
-- work with, and the calls of it. Each flash operation holds the arbiter's flash resource while it
-- runs.
use hdrt.Prelude.{ℕ, Bool, true, false, not, List, [], ◌∷◌, ◌==◌, if◌then◌else◌}
use hdrt.Flash.{Bytes, Port, Flash, erase, program}
use hdrt.OtaMetadata.Metadata.{mode_direct_ab, Metadata}
use hdrt.OtaMetadata.Partition.{Slot, slot_b}
use hdrt.OtaMetadata.Updates.{metadata_mark_pending, metadata_confirm_active}
use hdrt.ResourceArbiter.{flash, Context, acquire, release}
use hdrt.Bootloader.Images.{Library}
use hdrt.OtaManager.Vector.{
  ota_result_failed, err_board_mismatch, err_version_rejected, err_bad_argument, Progress,
  OtaVector,
}

-- The flash and the arbiter, which the session's operations change.
pub record Shared : Type 0 where
  pub chip : Flash
  pub arbiter : Context

-- `pota_platform_t`: the fields of `info` that are not constants, and the `ops`.
pub record Platform : Type 0 where
  pub boot_mode_direct : Bool
  pub active_slot_b : Bool
  pub op_erase : ℕ → ℕ → Shared → Shared × Bool
  pub op_program : ℕ → Bytes → ℕ → Shared → Shared × Bool
  pub op_mark_pending : Slot → ℕ → ℕ → Shared → Shared × Bool
  pub op_confirm_active : Shared → Shared × Bool
  pub op_validate_vector : ℕ → ℕ → ℕ → Shared → Bool

-- The library: `σ` is `pota_session_t`. A call returns the session, what its operations made of the
-- flash and the arbiter, and the library's error. The last four are its error numbers.
pub record Session (σ : Type 0) : Type 0 where
  pub session_init : Platform → σ → σ × Bool
  pub session_begin : ℕ → ℕ → Bool → σ → Shared → σ × Shared × ℕ
  pub session_service : ℕ → σ → Shared → σ × Shared × ℕ
  pub session_write : Bytes → ℕ → σ → Shared → σ × Shared × ℕ
  pub session_end : σ → Shared → σ × Shared × ℕ
  pub session_abort : σ → Shared → σ × Shared × ℕ
  pub get_status : σ → Progress
  pub error_to_product : ℕ → List (ℕ × ℕ) → ℕ → ℕ
  pub result_to_product : ℕ → ℕ → ℕ
  pub pota_err_none : ℕ
  pub pota_err_product_mismatch : ℕ
  pub pota_err_hardware_mismatch : ℕ
  pub pota_err_bootloader_too_old : ℕ

-- The session with the state that it and the rest of the manager share.
pub record Core (σ : Type 0) : Type 0 where
  pub session : σ
  pub shared : Shared
  pub vector : OtaVector

-- `acquire`, the operation if it was granted, `release`
unfoldable pub with_flash_held : (Flash → Flash × Bool) → Shared → Shared × Bool
with_flash_held work s =
    let (a, granted) = acquire flash s.arbiter in
    let (f, ok) = work s.chip in
    if not granted
    then (record s { arbiter = a }, false)
    else (record s { chip = f; arbiter = release flash a }, ok)

module _ (L : Library) (P : Port) where
  unfoldable pub core_flash_erase : ℕ → ℕ → Shared → Shared × Bool
  core_flash_erase offset size = with_flash_held (λ f. erase P f offset size)

  unfoldable pub core_flash_program : ℕ → Bytes → ℕ → Shared → Shared × Bool
  core_flash_program offset bytes size = with_flash_held (λ f. program P f offset bytes size)

  unfoldable pub core_mark_pending : Slot → ℕ → ℕ → Shared → Shared × Bool
  core_mark_pending slot size crc = with_flash_held (metadata_mark_pending L.pota P slot size crc)

  unfoldable pub core_confirm_active : Shared → Shared × Bool
  core_confirm_active = with_flash_held (metadata_confirm_active L.pota P)

  unfoldable pub core_validate_vector : ℕ → ℕ → ℕ → Shared → Bool
  core_validate_vector offset size run_offset s =
      L.app_vector_valid s.chip.memory offset size run_offset

  unfoldable pub make_platform : Metadata → Platform
  make_platform m = record {
    boot_mode_direct = m.boot_mode == mode_direct_ab;
    active_slot_b = m.active_slot == slot_b;
    op_erase = core_flash_erase;
    op_program = core_flash_program;
    op_mark_pending = core_mark_pending;
    op_confirm_active = core_confirm_active;
    op_validate_vector = core_validate_vector;
  }

  module _ {σ : Type 0} (S : Session σ) where
    unfoldable pub map_error : ℕ → ℕ
    map_error error =
        S.error_to_product error
          ((S.pota_err_product_mismatch, err_board_mismatch)
            ∷ (S.pota_err_hardware_mismatch, err_board_mismatch)
            ∷ (S.pota_err_bootloader_too_old, err_version_rejected)
            ∷ [])
          err_bad_argument

    unfoldable pub copy_status : σ → OtaVector → OtaVector
    copy_status session v =
        let status = S.get_status session in
        record v {
          progress = record status {
            error_code = map_error status.error_code;
            last_result = S.result_to_product status.last_result ota_result_failed;
          };
        }

    -- What each of the five calls does with the library's answer.
    unfoldable pub report : Core σ → σ × Shared × ℕ → Core σ × Bool
    report c (session, shared, error) = (
      record { session = session; shared = shared; vector = copy_status session c.vector },
      error == S.pota_err_none,
    )

    unfoldable pub begin_session : ℕ → ℕ → Bool → Core σ → σ × Bool → Core σ × Bool
    begin_session size crc packaged c (session, false) = (record c { session = session }, false)
    begin_session size crc packaged c (session, true) =
        report c (S.session_begin size crc packaged session c.shared)

    unfoldable pub core_begin : Metadata → ℕ → ℕ → Bool → Core σ → Core σ × Bool
    core_begin m size crc packaged c =
        begin_session size crc packaged c (S.session_init (make_platform m) c.session)

    unfoldable pub core_service : ℕ → Core σ → Core σ × Bool
    core_service budget c = report c (S.session_service budget c.session c.shared)

    unfoldable pub core_write : Bytes → ℕ → Core σ → Core σ × Bool
    core_write bytes n c = report c (S.session_write bytes n c.session c.shared)

    unfoldable pub core_end : Core σ → Core σ × Bool
    core_end c = report c (S.session_end c.session c.shared)

    unfoldable pub core_abort : Core σ → Core σ × Bool
    core_abort c = report c (S.session_abort c.session c.shared)
