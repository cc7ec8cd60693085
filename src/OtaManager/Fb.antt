-- ===== src/OtaManager/Fb.antt =====
-- components/ota_manager/src/ota_fb.c: what the manager does for an event.
use hdrt.Prelude.{
  ℕ, ◌+◌, ◌*◌, ◌%◌, ◌^◌, Bool, ◌&&◌, ◌||◌, not, Option, none, some, ltb, leb, ◌==◌, if◌then◌else◌,
  bit_and,
}
use hdrt.Flash.{Port}
use hdrt.OtaMetadata.Metadata.{Metadata}
use hdrt.OtaMetadata.Partition.{slot_size}
use hdrt.OtaMetadata.Copies.{load}
use hdrt.OtaMetadata.Updates.{metadata_confirm_active}
use hdrt.ResourceArbiter.{publish_trigger_activity, can_begin_ota}
use hdrt.Bootloader.Images.{Library}
use hdrt.EventBus.{
  event_max_data_size, BeginEvent, DataEvent, Signal, OtaEvent, Bus, is_null, byte_at, end_of_image,
  abort, commit, boot_image, tick, begin_update, data_block, signal,
}
use hdrt.OtaManager.Vector.{
  state_idle, state_check_permission, state_erase_slot, state_ready_to_reboot, state_committed,
  state_failed, state_aborted, ota_result_failed, ota_result_committed, err_busy, err_invalid_state,
  err_image_too_large, err_bad_header, err_metadata, err_bad_argument, OtaVector, event_number,
}
use hdrt.OtaManager.Port.{Session, Core, core_begin, core_service, core_write, core_end, core_abort}

abbrev pub begin_flag_package : ℕ
begin_flag_package = 1

abbrev pub package_header_size : ℕ
package_header_size = 512

abbrev pub app_size_fail_threshold : ℕ
app_size_fail_threshold = 1400 * 1024

-- The manager's state with what it reads and calls: `capture_running` and `clock_running` are what
-- `sync_io_get_status` reports, `reboot_ms` the last call of `drv_watchdog_reboot`.
pub record OtaWorld (σ : Type 0) : Type 0 where
  pub core : Core σ
  pub capture_running : Bool
  pub clock_running : Bool
  pub reboot_ms : Option ℕ

unfoldable pub max_size : Bool → ℕ
max_size packaged =
    if packaged then package_header_size + slot_size + slot_size else app_size_fail_threshold

-- `OTA_ERR_...` that the size calls for, if it does
unfoldable pub size_error : BeginEvent → Option ℕ
size_error g =
    let packaged = not (bit_and g.flags begin_flag_package == 0) in
    if (g.size == 0) || ltb (max_size packaged) g.size
    then some err_image_too_large
    else (if packaged && leb g.size package_header_size then some err_bad_header else none)

module _ {σ : Type 0} where
  abbrev pub with_vector : OtaVector → OtaWorld σ → OtaWorld σ
  with_vector v w = record w { core = record w.core { vector = v } }

  abbrev pub vector_of : OtaWorld σ → OtaVector
  vector_of w = w.core.vector

  unfoldable pub bump_sequence : OtaWorld σ → OtaWorld σ
  bump_sequence w =
      with_vector (record (vector_of w) { sequence = ((vector_of w).sequence + 1) % 2 ^ 32 }) w

  unfoldable pub set_state : ℕ → OtaWorld σ → OtaWorld σ
  set_state state w =
      let v = vector_of w in
      bump_sequence (with_vector (record v { progress = record v.progress { state = state } }) w)

  unfoldable pub set_error : ℕ → OtaWorld σ → OtaWorld σ
  set_error error w =
      let v = vector_of w in
      set_state state_failed (
        with_vector
          (record v {
            progress = record v.progress { error_code = error; last_result = ota_result_failed };
          })
          w)

  unfoldable pub state_accepts_begin : OtaWorld σ → Bool
  state_accepts_begin w =
      let state = (vector_of w).progress.state in
      (state == state_idle)
      || (state == state_aborted)
      || (state == state_failed)
      || (state == state_committed)

  -- `ota_fb_ota_is_permitted`: the arbiter is told of the trigger first.
  unfoldable pub ota_is_permitted : OtaWorld σ → OtaWorld σ × Bool
  ota_is_permitted w =
      let shared = w.core.shared in
      let (a, permitted) =
        can_begin_ota (publish_trigger_activity w.capture_running w.clock_running shared.arbiter) in
      (record w { core = record w.core { shared = record shared { arbiter = a } } }, permitted)

  -- A call of the session, and `ota_fb_sync_portable_status`.
  unfoldable pub run_core : (Core σ → Core σ × Bool) → OtaWorld σ → OtaWorld σ
  run_core call w = bump_sequence (record w { core = (call w.core).0 })

  module _ (L : Library) (P : Port) (S : Session σ) where
    unfoldable pub begin_loaded : BeginEvent → OtaWorld σ → Option Metadata → OtaWorld σ
    begin_loaded g w none = set_error err_metadata w
    begin_loaded g w (some m) =
        let v = record (vector_of w) {
          image_version = g.image_version;
          boot_flags_summary = m.last_boot_result;
        } in
        run_core (core_begin L P S m g.size g.crc32 (not (bit_and g.flags begin_flag_package == 0)))
          (with_vector v w)

    unfoldable pub begin_permitted : BeginEvent → OtaWorld σ × Bool → OtaWorld σ
    begin_permitted g (w, permitted) =
        if not permitted
        then set_error err_busy w
        else begin_loaded g w (load L.pota w.core.shared.chip)

    unfoldable pub begin_sized : BeginEvent → OtaWorld σ → Option ℕ → OtaWorld σ
    begin_sized g w (some error) = set_error error w
    begin_sized g w none = begin_permitted g (ota_is_permitted w)

    unfoldable pub handle_begin : BeginEvent → OtaWorld σ → OtaWorld σ
    handle_begin g w =
        if not (state_accepts_begin w)
        then set_error err_invalid_state w
        else begin_sized g w (size_error g)

    unfoldable pub handle_tick : OtaWorld σ → OtaWorld σ
    handle_tick w =
        let state = (vector_of w).progress.state in
        if not (state == state_check_permission) && not (state == state_erase_slot)
        then w
        else run_core (core_service L P S 0) w

    unfoldable pub handle_data : Bus → DataEvent → OtaWorld σ → OtaWorld σ
    handle_data b d w =
        if is_null d.bytes || (d.length == 0) || ltb event_max_data_size d.length
        then set_error err_bad_argument w
        else run_core (core_write L P S (byte_at b d.bytes) d.length) w

    unfoldable pub handle_end : OtaWorld σ → OtaWorld σ
    handle_end w = run_core (core_end L P S) w

    unfoldable pub handle_abort : OtaWorld σ → OtaWorld σ
    handle_abort w = run_core (core_abort L P S) w

    unfoldable pub handle_boot : OtaWorld σ → OtaWorld σ
    handle_boot w =
        if not ((vector_of w).progress.state == state_ready_to_reboot)
        then set_error err_invalid_state w
        else record w { reboot_ms = some 50 }

    unfoldable pub committed : OtaWorld σ → OtaWorld σ
    committed w =
        let v = vector_of w in
        set_state state_committed (
          with_vector
            (record v { progress = record v.progress { last_result = ota_result_committed } }) w)

    -- `ota_metadata_confirm_active` writes the flash.
    unfoldable pub confirm : OtaWorld σ → OtaWorld σ
    confirm w =
        let (f, ok) = metadata_confirm_active L.pota P w.core.shared.chip in
        let written = record w {
          core = record w.core { shared = record w.core.shared { chip = f } };
        } in
        if not ok then set_error err_metadata written else committed written

    unfoldable pub commit_loaded : OtaWorld σ → Option Metadata → OtaWorld σ
    commit_loaded w none = set_error err_metadata w
    commit_loaded w (some m) =
        if not (L.pota.can_confirm_active m) then set_error err_invalid_state w else confirm w

    unfoldable pub handle_commit : OtaWorld σ → OtaWorld σ
    handle_commit w = commit_loaded w (load L.pota w.core.shared.chip)

    unfoldable pub handle_signal : Signal → OtaWorld σ → OtaWorld σ
    handle_signal tick w = handle_tick w
    handle_signal end_of_image w = handle_end w
    handle_signal abort w = handle_abort w
    handle_signal boot_image w = handle_boot w
    handle_signal commit w = handle_commit w
    handle_signal _ w = w

    unfoldable pub handle : Bus → OtaEvent → OtaWorld σ → OtaWorld σ
    handle b (begin_update g) w = handle_begin g w
    handle b (data_block d) w = handle_data b d w
    handle b (signal s value) w = handle_signal s w

    unfoldable pub ota_fb_execute : Bus → OtaEvent → OtaWorld σ → OtaWorld σ
    ota_fb_execute b e w =
        handle b e (with_vector (record (vector_of w) { last_event = event_number e }) w)
