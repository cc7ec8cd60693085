-- ===== src/Bootloader/Direct.antt =====
-- bootloader/src/bootloader_main.c: the mode in which either slot runs where it is: taking over a
-- pending slot, and going back to one that ran before.
use hdrt.Prelude.{ℕ, Bool, true, false, ◌&&◌, ◌||◌, not, leb, ◌==◌, if◌then◌else◌}
use hdrt.Flash.{Port, Flash}
use hdrt.OtaMetadata.Metadata.{Metadata}
use hdrt.OtaMetadata.Partition.{Slot, slot_none}
use hdrt.Bootloader.Images.{Library, slot_is_valid, validate_slot_direct, direct_slot_is_bootable}
use hdrt.Bootloader.Copy.{
  result_no_pending, result_max_attempts, result_stage_validate_failed,
  result_active_validate_failed, max_boot_attempts, Boot, and_fail, change_and_store, store_result,
  count_attempt,
}

module _ (L : Library) (P : Port) where
  unfoldable pub apply_direct_pending : Boot → Boot × Bool
  apply_direct_pending s =
      let m = s.metadata in
      let pending = m.pending_slot in
      if pending == slot_none
      then (s, false)
      else (if not (slot_is_valid pending) || not (slot_is_valid m.active_slot)
          then and_fail (store_result L P result_no_pending pending true s)
          else (if leb max_boot_attempts m.boot_attempts
              then and_fail (store_result L P result_max_attempts pending true s)
              else (if not (validate_slot_direct L s.flash m pending)
                  then and_fail (store_result L P result_stage_validate_failed pending true s)
                  else change_and_store L P s (L.pota.apply_direct_ab_pending m pending))))

  unfoldable pub select_direct_rollback_slot : Flash → Metadata → Slot
  select_direct_rollback_slot f m =
      if slot_is_valid m.confirmed_slot && direct_slot_is_bootable L f m m.confirmed_slot
      then m.confirmed_slot
      else (if slot_is_valid m.previous_slot && direct_slot_is_bootable L f m m.previous_slot
          then m.previous_slot
          else slot_none)

  unfoldable pub direct_rollback : ℕ → Slot → Boot → Boot × Bool
  direct_rollback reason failed s =
      let slot = select_direct_rollback_slot s.flash s.metadata in
      if slot == slot_none
      then (s, false)
      else change_and_store L P s (L.pota.rollback_direct_ab s.metadata reason failed slot)

  unfoldable pub prepare_direct_active_boot : Boot → Boot × Bool
  prepare_direct_active_boot s =
      let m = s.metadata in
      if not (slot_is_valid m.active_slot)
      then (s, false)
      else (if m.active_slot == m.confirmed_slot
          then (s, true)
          else (if leb max_boot_attempts m.boot_attempts
              then direct_rollback result_max_attempts m.active_slot s
              else (if not (validate_slot_direct L s.flash m m.active_slot)
                  then direct_rollback result_active_validate_failed m.active_slot s
                  else count_attempt L P s)))
