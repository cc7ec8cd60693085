-- ===== src/Bootloader/Main.antt =====
-- bootloader/src/bootloader_main.c: `main`, which ends in a jump to an application or in the idle
-- loop. A jump does not return.
use hdrt.Prelude.{ℕ, ◌+◌, Bool, true, false, not, Option, none, some, ◌==◌, if◌then◌else◌}
use hdrt.Flash.{xip_base, Port, Flash}
use hdrt.OtaMetadata.Metadata.{mode_direct_ab, Metadata}
use hdrt.OtaMetadata.Partition.{slot_a_offset, partition_slot_offset}
use hdrt.OtaMetadata.Copies.{load}
use hdrt.Bootloader.Images.{Library, word_at, active_app_is_valid, direct_active_app_is_valid}
use hdrt.Bootloader.Copy.{Boot, and_fail, apply_pending_image}
use hdrt.Bootloader.Direct.{apply_direct_pending, prepare_direct_active_boot}

-- The vector table register, the stack pointer and the address that a jump loads.
pub record Jump : Type 0 where
  pub vector_offset : ℕ
  pub vtor : ℕ
  pub stack_pointer : ℕ
  pub entry : ℕ

-- The state that `main` leaves, with the metadata if they were loaded, and the jump if there is
-- one.
pub record Ending : Type 0 where
  pub end_flash : Flash
  pub end_metadata : Option Metadata
  pub jump : Option Jump

unfoldable pub jump_to_app : Flash → ℕ → Jump
jump_to_app f offset = record {
  vector_offset = offset;
  vtor = xip_base + offset;
  stack_pointer = word_at (λ i. f.memory (offset + i)) 0;
  entry = word_at (λ i. f.memory (offset + i)) 4;
}

module _ (L : Library) (P : Port) where
  unfoldable pub jump_active : Flash → Option Metadata → Ending
  jump_active f m = record {
    end_flash = f;
    end_metadata = m;
    jump = if active_app_is_valid L f m then some (jump_to_app f slot_a_offset) else none;
  }

  unfoldable pub jump_direct : Boot × Bool → Ending
  jump_direct (s, false) = jump_active s.flash (some s.metadata)
  jump_direct (s, true) =
      if direct_active_app_is_valid L s.flash s.metadata
      then record {
        end_flash = s.flash;
        end_metadata = some s.metadata;
        jump = some (jump_to_app s.flash (partition_slot_offset s.metadata.active_slot));
      }
      else jump_active s.flash (some s.metadata)

  -- `direct_pending_applied || bootloader_prepare_direct_active_boot(&metadata)`, which is looked at
  -- only if the metadata still say that mode
  unfoldable pub boot_direct : Boot × Bool → Ending
  boot_direct (s, applied) =
      if not (s.metadata.boot_mode == mode_direct_ab)
      then jump_active s.flash (some s.metadata)
      else jump_direct (if applied then (s, true) else prepare_direct_active_boot L P s)

  unfoldable pub boot_loaded : Boot → Ending
  boot_loaded s = boot_direct (
      if s.metadata.boot_mode == mode_direct_ab
      then apply_direct_pending L P s
      else and_fail (apply_pending_image L P s))

  unfoldable pub boot_from : Flash → Option Metadata → Ending
  boot_from f none = jump_active f none
  boot_from f (some m) = boot_loaded (record { flash = f; metadata = m })

  unfoldable pub main : Flash → Ending
  main f = boot_from f (load L.pota f)
