-- ===== src/OtaManager/Reboot.antt =====
-- components/ota_manager/src/ota_fb.c: when the device is told to reboot.
use hdrt.Prelude.{
  ℕ, ◌≡◌, ◌⊎◌, inl, inr, refl, not, Option, none, some, ◌==◌, arith, if_both, if_each,
}
use hdrt.OtaMetadata.Metadata.{Metadata}
use hdrt.Flash.{Port}
use hdrt.Bootloader.Images.{Library}
use hdrt.EventBus.{
  BeginEvent, Signal, OtaEvent, Bus, end_of_image, abort, verify, commit, boot_image, tick,
  flash_job_done, flash_job_failed, boot_result, begin_update, data_block, signal,
}
use hdrt.OtaManager.Vector.{state_ready_to_reboot, signal_number, event_number}
use hdrt.OtaManager.Port.{Session}
use hdrt.OtaManager.Fb.{
  OtaWorld, size_error, vector_of, bump_sequence, set_state, set_error, state_accepts_begin,
  ota_is_permitted, run_core, begin_loaded, begin_permitted, begin_sized, handle_begin, handle_tick,
  handle_data, handle_end, handle_abort, handle_boot, committed, confirm, commit_loaded,
  handle_commit, handle_signal, handle, ota_fb_execute,
}

module _ {σ : Type 0} (L : Library) (P : Port) (S : Session σ) where
  reboot-begin_session :
      (g : BeginEvent) (u w : OtaWorld σ) (o : Option Metadata)
      → u.reboot_ms ≡ w.reboot_ms
      → (begin_loaded L P S g u o).reboot_ms ≡ w.reboot_ms
  unfolding begin_loaded set_error set_state bump_sequence run_core
  reboot-begin_session g u w none h = h
  reboot-begin_session g u w (some m) h = h

  reboot-begin_sized :
      (g : BeginEvent) (w : OtaWorld σ) (o : Option ℕ)
      → (begin_sized L P S g w o).reboot_ms ≡ w.reboot_ms
  unfolding begin_sized begin_permitted set_error set_state bump_sequence ota_is_permitted
  reboot-begin_sized g w (some n) = refl
  reboot-begin_sized g w none =
      if_both (λ (u : OtaWorld σ). u.reboot_ms ≡ w.reboot_ms) (not (ota_is_permitted w).1) refl
        (reboot-begin_session g (ota_is_permitted w).0 w _ refl)

  reboot-begin :
      (g : BeginEvent) (w : OtaWorld σ) → (handle_begin L P S g w).reboot_ms ≡ w.reboot_ms
  unfolding handle_begin set_error set_state bump_sequence
  reboot-begin g w =
      if_both (λ (u : OtaWorld σ). u.reboot_ms ≡ w.reboot_ms) (not (state_accepts_begin w)) refl
        (reboot-begin_sized g w (size_error g))

  reboot-commit_loaded :
      (w : OtaWorld σ) (o : Option Metadata) → (commit_loaded L P S w o).reboot_ms ≡ w.reboot_ms
  unfolding commit_loaded confirm committed set_error set_state bump_sequence
  reboot-commit_loaded w none = refl
  reboot-commit_loaded w (some m) = ground arith

  abbrev Rebooted : OtaWorld σ → OtaWorld σ → ℕ → Type 0
  Rebooted w after n =
      (after.reboot_ms ≡ w.reboot_ms)
      ⊎ ((n ≡ 6)
          × ((vector_of w).progress.state ≡ state_ready_to_reboot)
          × (after.reboot_ms ≡ some 50))

  reboot-signal :
      (s : Signal) (w : OtaWorld σ) → Rebooted w (handle_signal L P S s w) (signal_number s)
  unfolding handle_signal handle_tick handle_end handle_abort handle_boot handle_commit set_error
      set_state bump_sequence run_core signal_number
  reboot-signal tick w = inl (if_both (λ (u : OtaWorld σ). u.reboot_ms ≡ w.reboot_ms) _ refl refl)
  reboot-signal end_of_image w = inl refl
  reboot-signal abort w = inl refl
  reboot-signal boot_image w =
      if_each (λ (u : OtaWorld σ). Rebooted w u 6)
        (not ((vector_of w).progress.state == state_ready_to_reboot)) (λ h. inl refl)
        λ h. inr (refl, ground (arith, h), refl)
  reboot-signal commit w = inl (reboot-commit_loaded w _)
  reboot-signal verify w = inl refl
  reboot-signal flash_job_done w = inl refl
  reboot-signal flash_job_failed w = inl refl
  reboot-signal boot_result w = inl refl

  -- Only a boot event, number 6, asks for a reboot, and only when an image is ready for it.
  pub reboot_needs_ready :
      (b : Bus) (e : OtaEvent) (w : OtaWorld σ)
      → let after = ota_fb_execute L P S b e w in
        (after.reboot_ms ≡ w.reboot_ms)
        ⊎ ((event_number e ≡ 6)
            × ((vector_of w).progress.state ≡ state_ready_to_reboot)
            × (after.reboot_ms ≡ some 50))
  unfolding ota_fb_execute handle event_number handle_data set_error set_state bump_sequence
      run_core
  reboot_needs_ready b (begin_update g) w = inl (reboot-begin g _)
  reboot_needs_ready b (data_block d) w =
      inl (if_both (λ (u : OtaWorld σ). u.reboot_ms ≡ w.reboot_ms) _ refl refl)
  reboot_needs_ready b (signal s v) w = reboot-signal s _
