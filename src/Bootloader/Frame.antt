-- ===== src/Bootloader/Frame.antt =====
-- bootloader/src/bootloader_main.c: what the bootloader never writes.
use hdrt.Prelude.{
  ℕ, zero, suc, ◌+◌, ◌-◌, ◌≤◌, ◌<◌, ◌≡◌, ◌⊎◌, ◌∙◌, refl, ap, Bool, true, false, ◌||◌, not, Option,
  none, some, ltb, leb, ◌==◌, if◌then◌else◌, arith, if_both, if_each,
}
use hdrt.OtaMetadata.Copies.{load}
use hdrt.OtaMetadata.Metadata.{mode_direct_ab, Metadata}
use hdrt.Bootloader.Direct.{apply_direct_pending, prepare_direct_active_boot}
use hdrt.Flash.{sector_size, page_size, Port, Flash, erase}
use hdrt.Flash.Frame.{IsLocal, SameOn, erase-SameOn}
use hdrt.OtaMetadata.Partition.{
  slot_a, slot_b, slot_a_offset, slot_b_offset, slot_size, partition_slot_offset,
  partition_slot_size,
}
use hdrt.OtaMetadata.Frame.{OutsideCopies}
use hdrt.Bootloader.Images.{Library, validate_slot_as_slot_a, direct_active_app_is_valid}
use hdrt.Bootloader.Copy.{
  txn_started, txn_erased_active, txn_programming, txn_verifying, txn_done, result_none,
  result_no_pending, result_max_attempts, result_stage_validate_failed, result_copy_failed,
  result_active_validate_failed, progress_store_bytes, Boot, and_then, and_fail, round_up,
  store_copy_transaction, store_copy_failure, copy_round, copy_rounds, erase_active, copy_slot,
  applied_done, verify_active, after_copy, attempt_copy, count_attempt, apply_pending_image,
}
use hdrt.Bootloader.Main.{
  Ending, jump_active, jump_direct, boot_direct, boot_loaded, boot_from, main,
}
use hdrt.Bootloader.Spares.{
  Spares, untouched, SparesOption, same, then_Spares, and_then-Spares, regardless-Spares,
  and_fail-Spares, SparesOption-after, finished-Spares, within_slot, sectors_within, spared,
}
use hdrt.Bootloader.Steps.{
  change_and_store-Spares, store_copy_transaction-Spares, store_result-Spares,
  store_copy_failure-Spares, apply_direct_pending-Spares, prepare_direct_active_boot-Spares,
  copy_round-Spares,
}

-- Only the two copies of the metadata and slot A may differ.
abbrev pub Protected : ℕ → Type 0
Protected i = (i < slot_a_offset) ⊎ ((slot_b_offset ≤ i) × OutsideCopies i)

module _ (L : Library) (P : Port) (law : IsLocal P) (S : ℕ → Type 0)
    (aside : (i : ℕ) → S i → OutsideCopies i)
    (below : (i : ℕ) → S i → (i < slot_a_offset) ⊎ (slot_a_offset + slot_size ≤ i)) where
  copy_rounds-Spares :
      (fuel src size copied next : ℕ) (s : Boot)
      → size ≤ slot_size
      → SparesOption S s (copy_rounds L P fuel src slot_a_offset size copied next s)
  unfolding copy_rounds
  copy_rounds-Spares zero src size copied next s h = tt
  copy_rounds-Spares (suc fuel) src size copied next s h =
      let remain = size - copied in
      let done = copied + (if ltb page_size remain then page_size else remain) in
      let further = if leb next done || leb size done then next + progress_store_bytes else next in
      let r = copy_round L P src slot_a_offset size copied next s in
      if_each (SparesOption S s) (not (ltb copied size)) (λ e. same S s true)
        λ e.
          let round : Spares S s r =
            copy_round-Spares L P law S aside src slot_a_offset size copied next s
              λ i a q. within_slot copied size i h e a (below i q) in
          if_both (SparesOption S s) (not r.1) (and_fail-Spares S s r round) (
            SparesOption-after S s r (copy_rounds L P fuel src slot_a_offset size done further r.0)
              round (copy_rounds-Spares fuel src size done further r.0 h))

  pub erase_active-Spares :
      (size : ℕ) (s : Boot) → size ≤ slot_size → Spares S s (erase_active L P slot_a_offset size s)
  unfolding erase_active
  erase_active-Spares size s h =
      let n = round_up size sector_size in
      let r = erase P s.flash slot_a_offset n in
      and_then-Spares S s (record s { flash = r.0 }, r.1) _
        (spared
          (erase-SameOn P law S s.flash slot_a_offset n λ i q. sectors_within size i h (below i q)))
        λ t.
          and_then-Spares S t _ _
            (store_copy_transaction-Spares L P law S aside txn_erased_active 0 0 t)
            λ u. store_copy_transaction-Spares L P law S aside txn_programming 0 0 u

  copy_slot-Spares : (size : ℕ) (s : Boot) → Spares S s (copy_slot L P slot_b slot_a size s)
  unfolding copy_slot partition_slot_offset partition_slot_size
  copy_slot-Spares size s =
      if_each (Spares S s) _ (λ e. same S s false)
        λ e. and_then-Spares S s _ _ (erase_active-Spares size s (ground (arith, e))) λ t.
          finished-Spares S t _ (
            copy_rounds-Spares (size + 1) slot_b_offset size 0 progress_store_bytes t
              (ground (arith, e)))

  applied_done-Spares : (s : Boot) → Spares S s (applied_done L P s)
  unfolding applied_done
  applied_done-Spares s = change_and_store-Spares L P law S aside s _

  verify_active-Spares : (s : Boot) → Spares S s (verify_active L P s)
  unfolding verify_active
  verify_active-Spares s =
      let m = s.metadata in
      if_both (Spares S s)
        (not (validate_slot_as_slot_a L s.flash slot_a m.slot_b_size m.slot_b_crc32))
        (and_fail-Spares S s _
          (store_copy_failure-Spares L P law S aside result_active_validate_failed m.slot_b_size s))
        (and_then-Spares S s _ _
          (store_copy_transaction-Spares L P law S aside txn_done m.slot_b_size result_none s)
          applied_done-Spares)

  after_copy-Spares : (s : Boot) (r : Boot × Bool) → Spares S s r → Spares S s (after_copy L P r)
  unfolding after_copy
  after_copy-Spares s (t, true) h =
      let r = store_copy_transaction L P txn_verifying t.metadata.slot_b_size result_none t in
      then_Spares S s t true (and_then r (verify_active L P)) h (
        and_then-Spares S t r (verify_active L P)
          (store_copy_transaction-Spares L P law S aside txn_verifying t.metadata.slot_b_size
            result_none t)
          verify_active-Spares)
  after_copy-Spares s (t, false) h =
      let written = t.metadata.copy_written in
      let r = store_copy_failure L P result_copy_failed written t in
      then_Spares S s t false (and_fail r) h (
        and_fail-Spares S t r
          (store_copy_failure-Spares L P law S aside result_copy_failed written t))

  attempt_copy-Spares : (s : Boot) → Spares S s (attempt_copy L P s)
  unfolding attempt_copy
  attempt_copy-Spares s =
      let m = s.metadata in
      if_both (Spares S s)
        (not (validate_slot_as_slot_a L s.flash slot_b m.slot_b_size m.slot_b_crc32))
        (and_fail-Spares S s _
          (store_copy_failure-Spares L P law S aside result_stage_validate_failed 0 s))
        (after_copy-Spares s (copy_slot L P slot_b slot_a m.slot_b_size s)
          (copy_slot-Spares m.slot_b_size s))

  count_attempt-Spares : (s : Boot) → Spares S s (count_attempt L P s)
  unfolding count_attempt
  count_attempt-Spares s = change_and_store-Spares L P law S aside s _

  apply_pending_image-Spares : (s : Boot) → Spares S s (apply_pending_image L P s)
  unfolding apply_pending_image
  apply_pending_image-Spares s =
      let m = s.metadata in
      ground (
        arith,
        same S s false,
        and_fail-Spares S s _
            (store_result-Spares L P law S aside result_no_pending m.pending_slot true s),
        applied_done-Spares s,
        and_fail-Spares S s _
            (store_copy_failure-Spares L P law S aside result_max_attempts m.copy_written s),
        and_then-Spares S s _ _
            (store_copy_transaction-Spares L P law S aside txn_started 0 result_none s)
            (λ t. regardless-Spares S t _ _ (count_attempt-Spares t) attempt_copy-Spares),
      )

module _ (L : Library) (P : Port) where
  end_flash-jump_direct : (r : Boot × Bool) → (jump_direct L P r).end_flash ≡ r.0.flash
  unfolding jump_direct jump_active
  end_flash-jump_direct (s, true) =
      if_both (λ (e : Ending). e.end_flash ≡ s.flash)
        (direct_active_app_is_valid L s.flash s.metadata) refl refl
  end_flash-jump_direct (s, false) = refl

  module _ (law : IsLocal P) (S : ℕ → Type 0) (aside : (i : ℕ) → S i → OutsideCopies i) where
    boot_direct-SameOn :
        (f : Flash) (r : Boot × Bool)
        → SameOn S f r.0.flash
        → SameOn S f (boot_direct L P r).end_flash
    unfolding boot_direct jump_active
    boot_direct-SameOn f (s, applied) h =
        let r = if applied then (s, true) else prepare_direct_active_boot L P s in
        let spared_r : Spares S s r =
          if_both (Spares S s) applied (same S s true)
            (prepare_direct_active_boot-Spares L P law S aside s) in
        if_both (λ (e : Ending). SameOn S f e.end_flash)
          (not (s.metadata.boot_mode == mode_direct_ab)) h
          λ i q. ap (λ g. g.memory i) (end_flash-jump_direct r) ∙ untouched spared_r i q ∙ h i q

    -- A pending update in the mode in which either slot runs in place moves no image: with that mode
    -- in the metadata, `main` writes only the two copies of the metadata.
    pub boot_loaded-SameOn :
        (s : Boot)
        → s.metadata.boot_mode ≡ mode_direct_ab
        → SameOn S s.flash (boot_loaded L P s).end_flash
    unfolding boot_loaded
    boot_loaded-SameOn s e = boot_direct-SameOn s.flash _ (
        if_each (λ (r : Boot × Bool). SameOn S s.flash r.0.flash)
          (s.metadata.boot_mode == mode_direct_ab)
          (λ t. untouched (apply_direct_pending-Spares L P law S aside s))
          (λ t. absurd (ground (arith, e, t))))

boot_from-SameOn :
    (L : Library) (P : Port) (law : IsLocal P) (f : Flash) (m : Option Metadata)
    → SameOn Protected f (boot_from L P f m).end_flash
unfolding boot_from boot_loaded jump_active
boot_from-SameOn L P law f none i q = refl
boot_from-SameOn L P law f (some m) i q =
    let s : Boot = record { flash = f; metadata = m } in
    let aside : (k : ℕ) → Protected k → OutsideCopies k = λ k t. ground (arith, t) in
    let below : (k : ℕ) → Protected k → (k < slot_a_offset) ⊎ (slot_a_offset + slot_size ≤ k) =
      λ k t. ground (arith, t) in
    let r =
      if m.boot_mode == mode_direct_ab
      then apply_direct_pending L P s
      else and_fail (apply_pending_image L P s) in
    let spared_r : Spares Protected s r =
      if_both (Spares Protected s) (m.boot_mode == mode_direct_ab)
        (apply_direct_pending-Spares L P law Protected aside s)
        (and_fail-Spares Protected s (apply_pending_image L P s)
          (apply_pending_image-Spares L P law Protected aside below s)) in
    boot_direct-SameOn L P law Protected aside f r (untouched spared_r) i q

-- From reset to the jump or the idle loop, whatever the metadata say and wherever a write fails,
-- `main` leaves every byte of the bootloader, of slot B and of the flash past the two copies of the
-- metadata as it was. An erase and a program of the SDK change no byte outside their range.
pub main_spares :
    (L : Library) (P : Port) (f : Flash) (i : ℕ)
    → IsLocal P
    → Protected i
    → (main L P f).end_flash.memory i ≡ f.memory i
unfolding main
main_spares L P f i law q = boot_from-SameOn L P law f (load L.pota f) i q
