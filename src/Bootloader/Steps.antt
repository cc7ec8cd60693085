-- ===== src/Bootloader/Steps.antt =====
-- bootloader/src/bootloader_main.c: what the stores of the metadata and one round of the copy leave
-- alone.
use hdrt.Prelude.{ℕ, ◌+◌, ◌%◌, ◌≤◌, ◌<◌, ◌≡◌, ◌⊎◌, refl, Bool, true, false, arith, if_both}
use hdrt.Flash.{page_size, Port}
use hdrt.Flash.Frame.{IsLocal, program-SameOn}
use hdrt.OtaMetadata.Metadata.{Metadata}
use hdrt.OtaMetadata.Partition.{Slot, slot_b}
use hdrt.OtaMetadata.Frame.{OutsideCopies, store-SameOn}
use hdrt.Bootloader.Images.{Library}
use hdrt.Bootloader.Copy.{
  result_no_pending, result_max_attempts, result_stage_validate_failed,
  result_active_validate_failed, Boot, and_fail, round_up, store_metadata, change_and_store,
  store_copy_transaction, store_result, store_copy_failure, program_chunk, store_progress,
  copy_round, count_attempt,
}
use hdrt.Bootloader.Direct.{apply_direct_pending, direct_rollback, prepare_direct_active_boot}
use hdrt.Bootloader.Spares.{
  Spares, same, and_then-Spares, regardless-Spares, and_fail-Spares, within, spared,
}

module _ (L : Library) (P : Port) (law : IsLocal P) (S : ℕ → Type 0) where
  module _ (aside : (i : ℕ) → S i → OutsideCopies i) where
    pub change_and_store-Spares :
        (s : Boot) (r : Metadata × Bool) → Spares S s (change_and_store L P s r)
    unfolding change_and_store store_metadata
    change_and_store-Spares s (m, true) = spared (store-SameOn L.pota P law S s.flash m aside)
    change_and_store-Spares s (m, false) = spared (λ i h. refl)

    pub store_copy_transaction-Spares :
        (state written last_error : ℕ) (s : Boot)
        → Spares S s (store_copy_transaction L P state written last_error s)
    unfolding store_copy_transaction
    store_copy_transaction-Spares state written last_error s = change_and_store-Spares s _

    pub store_result-Spares :
        (result : ℕ) (slot : Slot) (clear : Bool) (s : Boot)
        → Spares S s (store_result L P result slot clear s)
    unfolding store_result
    store_result-Spares result slot clear s = change_and_store-Spares s _

    pub store_copy_failure-Spares :
        (result written : ℕ) (s : Boot) → Spares S s (store_copy_failure L P result written s)
    unfolding store_copy_failure
    store_copy_failure-Spares result written s =
        regardless-Spares S s _ _ (store_copy_transaction-Spares _ _ _ s)
          λ t. store_result-Spares result slot_b false t

    pub apply_direct_pending-Spares : (s : Boot) → Spares S s (apply_direct_pending L P s)
    unfolding apply_direct_pending
    apply_direct_pending-Spares s =
        let slot = s.metadata.pending_slot in
        let failed : (n : ℕ) → Spares S s (and_fail (store_result L P n slot true s)) =
          λ n. and_fail-Spares S s _ (store_result-Spares n slot true s) in
        ground (
          arith,
          same S s false,
          failed result_no_pending,
          failed result_max_attempts,
          failed result_stage_validate_failed,
          change_and_store-Spares s (L.pota.apply_direct_ab_pending s.metadata slot),
        )

    direct_rollback-Spares :
        (reason : ℕ) (slot : Slot) (s : Boot) → Spares S s (direct_rollback L P reason slot s)
    unfolding direct_rollback
    direct_rollback-Spares reason slot s =
        if_both (Spares S s) _ (same S s false) (change_and_store-Spares s _)

    pub prepare_direct_active_boot-Spares :
        (s : Boot) → Spares S s (prepare_direct_active_boot L P s)
    unfolding prepare_direct_active_boot count_attempt
    prepare_direct_active_boot-Spares s = ground (
      arith,
      same S s false,
      same S s true,
      direct_rollback-Spares result_max_attempts s.metadata.active_slot s,
      direct_rollback-Spares result_active_validate_failed s.metadata.active_slot s,
      change_and_store-Spares s (L.pota.increment_boot_attempts s.metadata),
    )

    pub store_progress-Spares :
        (due : Bool) (copied : ℕ) (s : Boot) → Spares S s (store_progress L P due copied s)
    unfolding store_progress
    store_progress-Spares true copied s = store_copy_transaction-Spares _ _ _ s
    store_progress-Spares false copied s = same S s true

    program_chunk-Spares :
        (src dst copied chunk : ℕ) (s : Boot)
        → chunk ≤ page_size
        → ((i : ℕ)
            → (dst + copied) % page_size ≡ 0
            → S i
            → (i < dst + copied) ⊎ (dst + copied + page_size ≤ i))
        → Spares S s (program_chunk L P src dst copied chunk s)
    unfolding program_chunk
    program_chunk-Spares src dst copied chunk s small far = spared (
        program-SameOn P law S s.flash (dst + copied) _ (round_up chunk page_size)
          λ i e h. within dst copied i chunk small (far i e h))

    -- A round writes the page it copies and the two copies of the metadata.
    pub copy_round-Spares :
        (src dst size copied next : ℕ) (s : Boot)
        → ((i : ℕ)
            → (dst + copied) % page_size ≡ 0
            → S i
            → (i < dst + copied) ⊎ (dst + copied + page_size ≤ i))
        → Spares S s (copy_round L P src dst size copied next s)
    unfolding copy_round
    copy_round-Spares src dst size copied next s far =
        and_then-Spares S s _ _ (program_chunk-Spares src dst copied _ s (ground arith) far)
          λ t. store_progress-Spares _ _ t
