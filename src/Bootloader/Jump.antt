-- ===== src/Bootloader/Jump.antt =====
-- bootloader/src/bootloader_main.c: what the bootloader jumps to.
use hdrt.Prelude.{
  ℕ, zero, suc, ◌+◌, ◌≤◌, ◌≡◌, ◌≢◌, inl, inr, refl, Bool, true, false, Option, none, some, ◌==◌,
  arith, bit_and, Bool-cases, if_both, if_each,
}
use hdrt.OtaMetadata.Copies.{load}
use hdrt.Bootloader.Copy.{Boot}
use hdrt.Flash.{Port, Flash, read}
use hdrt.OtaMetadata.Metadata.{Metadata}
use hdrt.OtaMetadata.Partition.{
  Slot, slot_a, slot_b, slot_a_offset, slot_b_offset, slot_size, partition_slot_offset,
  partition_slot_size,
}
use hdrt.Bootloader.Images.{
  Library, slot_is_valid, metadata_slot_size, metadata_slot_crc32, word_at, vector_words_valid,
  app_vector_is_valid, validate_slot_at_run_offset, validate_slot_as_slot_a, validate_slot_direct,
  direct_slot_is_bootable, active_app_is_valid, direct_active_app_is_valid,
}
use hdrt.Bootloader.Main.{
  Ending, jump_to_app, jump_active, jump_direct, boot_direct, boot_loaded, boot_from, main,
}

-- Where a slot lies, and the size and the checksum that the metadata record for it.
pub data Records (m : Metadata) (slot : Slot) : ℕ → ℕ → ℕ → Type 0 where
  in_a : slot ≡ slot_a → Records m slot slot_a_offset m.slot_a_size m.slot_a_crc32
  in_b : slot ≡ slot_b → Records m slot slot_b_offset m.slot_b_size m.slot_b_crc32

-- At an offset of the flash, an image of a size and with a checksum, whose vector fits where it lies.
pub record IsImage (L : Library) (f : Flash) (offset size crc : ℕ) : Type 0 where
  pub not_empty : size ≢ 0
  pub fits : size ≤ slot_size
  pub vector_fits : L.app_vector_valid f.memory offset size offset ≡ true
  pub checksum : L.pota.crc32_compute (λ i. f.memory (offset + i)) size ≡ crc

-- Two words that can be a stack pointer and a Thumb entry.
pub record IsEntry (f : Flash) (o : ℕ) : Type 0 where
  pub stack_from : 0x20000000 ≤ word_at (λ i. f.memory (o + i)) 0
  pub stack_to : word_at (λ i. f.memory (o + i)) 0 ≤ 0x20082000
  pub thumb : bit_and (word_at (λ i. f.memory (o + i)) 4) 1 ≢ 0

-- Why what lies at an offset may run: it is the image that the metadata record for that slot; or its
-- vector looks right, and the metadata record no image there, or name another slot than A, which
-- then runs on its vector alone, or could not be loaded.
pub data MayRun (L : Library) (f : Flash) (slot : Slot) (offset : ℕ)
    : Option Metadata → Type 0 where
  recorded :
      (m : Metadata) (size crc : ℕ)
      → Records m slot offset size crc
      → IsImage L f offset size crc
      → MayRun L f slot offset (some m)
  unrecorded :
      (m : Metadata) (size crc : ℕ)
      → Records m slot offset size crc
      → size ≡ 0
      → IsEntry f offset
      → MayRun L f slot offset (some m)
  inactive_a :
      (m : Metadata)
      → slot ≡ slot_a
      → offset ≡ slot_a_offset
      → m.active_slot ≢ slot_a
      → IsEntry f offset
      → MayRun L f slot offset (some m)
  no_metadata :
      slot ≡ slot_a → offset ≡ slot_a_offset → IsEntry f offset → MayRun L f slot offset none

-- Why `main` may end like this: it idles, or it jumps to a slot that may run by the metadata and the
-- flash as they are at the jump.
pub data Justified (L : Library) (e : Ending) : Type 0 where
  idle : e.jump ≡ none → Justified L e
  jumps :
      (slot : Slot) (offset : ℕ)
      → e.jump ≡ some (jump_to_app e.end_flash offset)
      → MayRun L e.end_flash slot offset e.end_metadata
      → Justified L e

app_vector-IsEntry : (f : Flash) (o : ℕ) → app_vector_is_valid f o ≡ true → IsEntry f o
unfolding app_vector_is_valid vector_words_valid read
app_vector-IsEntry f o e = record {
  stack_from = ground arith;
  stack_to = ground arith;
  thumb = ground arith;
}

Records-slot :
    (m : Metadata) (slot : Slot)
    → slot_is_valid slot ≡ true
    → Records m slot
        (partition_slot_offset slot)
        (metadata_slot_size m slot)
        (metadata_slot_crc32 m slot)
unfolding slot_is_valid partition_slot_offset metadata_slot_size metadata_slot_crc32
Records-slot m zero e = absurd (ground (arith, e))
Records-slot m (suc zero) e = in_a refl
Records-slot m (suc (suc zero)) e = in_b refl
Records-slot m (suc (suc (suc n))) e = absurd (ground (arith, e))

module _ (L : Library) where
  validate-IsImage :
      (f : Flash) (slot : Slot) (size crc offset : ℕ)
      → partition_slot_offset slot ≡ offset
      → validate_slot_at_run_offset L f slot size crc offset ≡ true
      → IsImage L f offset size crc
  unfolding validate_slot_at_run_offset partition_slot_size
  validate-IsImage f slot size crc offset o e = record {
    not_empty = ground arith;
    fits = ground arith;
    vector_fits = ground arith;
    checksum = ground arith;
  }

  direct-MayRun :
      (f : Flash) (m : Metadata) (slot : Slot)
      → direct_slot_is_bootable L f m slot ≡ true
      → MayRun L f slot (partition_slot_offset slot) (some m)
  unfolding direct_slot_is_bootable validate_slot_direct
  direct-MayRun f m slot e =
      let r = Records-slot m slot (ground (arith, e)) in
      elim (Bool-cases (metadata_slot_size m slot == 0)) [
        | inl empty ↦
            unrecorded m _ _ r (ground arith)
              (app_vector-IsEntry f (partition_slot_offset slot) (ground (arith, e, empty)))
        | inr full ↦ recorded m _ _ r (validate-IsImage f slot _ _ _ refl (ground (arith, e, full)))
      ]

  active-MayRun :
      (f : Flash) (m : Option Metadata)
      → active_app_is_valid L f m ≡ true
      → MayRun L f slot_a slot_a_offset m
  unfolding active_app_is_valid validate_slot_as_slot_a
  active-MayRun f none e = no_metadata refl refl (app_vector-IsEntry f slot_a_offset e)
  active-MayRun f (some m) e = elim (Bool-cases (m.active_slot == slot_a)) [
    | inl here ↦ elim (Bool-cases (m.slot_a_size == 0)) [
      | inl empty ↦
          unrecorded m _ _ (in_a refl) (ground arith)
            (app_vector-IsEntry f slot_a_offset (ground (arith, e, empty)))
      | inr full ↦ recorded m _ _ (in_a refl) (
          validate-IsImage f slot_a _ _ _ (unfold partition_slot_offset in refl)
            (ground (arith, e, here, full)))
    ]
    | inr away ↦
        inactive_a m refl refl (ground arith)
          (app_vector-IsEntry f slot_a_offset (ground (arith, e, away)))
  ]

  module _ (P : Port) where
    jump_active-Justified : (f : Flash) (m : Option Metadata) → Justified L (jump_active L P f m)
    unfolding jump_active
    jump_active-Justified f m = elim (Bool-cases (active_app_is_valid L f m)) [
      | inl v ↦ jumps slot_a slot_a_offset (rw v refl) (active-MayRun f m v)
      | inr v ↦ idle (rw v refl)
    ]

    jump_direct-Justified : (r : Boot × Bool) → Justified L (jump_direct L P r)
    unfolding jump_direct direct_active_app_is_valid
    jump_direct-Justified (s, true) =
        if_each (Justified L) (direct_slot_is_bootable L s.flash s.metadata s.metadata.active_slot)
          (λ v.
            jumps s.metadata.active_slot _ refl
              (direct-MayRun s.flash s.metadata s.metadata.active_slot v))
          (λ v. jump_active-Justified s.flash (some s.metadata))
    jump_direct-Justified (s, false) = jump_active-Justified s.flash (some s.metadata)

    boot_from-Justified : (f : Flash) (m : Option Metadata) → Justified L (boot_from L P f m)
    unfolding boot_from boot_loaded boot_direct
    boot_from-Justified f none = jump_active-Justified f none
    boot_from-Justified f (some m) =
        if_both (Justified L) _ (jump_active-Justified _ _) (jump_direct-Justified _)

    -- `main` idles, or it jumps to a slot for one of these reasons, which hold of the flash and the
    -- metadata at the jump. The flash holds an image of the size and with the checksum that the
    -- metadata record for that slot, not empty, no larger than the slot, and with a vector that the
    -- library accepts there. Or the slot's first two words are a stack pointer in the RAM and an odd
    -- entry address, and the metadata record the size 0 for that slot; or it is slot A, and the
    -- active slot is another or the metadata could not be loaded.
    pub main-Justified : (f : Flash) → Justified L (main L P f)
    unfolding main
    main-Justified f = boot_from-Justified f (load L.pota f)
