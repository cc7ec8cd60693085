-- ===== src/Bootloader/Copied.antt =====
-- bootloader/src/bootloader_main.c: the copy of the staged image ends, and is a copy.
use hdrt.Prelude.{
  ℕ, zero, suc, ◌+◌, ◌-◌, ◌≤◌, ◌<◌, ◌≡◌, ◌⊎◌, ◌∙◌, inl, inr, refl, ap, Bool, true, false, ◌||◌, not,
  Option, none, some, ltb, leb, ◌==◌, if◌then◌else◌, arith, dec_lt, if_both, if_each,
}
use hdrt.Bootloader.Frame.{erase_active-Spares}
use hdrt.Flash.Frame.{IsLocal, SameOn}
use hdrt.Flash.Writes.{program_effect}
use hdrt.OtaMetadata.Partition.{
  slot_a, slot_b, slot_a_offset, slot_b_offset, slot_size, metadata_offset, partition_slot_offset,
  partition_slot_size,
}
use hdrt.Bootloader.Spares.{untouched, and_then_rest}
use hdrt.Bootloader.Steps.{store_progress-Spares, copy_round-Spares}
use hdrt.Flash.{page_size, Bytes, Port, Flash}
use hdrt.Bootloader.Images.{Library}
use hdrt.Bootloader.Copy.{
  progress_store_bytes, Boot, and_then, round_up, copied_page, finished, program_chunk, copy_round,
  copy_rounds, erase_active, copy_slot,
}

-- The bytes that a round copies at most: a page, or what is left.
abbrev chunk_of : ℕ → ℕ → ℕ
chunk_of size copied = if ltb page_size (size - copied) then page_size else size - copied

-- The loop of `bootloader_copy_slot` ends: with more fuel than there are bytes left it does not run
-- out, whatever the flash answers.
pub copy_rounds_total :
    (L : Library) (P : Port) (fuel src dst size copied next : ℕ) (s : Boot)
    → size - copied < fuel
    → (r : Boot × Bool) × (copy_rounds L P fuel src dst size copied next s ≡ some r)
unfolding copy_rounds
copy_rounds_total L P zero src dst size copied next s h = absurd (omega (arith, h))
copy_rounds_total L P (suc fuel) src dst size copied next s h =
    let done = copied + chunk_of size copied in
    let further = if leb next done || leb size done then next + progress_store_bytes else next in
    let r = copy_round L P src dst size copied next s in
    let Ends : Option (Boot × Bool) → Type 0 = λ o. (x : Boot × Bool) × (o ≡ some x) in
    if_each Ends (not (ltb copied size)) (λ e. ((s, true), refl))
      λ e.
        if_both Ends (not r.1) ((r.0, false), refl)
          (copy_rounds_total L P fuel src dst size done further r.0 (ground (arith, h, e)))

-- `img` is the image in slot B, and its first `copied` bytes are in slot A.
record Copying (size copied : ℕ) (img : Bytes) (f : Flash) : Type 0 where
  source : (i : ℕ) → i < size → f.memory (slot_b_offset + i) ≡ img i
  target : (i : ℕ) → i < copied → i < size → f.memory (slot_a_offset + i) ≡ img i

and_then_first :
    (r : Boot × Bool) (next : Boot → Boot × Bool) → (and_then r next).1 ≡ true → r.1 ≡ true
and_then_first (t, true) next e = refl
and_then_first (t, false) next e = e

rounded : (chunk i : ℕ) → i < chunk → i < round_up chunk page_size
unfolding round_up
rounded chunk i h = omega (arith, h)

page_byte :
    (f : Flash) (from chunk i : ℕ) → i < chunk → copied_page f from chunk i ≡ f.memory (from + i)
unfolding copied_page
page_byte f from chunk i h = ground arith

module _ (L : Library) (P : Port) (law : IsLocal P) where
  program_chunk_effect :
      (src dst copied chunk i : ℕ) (s : Boot)
      → (program_chunk L P src dst copied chunk s).1 ≡ true
      → i < chunk
      → (program_chunk L P src dst copied chunk s).0.flash.memory (dst + copied + i)
        ≡ s.flash.memory (src + copied + i)
  unfolding program_chunk
  program_chunk_effect src dst copied chunk i s e h =
      program_effect P s.flash (dst + copied) (copied_page s.flash (src + copied) chunk)
        (round_up chunk page_size) i e (rounded chunk i h)
      ∙ page_byte s.flash (src + copied) chunk i h

  -- The new bytes survive the store of the progress.
  copy_round_effect :
      (size copied next i : ℕ) (s : Boot)
      → (copy_round L P slot_b_offset slot_a_offset size copied next s).1 ≡ true
      → i < chunk_of size copied
      → size ≤ slot_size
      → (copy_round L P slot_b_offset slot_a_offset size copied next s).0.flash.memory
          (slot_a_offset + copied + i)
        ≡ s.flash.memory (slot_b_offset + copied + i)
  unfolding copy_round
  copy_round_effect size copied next i s e h small =
      let r = program_chunk L P slot_b_offset slot_a_offset copied (chunk_of size copied) s in
      untouched
        (and_then_rest (λ k. k < metadata_offset) r _
          λ t. store_progress-Spares L P law (λ k. k < metadata_offset) (λ k q. inl q) _ _ t)
        (slot_a_offset + copied + i) (ground (arith, h, small))
      ∙ program_chunk_effect slot_b_offset slot_a_offset copied (chunk_of size copied) i s
          (and_then_first r _ e) h

  copy_round-Copying :
      (size copied next : ℕ) (img : Bytes) (s : Boot)
      → size ≤ slot_size
      → copied < size
      → Copying size copied img s.flash
      → (copy_round L P slot_b_offset slot_a_offset size copied next s).1 ≡ true
      → Copying size
          (copied + chunk_of size copied)
          img
          (copy_round L P slot_b_offset slot_a_offset size copied next s).0.flash
  copy_round-Copying size copied next img s small more c e =
      let Kept : ℕ → Type 0 = λ k.
        ((slot_b_offset ≤ k) × (k < slot_b_offset + size))
        ⊎ ((slot_a_offset ≤ k) × (k < slot_a_offset + copied)) in
      let r = copy_round L P slot_b_offset slot_a_offset size copied next s in
      let kept : SameOn Kept s.flash r.0.flash = untouched (
        copy_round-Spares L P law Kept (λ k q. inl (ground (arith, q, small, more))) slot_b_offset
          slot_a_offset size copied next s λ k a q. ground (arith, a, q, small, more)) in
      let source : (i : ℕ) → i < size → r.0.flash.memory (slot_b_offset + i) ≡ img i =
        λ i h. kept (slot_b_offset + i) (inl (omega arith, omega (arith, h))) ∙ c.source i h in
      record {
        source = source;
        target = λ i h t. elim (dec_lt i copied) [
          | yes q ↦ kept (slot_a_offset + i) (inr (omega arith, omega (arith, q))) ∙ c.target i q t
          | no q ↦ new i (omega (arith, q)) h t
        ];
      }
    where
      new :
          (i : ℕ)
          → copied ≤ i
          → i < copied + chunk_of size copied
          → i < size
          → (copy_round L P slot_b_offset slot_a_offset size copied next s).0.flash.memory
              (slot_a_offset + i)
            ≡ img i
      new i q h t =
          let j = i - copied in
          let at : copied + j ≡ i = omega (arith, q) in
          let after = (copy_round L P slot_b_offset slot_a_offset size copied next s).0.flash in
          ap after.memory (omega (arith, at))
          ∙ copy_round_effect size copied next j s e (omega (arith, q, h)) small
          ∙ ap s.flash.memory (omega (arith, at))
          ∙ c.source i t

  -- What the loop has when it ends well.
  CopiedOption : ℕ → Bytes → Option (Boot × Bool) → Type 0
  CopiedOption size img none = Unit {0}
  CopiedOption size img (some (t, false)) = Unit {0}
  CopiedOption size img (some (t, true)) = Copying size size img t.flash

  copy_rounds-Copied :
      (fuel size copied next : ℕ) (img : Bytes) (s : Boot)
      → size ≤ slot_size
      → Copying size copied img s.flash
      → CopiedOption size img (copy_rounds L P fuel slot_b_offset slot_a_offset size copied next s)
  unfolding copy_rounds CopiedOption
  copy_rounds-Copied zero size copied next img s small c = tt
  copy_rounds-Copied (suc fuel) size copied next img s small c =
      let done = copied + chunk_of size copied in
      let further = if leb next done || leb size done then next + progress_store_bytes else next in
      let r = copy_round L P slot_b_offset slot_a_offset size copied next s in
      if_each (CopiedOption size img) (not (ltb copied size))
        (λ e. record { source = c.source; target = λ i h t. c.target i (ground (arith, e, t)) t })
        λ e.
          if_each (CopiedOption size img) (not r.1) (λ q. tt)
            λ q. copy_rounds-Copied fuel size done further img r.0 small (
              copy_round-Copying size copied next img s small (ground (arith, e)) c
                (ground (arith, q)))

  finished-true :
      (size : ℕ) (img : Bytes) (s : Boot) (o : Option (Boot × Bool))
      → CopiedOption size img o
      → (finished s o).1 ≡ true
      → Copying size size img (finished s o).0.flash
  unfolding CopiedOption
  finished-true size img s (some (t, true)) c e = c
  finished-true size img s (some (t, false)) c e = absurd (ground (arith, e))
  finished-true size img s none c e = absurd (ground (arith, e))

  copied_after :
      (size : ℕ) (img : Bytes) (r : Boot × Bool)
      → size ≤ slot_size
      → Copying size 0 img r.0.flash
      → let c = and_then r λ t.
        finished t
          (copy_rounds L P (size + 1) slot_b_offset slot_a_offset size 0 progress_store_bytes t) in
        c.1 ≡ true → Copying size size img c.0.flash
  copied_after size img (t, true) small c e =
      finished-true size img t _
        (copy_rounds-Copied (size + 1) size 0 progress_store_bytes img t small c) e
  copied_after size img (t, false) small c e = absurd (ground (arith, e))

  copy_slot-Copying :
      (size : ℕ) (s : Boot)
      → (copy_slot L P slot_b slot_a size s).1 ≡ true
      → Copying size size
          (λ i. s.flash.memory (slot_b_offset + i))
          (copy_slot L P slot_b slot_a size s).0.flash
  unfolding copy_slot partition_slot_offset partition_slot_size
  copy_slot-Copying size s =
      let img : Bytes = λ i. s.flash.memory (slot_b_offset + i) in
      let InSlotB : ℕ → Type 0 = λ k. (slot_b_offset ≤ k) × (k < metadata_offset) in
      let r = erase_active L P slot_a_offset size s in
      if_each (λ (c : Boot × Bool). c.1 ≡ true → Copying size size img c.0.flash)
        ((size == 0) || ltb slot_size size) (λ q e. absurd (ground (arith, e)))
        λ q.
          let small : size ≤ slot_size = ground (arith, q) in
          let kept : SameOn InSlotB s.flash r.0.flash =
            untouched (
              erase_active-Spares L P law InSlotB (λ k t. inl t.1) (λ k t. inr t.0) size s small) in
          copied_after size img r small record {
            source = λ i h. kept (slot_b_offset + i) (omega arith, omega (arith, h, small));
            target = λ i h. absurd (omega (arith, h));
          }

  -- When `bootloader_copy_slot` reports success, slot A holds the first `size` bytes of slot B, as
  -- they were when it began, and slot B still does. An erase and a program of the SDK change no
  -- byte outside their range.
  pub copy_slot_copies :
      (size i : ℕ) (s : Boot)
      → (copy_slot L P slot_b slot_a size s).1 ≡ true
      → i < size
      → let after = (copy_slot L P slot_b slot_a size s).0.flash in
        (after.memory (slot_a_offset + i) ≡ s.flash.memory (slot_b_offset + i))
        × (after.memory (slot_b_offset + i) ≡ s.flash.memory (slot_b_offset + i))
  copy_slot_copies size i s e h =
      let c = copy_slot-Copying size s e in (c.target i h h, c.source i h)
