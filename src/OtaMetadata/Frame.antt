-- ===== src/OtaMetadata/Frame.antt =====
-- components/ota_manager/src/ota_metadata.c: a store writes nothing outside the two copies.
use hdrt.Prelude.{
  ℕ, zero, suc, ◌+◌, ◌-◌, ◌*◌, ◌%◌, ◌≤◌, ◌<◌, ◌≡◌, ◌⊎◌, ◌∙◌, refl, Bool, ltb, if◌then◌else◌, arith,
}
use hdrt.Flash.{sector_size, page_size, Bytes, Port, Flash, erase, program}
use hdrt.Flash.Frame.{IsLocal, SameOn, erase-SameOn, program-SameOn}
use hdrt.OtaMetadata.Metadata.{Metadata, sizeof_metadata, Pota}
use hdrt.OtaMetadata.Partition.{metadata_offset}
use hdrt.OtaMetadata.Copies.{
  copy_size_bytes, copy_count, copy_offset, padded_page, program_pages, write_copy, store,
}

-- Two sectors hold the copies.
abbrev pub OutsideCopies : ℕ → Type 0
OutsideCopies i = (i < metadata_offset) ⊎ (metadata_offset + 2 * sector_size ≤ i)

module _ (Q : Pota) (P : Port) (law : IsLocal P) (S : ℕ → Type 0) where
  program_pages-SameOn :
      (n : ℕ) (src : Bytes) (o w : ℕ) (f : Flash)
      → ((i : ℕ) → S i → (i < o) ⊎ (o + w + n * page_size ≤ i))
      → SameOn S f (program_pages Q P n src o w f).0
  unfolding program_pages
  program_pages-SameOn zero src o w f h i s = refl
  program_pages-SameOn (suc n) src o w f h i s =
      let chunk = if ltb page_size (sizeof_metadata - w) then page_size else sizeof_metadata - w in
      let page = padded_page Q P src w chunk in
      let g = (program P f (o + w) page page_size).0 in
      let far : (k : ℕ) → S k → (k < o) ⊎ (o + (w + page_size) + n * page_size ≤ k) =
        λ k q. omega (arith, h k q) in
      let near : (k : ℕ) → (o + w) % page_size ≡ 0 → S k → (k < o + w) ⊎ (o + w + page_size ≤ k) =
        λ k a q. omega (arith, h k q) in
      ground (
        arith,
        program_pages-SameOn n src o (w + page_size) g far i s,
        program-SameOn P law S f (o + w) page page_size near i s,
      )

  write_copy-SameOn :
      (m : Metadata) (o : ℕ) (r : Flash × Bool)
      → ((i : ℕ) → S i → (i < o) ⊎ (o + copy_size_bytes ≤ i))
      → SameOn S r.0 (write_copy Q P m o r).0
  unfolding write_copy
  write_copy-SameOn m o (f, erased) h i s =
      ground (arith, program_pages-SameOn 1 (Q.bytes_of m) o 0 f (λ k q. omega (arith, h k q)) i s)

  -- A store writes only the copy that the sequence number of the stored record picks.
  pub store_copy-SameOn :
      (f : Flash) (m : Metadata)
      → let o = copy_offset ((Q.update_crc m).sequence % copy_count) in
        ((i : ℕ) → S i → (i < o) ⊎ (o + copy_size_bytes ≤ i)) → SameOn S f (store Q P f m).0
  unfolding store
  store_copy-SameOn f m h i s =
      let o = copy_offset ((Q.update_crc m).sequence % copy_count) in
      write_copy-SameOn (Q.update_crc m) o (erase P f o copy_size_bytes) h i s
      ∙ erase-SameOn P law S f o copy_size_bytes h i s

  copy_offset_far :
      (k i : ℕ) → OutsideCopies i → (i < copy_offset k) ⊎ (copy_offset k + copy_size_bytes ≤ i)
  unfolding copy_offset
  copy_offset_far k i h = ground arith

  -- A store writes only the two copies.
  pub store-SameOn :
      (f : Flash) (m : Metadata) → ((i : ℕ) → S i → OutsideCopies i) → SameOn S f (store Q P f m).0
  store-SameOn f m h =
      store_copy-SameOn f m
        λ i s. copy_offset_far ((Q.update_crc m).sequence % copy_count) i (h i s)
