-- ===== src/OtaMetadata/StoreLoad.antt =====
-- components/ota_manager/src/ota_metadata.c: what is stored is what the next load finds.
use hdrt.Prelude.{
  ℕ, zero, suc, ◌+◌, ◌-◌, ◌%◌, ◌^◌, ◌≤◌, ◌<◌, ◌≡◌, ◌⊎◌, ◌∙◌, ap, Bool, true, false, some, [], ◌∷◌,
  arith,
}
use hdrt.Flash.{Bytes, Port, Flash, is_range_valid, read, erase}
use hdrt.Flash.Frame.{IsLocal}
use hdrt.Flash.Writes.{equal_from_lem}
use hdrt.OtaMetadata.Layout.{IsWords}
use hdrt.OtaMetadata.Metadata.{Metadata, sizeof_metadata, sizeof_metadata_v2, Pota}
use hdrt.OtaMetadata.Copies.{
  copy_size_bytes, copy_count, copy_offset, from_legacy, checked_copy, load_copy, selected, load,
  program_pages, verify_copy, write_copy, store,
}
use hdrt.OtaMetadata.Frame.{store_copy-SameOn}

-- How the compiler lays a record out: in bytes, which give back a record whose fields fit their C
-- types; and nothing past its size is looked at.
pub record IsLayout (Q : Pota) : Type 0 where
  pub bytes_of-lt : (m : Metadata) (i : ℕ) → Q.bytes_of m i < 2 ^ 8
  pub of_bytes-bytes_of : (m : Metadata) → IsWords m → Q.of_bytes (Q.bytes_of m) ≡ m
  pub of_bytes_local :
      (b c : Bytes) → ((i : ℕ) → i < sizeof_metadata → b i ≡ c i) → Q.of_bytes b ≡ Q.of_bytes c
  pub v2_of_bytes_local :
      (b c : Bytes)
      → ((i : ℕ) → i < sizeof_metadata_v2 → b i ≡ c i)
      → Q.v2_of_bytes b ≡ Q.v2_of_bytes c

-- The second record is out of the way of the first: it is damaged, or one update behind.
abbrev pub IsOlder : Pota → Metadata → Metadata → Type 0
IsOlder Q a b = (Q.is_valid b ≡ false) ⊎ (b.sequence + 1 ≡ a.sequence)

-- The library selects a valid record over one that is damaged or one update behind.
pub record SelectsNewest (Q : Pota) : Type 0 where
  pub newest_first :
      (a b : Metadata) → Q.is_valid a ≡ true → IsOlder Q a b → Q.select_newest (a ∷ b ∷ []) ≡ some a
  pub newest_second :
      (a b : Metadata) → Q.is_valid a ≡ true → IsOlder Q a b → Q.select_newest (b ∷ a ∷ []) ≡ some a

module _ (Q : Pota) (lay : IsLayout Q) where
  -- A load of a copy looks at the bytes of that copy only.
  load_copy_local :
      (f g : Flash) (k : ℕ)
      → ((i : ℕ)
          → i < sizeof_metadata
          → g.memory (copy_offset k + i) ≡ f.memory (copy_offset k + i))
      → load_copy Q g k ≡ load_copy Q f k
  unfolding load_copy checked_copy from_legacy read
  load_copy_local f g k h =
      let o = copy_offset k in
      let now : Q.of_bytes (λ i. g.memory (o + i)) ≡ Q.of_bytes (λ i. f.memory (o + i)) =
        lay.of_bytes_local _ _ h in
      let old : Q.v2_of_bytes (λ i. g.memory (o + i)) ≡ Q.v2_of_bytes (λ i. f.memory (o + i)) =
        lay.v2_of_bytes_local _ _ (λ i t. h i (omega (arith, t))) in
      ground (arith, now, old)

  -- A copy that holds the bytes of a valid record is loaded as that record.
  load_copy_stored :
      (g : Flash) (k : ℕ) (m : Metadata)
      → ((i : ℕ) → i < sizeof_metadata → g.memory (copy_offset k + i) ≡ Q.bytes_of m i)
      → is_range_valid (copy_offset k) sizeof_metadata ≡ true
      → IsWords m
      → Q.is_valid m ≡ true
      → load_copy Q g k ≡ m
  unfolding load_copy checked_copy read
  load_copy_stored g k m h r w v =
      let same : Q.of_bytes (λ i. g.memory (copy_offset k + i)) ≡ m =
        lay.of_bytes_local _ _ h ∙ lay.of_bytes-bytes_of m w in
      ground (arith, same)

-- Whichever of the two copies the record is in.
select_newest-stored :
    (Q : Pota) (newest : SelectsNewest Q) (copies : ℕ → Metadata) (k : ℕ)
    → k < 2
    → Q.is_valid (copies k) ≡ true
    → IsOlder Q (copies k) (copies (1 - k))
    → Q.select_newest (copies 0 ∷ copies 1 ∷ []) ≡ some (copies k)
select_newest-stored Q newest copies zero h v o = newest.newest_first (copies 0) (copies 1) v o
select_newest-stored Q newest copies (suc zero) h v o =
    newest.newest_second (copies 1) (copies 0) v o
select_newest-stored Q newest copies (suc (suc k)) h v o = absurd (omega (arith, h))

copy_offset_valid : (k : ℕ) → is_range_valid (copy_offset k) sizeof_metadata ≡ true
unfolding copy_offset is_range_valid
copy_offset_valid k = ground arith

module _ (Q : Pota) (P : Port) where
  -- The read-back of a store compares every byte.
  write_copy_effect :
      (m : Metadata) (o : ℕ) (r : Flash × Bool)
      → (write_copy Q P m o r).1 ≡ true
      → (i : ℕ) → i < sizeof_metadata
      → (write_copy Q P m o r).0.memory (o + i) ≡ Q.bytes_of m i
  unfolding write_copy verify_copy read
  write_copy_effect m o (f, erased) e i t =
      let g = (program_pages Q P 1 (Q.bytes_of m) o 0 f).0 in
      ground (arith, equal_from_lem (λ k. g.memory (o + k)) (Q.bytes_of m) sizeof_metadata 0 i)

  store_effect :
      (f : Flash) (m : Metadata)
      → (store Q P f m).1 ≡ true
      → (i : ℕ) → i < sizeof_metadata
      → let stored = Q.update_crc m in
        (store Q P f m).0.memory (copy_offset (stored.sequence % copy_count) + i)
        ≡ Q.bytes_of stored i
  unfolding store
  store_effect f m e =
      let stored = Q.update_crc m in
      let o = copy_offset (stored.sequence % copy_count) in
      write_copy_effect stored o (erase P f o copy_size_bytes) e

module _ (Q : Pota) (P : Port) (local_writes : IsLocal P) (lay : IsLayout Q) where
  abbrev other : Metadata → ℕ
  other stored = 1 - stored.sequence % copy_count

  abbrev CopyBytes : ℕ → ℕ → Type 0
  CopyBytes k i = (copy_offset k ≤ i) × (i < copy_offset k + sizeof_metadata)

  copies_apart :
      (n i : ℕ)
      → CopyBytes (1 - n % 2) i
      → (i < copy_offset (n % 2)) ⊎ (copy_offset (n % 2) + copy_size_bytes ≤ i)
  unfolding copy_offset
  copies_apart n i h = ground arith

  load_other :
      (f : Flash) (m : Metadata)
      → let k = other (Q.update_crc m) in load_copy Q (store Q P f m).0 k ≡ load_copy Q f k
  load_other f m =
      let stored = Q.update_crc m in
      load_copy_local Q lay f (store Q P f m).0 (other stored) λ i t.
        store_copy-SameOn Q P local_writes (CopyBytes (other stored)) f m
          (λ j c. copies_apart stored.sequence j c) (copy_offset (other stored) + i)
          (omega (arith, t))

  -- After a store that reports success, the next load finds the stored record with its checksums,
  -- brought up to the present version, if that record is valid and its fields fit their C types, the
  -- other copy is damaged or one update behind, the library selects a valid record over such a one,
  -- the bytes of a record whose fields fit give it back, and the SDK writes nothing outside its
  -- range.
  pub load-store :
      (f : Flash) (m : Metadata)
      → SelectsNewest Q
      → (store Q P f m).1 ≡ true
      → IsWords (Q.update_crc m)
      → Q.is_valid (Q.update_crc m) ≡ true
      → IsOlder Q (Q.update_crc m) (load_copy Q f (1 - (Q.update_crc m).sequence % copy_count))
      → load Q (store Q P f m).0 ≡ some (Q.upgrade_if_needed (Q.update_crc m))
  unfolding load selected
  load-store f m newest ok words valid older =
      let stored = Q.update_crc m in
      let g = (store Q P f m).0 in
      let k = stored.sequence % copy_count in
      let mine : load_copy Q g k ≡ stored =
        load_copy_stored Q lay g k stored (store_effect Q P f m ok) (copy_offset_valid k) words
          valid in
      let rival : load_copy Q g (1 - k) ≡ load_copy Q f (1 - k) = load_other f m in
      let valid_copy : Q.is_valid (load_copy Q g k) ≡ true = ap Q.is_valid mine ∙ valid in
      let older_copy : IsOlder Q (load_copy Q g k) (load_copy Q g (1 - k)) =
        rw (mine, rival) older in
      ap (λ o. some (selected Q o))
        (select_newest-stored Q newest (load_copy Q g) k (omega arith) valid_copy older_copy)
      ∙ ap (λ a. some (Q.upgrade_if_needed a)) mine
