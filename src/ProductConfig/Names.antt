-- ===== src/ProductConfig/Names.antt =====
-- components/product_config/src/product_config.c: the names of the USB modes.
use hdrt.Prelude.{
  ℕ, zero, suc, ◌<◌, ◌≡◌, ◌↔◌, ◌⊎◌, inl, inr, refl, true, some, List, [], ◌∷◌, map, arith,
  Bool-cases,
}
use hdrt.ProductConfig.{Runtime, text_equals, usb_mode_to_string, usb_mode_from_text}

-- "CDC" is the mode 0; "USBTMC" and its short form "TMC" are the mode 1.
pub data Names : List ℕ → ℕ → Type 0 where
  cdc : (t : List ℕ) (m : ℕ) → t ≡ b'C' ∷ b'D' ∷ b'C' ∷ [] → m ≡ 0 → Names t m
  usbtmc :
      (t : List ℕ) (m : ℕ) → t ≡ b'U' ∷ b'S' ∷ b'B' ∷ b'T' ∷ b'M' ∷ b'C' ∷ [] → m ≡ 1 → Names t m
  tmc : (t : List ℕ) (m : ℕ) → t ≡ b'T' ∷ b'M' ∷ b'C' ∷ [] → m ≡ 1 → Names t m

module _ (upper : ℕ → ℕ) where
  text_equals-map :
      (text expected : List ℕ) → text_equals upper text expected ≡ true → map upper text ≡ expected
  unfolding text_equals
  text_equals-map [] [] e = refl
  text_equals-map [] (x ∷ xs) e = ground arith
  text_equals-map (c ∷ cs) [] e = ground arith
  text_equals-map (c ∷ cs) (x ∷ xs) e =
      let tail : map upper cs ≡ xs = text_equals-map cs xs (ground arith) in
      let head : upper c ≡ x = ground arith in rw (head, tail) refl

  -- It is the text in capitals that is compared.
  text_equals_capitals :
      (text expected : List ℕ)
      → text_equals upper text expected ≡ text_equals (λ c. c) (map upper text) expected
  unfolding text_equals
  text_equals_capitals [] [] = refl
  text_equals_capitals [] (x ∷ xs) = refl
  text_equals_capitals (c ∷ cs) [] = refl
  text_equals_capitals (c ∷ cs) (x ∷ xs) = rw (text_equals_capitals cs xs) refl

module _ (R : Runtime) where
  from_text-Names :
      (text : List ℕ) (mode : ℕ)
      → usb_mode_from_text R (some text) ≡ some mode
      → Names (map R.toupper text) mode
  unfolding usb_mode_from_text
  from_text-Names text mode e =
      elim (Bool-cases (text_equals R.toupper text (b'C' ∷ b'D' ∷ b'C' ∷ []))) [
        | inl c ↦ cdc _ _ (text_equals-map R.toupper text _ c) (ground (arith, e, c))
        | inr other ↦
            elim (Bool-cases
              (text_equals R.toupper text (b'U' ∷ b'S' ∷ b'B' ∷ b'T' ∷ b'M' ∷ b'C' ∷ []))) [
                | inl u ↦
                    usbtmc _ _ (text_equals-map R.toupper text _ u) (ground (arith, e, other, u))
                | inr long ↦
                    tmc _ _ (text_equals-map R.toupper text _ (ground (arith, e, other, long)))
                      (ground (arith, e, other, long))
              ]
      ]

  Names-from_text :
      (text : List ℕ) (mode : ℕ)
      → Names (map R.toupper text) mode
      → usb_mode_from_text R (some text) ≡ some mode
  unfolding usb_mode_from_text text_equals
  Names-from_text text mode n =
      rw
        (
          text_equals_capitals R.toupper text (b'C' ∷ b'D' ∷ b'C' ∷ []),
          text_equals_capitals R.toupper text (b'U' ∷ b'S' ∷ b'B' ∷ b'T' ∷ b'M' ∷ b'C' ∷ []),
          text_equals_capitals R.toupper text (b'T' ∷ b'M' ∷ b'C' ∷ []),
        )
        (elim n [
          | cdc t m e same ↦ rw (e, same) refl
          | usbtmc t m e same ↦ rw (e, same) refl
          | tmc t m e same ↦ rw (e, same) refl
        ])

  to_string-Names :
      (mode : ℕ)
      → Names (usb_mode_to_string mode) mode
        ⊎ ((1 < mode)
            × (usb_mode_to_string mode ≡ b'U' ∷ b'N' ∷ b'K' ∷ b'N' ∷ b'O' ∷ b'W' ∷ b'N' ∷ []))
  unfolding usb_mode_to_string
  to_string-Names zero = inl (cdc _ _ refl refl)
  to_string-Names (suc zero) = inl (usbtmc _ _ refl refl)
  to_string-Names (suc (suc mode)) = inr (omega arith, ground arith)

  -- A text is read as a mode exactly when its letters, turned into capitals, are a name of that mode;
  -- and each mode is printed as one of its names, any other number as UNKNOWN.
  pub from_text_iff :
      (text : List ℕ) (mode : ℕ)
      → ((usb_mode_from_text R (some text) ≡ some mode) ↔ Names (map R.toupper text) mode)
        × (Names (usb_mode_to_string mode) mode
            ⊎ ((1 < mode)
                × (usb_mode_to_string mode ≡ b'U' ∷ b'N' ∷ b'K' ∷ b'N' ∷ b'O' ∷ b'W' ∷ b'N' ∷ [])))
  from_text_iff text mode =
      ((from_text-Names text mode, Names-from_text text mode), to_string-Names mode)
