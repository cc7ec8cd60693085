-- ===== src/ProductConfig/Saved.antt =====
-- components/product_config/src/product_config.c: what was set is what the next start finds.
use hdrt.Prelude.{
  ℕ, ◌≡◌, ◌∙◌, refl, ap, Bool, true, false, not, Option, none, some, ◌==◌, arith, if_both, if_each,
}
use hdrt.Flash.{Port, Flash}
use hdrt.ProductConfig.{
  ConfigRecord, Runtime, Store, usb_mode_is_valid, read_record, or_default, product_config_init,
  take_over, program_record, set_usb_mode,
}

module _ (R : Runtime) where
  -- What a call of `product_config_set_usb_mode` comes to: it fails and keeps the mode in force, or
  -- the mode is in force and in the flash, where the next start finds it.
  pub data SetOutcome (mode : ℕ) (s : Store) (r : Store × Bool) : Type 0 where
    kept : r.1 ≡ false → r.0.current ≡ s.current → SetOutcome mode s r
    saved :
        r.1 ≡ true
        → usb_mode_is_valid mode ≡ true
        → r.0.current.usb_mode ≡ mode
        → ((t : Store) → t.chip ≡ r.0.chip → (product_config_init R t).0.current ≡ r.0.current)
        → SetOutcome mode s r

  take_over-SetOutcome :
      (mode : ℕ) (s t : Store) (o : Option ConfigRecord)
      → t.current ≡ s.current
      → usb_mode_is_valid mode ≡ true
      → read_record R t.chip ≡ o
      → SetOutcome mode s (take_over R mode t o)
  unfolding take_over product_config_init or_default
  take_over-SetOutcome mode s t none c v e = kept refl c
  take_over-SetOutcome mode s t (some r) c v e =
      if_each (SetOutcome mode s) (not (r.usb_mode == mode)) (λ q. kept refl c)
        λ q.
          saved refl v (ground (arith, q)) λ u same. ap (or_default R) (ap (read_record R) same ∙ e)

  program_record-SetOutcome :
      (P : Port) (mode : ℕ) (n : ConfigRecord) (s : Store) (r : Flash × Bool)
      → usb_mode_is_valid mode ≡ true
      → SetOutcome mode s (program_record R P mode n s r)
  unfolding program_record
  program_record-SetOutcome P mode n s (f, erased) v =
      if_both (SetOutcome mode s) (not erased) (kept refl refl) (
        if_both (SetOutcome mode s) _ (kept refl refl)
          (take_over-SetOutcome mode s _ (read_record R _) refl v refl))

  -- Setting the USB mode fails, and the record in force stays; or the mode is one of the two, it is
  -- in force, and a start with the flash as it is then comes up with the same record.
  pub set_usb_mode-SetOutcome :
      (P : Port) (mode : ℕ) (s : Store) → SetOutcome mode s (set_usb_mode R P mode s)
  unfolding set_usb_mode
  set_usb_mode-SetOutcome P mode s =
      if_each (SetOutcome mode s) (not (usb_mode_is_valid mode)) (λ q. kept refl refl)
        λ q. program_record-SetOutcome P mode _ s _ (ground (arith, q))
