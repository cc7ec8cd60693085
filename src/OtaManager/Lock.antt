-- ===== src/OtaManager/Lock.antt =====
-- middleware/portable_ota_port/src/portable_ota_core_port.c: the flash resource of the arbiter keeps
-- the session off the flash while another owner has it.
use hdrt.Prelude.{
  ℕ, ◌≡◌, refl, Bool, true, false, not, Option, none, some, ◌==◌, arith, bit_and, if_both,
}
use hdrt.OtaMetadata.Metadata.{Metadata}
use hdrt.EventBus.{
  BeginEvent, DataEvent, Signal, OtaEvent, Bus, byte_at, end_of_image, abort, verify, commit,
  boot_image, tick, flash_job_done, flash_job_failed, boot_result, begin_update, data_block, signal,
}
use hdrt.OtaManager.Fb.{
  OtaWorld, size_error, bump_sequence, set_state, set_error, ota_is_permitted, run_core,
  begin_loaded, begin_permitted, begin_sized, handle_begin, handle_tick, handle_data, handle_end,
  handle_abort, handle_boot, handle_signal, handle, ota_fb_execute,
}
use hdrt.Flash.{Bytes, Port, Flash}
use hdrt.ResourceArbiter.{
  flash, Context, ensure, publish_trigger_activity, can_begin_ota, refuse, acquire_owned, acquire,
}
use hdrt.Bootloader.Images.{Library}
use hdrt.OtaManager.Port.{
  Shared, Session, Core, with_flash_held, core_flash_erase, core_flash_program, core_mark_pending,
  core_confirm_active, report, begin_session, core_begin, core_service, core_write, core_end,
  core_abort,
}

-- The arbiter has the flash given to someone.
abbrev pub IsTaken : Context → Type 0
IsTaken a = (bit_and (ensure a).active_resources flash == 0) ≡ false

-- What the session can make of the flash and the arbiter by the operations it was given.
pub data Reaches (L : Library) (P : Port) : Shared → Shared → Type 0 where
  rests : (s : Shared) → Reaches L P s s
  erases :
      (offset size : ℕ) (s t : Shared)
      → Reaches L P (core_flash_erase L P offset size s).0 t
      → Reaches L P s t
  programs :
      (offset size : ℕ) (bytes : Bytes) (s t : Shared)
      → Reaches L P (core_flash_program L P offset bytes size s).0 t
      → Reaches L P s t
  marks :
      (slot size crc : ℕ) (s t : Shared)
      → Reaches L P (core_mark_pending L P slot size crc s).0 t
      → Reaches L P s t
  confirms : (s t : Shared) → Reaches L P (core_confirm_active L P s).0 t → Reaches L P s t

-- Someone has the flash, and it is as it was in `f`.
record IsKept (f : Flash) (s : Shared) : Type 0 where
  same_chip : s.chip ≡ f
  taken : IsTaken s.arbiter

with_flash_held-IsKept :
    (work : Flash → Flash × Bool) (f : Flash) (s : Shared)
    → IsKept f s
    → IsKept f (with_flash_held work s).0
unfolding with_flash_held acquire acquire_owned refuse ensure
with_flash_held-IsKept work f s k = record {
  same_chip = ground (arith, k.same_chip, k.taken);
  taken = ground (arith, k.taken);
}

-- The library touches the flash and the arbiter only through the operations it was given.
pub record IsDisciplined {σ : Type 0} (L : Library) (P : Port) (S : Session σ) : Type 0 where
  pub begin_reaches :
      (size crc : ℕ) (packaged : Bool) (c : σ) (s : Shared)
      → Reaches L P s (S.session_begin size crc packaged c s).1
  pub service_reaches :
      (budget : ℕ) (c : σ) (s : Shared) → Reaches L P s (S.session_service budget c s).1
  pub write_reaches :
      (bytes : Bytes) (n : ℕ) (c : σ) (s : Shared) → Reaches L P s (S.session_write bytes n c s).1
  pub end_reaches : (c : σ) (s : Shared) → Reaches L P s (S.session_end c s).1
  pub abort_reaches : (c : σ) (s : Shared) → Reaches L P s (S.session_abort c s).1

Reaches-IsKept :
    (L : Library) (P : Port) (f : Flash) (s t : Shared) → Reaches L P s t → IsKept f s → IsKept f t
unfolding core_flash_erase core_flash_program core_mark_pending core_confirm_active
Reaches-IsKept L P f s t (rests _) k = k
Reaches-IsKept L P f s t (erases offset size _ _ r) k =
    Reaches-IsKept L P f _ t r (with_flash_held-IsKept _ f s k)
Reaches-IsKept L P f s t (programs offset size bytes _ _ r) k =
    Reaches-IsKept L P f _ t r (with_flash_held-IsKept _ f s k)
Reaches-IsKept L P f s t (marks slot size crc _ _ r) k =
    Reaches-IsKept L P f _ t r (with_flash_held-IsKept _ f s k)
Reaches-IsKept L P f s t (confirms _ _ r) k =
    Reaches-IsKept L P f _ t r (with_flash_held-IsKept _ f s k)

-- Committing goes to the flash without the arbiter.
abbrev pub IsCommit : OtaEvent → Type 0
IsCommit (signal commit value) = Unit {0}
IsCommit _ = ⊥

module _ {σ : Type 0} (L : Library) (P : Port) (S : Session σ) (law : IsDisciplined L P S)
    (f : Flash) where
  abbrev Kept : OtaWorld σ → Type 0
  Kept w = IsKept f w.core.shared

  report-Kept :
      (c : Core σ) (r : σ × Shared × ℕ) → IsKept f r.1 → IsKept f (report L P S c r).0.shared
  unfolding report
  report-Kept c r k = k

  begin_session-Kept :
      (size crc : ℕ) (packaged : Bool) (c : Core σ) (r : σ × Bool)
      → IsKept f c.shared
      → IsKept f (begin_session L P S size crc packaged c r).0.shared
  unfolding begin_session report
  begin_session-Kept size crc packaged c (session, false) k = k
  begin_session-Kept size crc packaged c (session, true) k =
      Reaches-IsKept L P f c.shared _ (law.begin_reaches size crc packaged session c.shared) k

  begin_loaded-Kept :
      (g : BeginEvent) (w : OtaWorld σ) (m : Option Metadata)
      → Kept w
      → Kept (begin_loaded L P S g w m)
  unfolding begin_loaded set_error set_state run_core bump_sequence core_begin
  begin_loaded-Kept g w none k = k
  begin_loaded-Kept g w (some m) k = begin_session-Kept g.size g.crc32 _ _ _ k

  ota_is_permitted-Kept : (w : OtaWorld σ) → Kept w → Kept (ota_is_permitted w).0
  unfolding ota_is_permitted can_begin_ota publish_trigger_activity ensure
  ota_is_permitted-Kept w k = record { same_chip = k.same_chip; taken = ground (arith, k.taken) }

  begin_permitted-Kept :
      (g : BeginEvent) (r : OtaWorld σ × Bool) → Kept r.0 → Kept (begin_permitted L P S g r)
  unfolding begin_permitted set_error set_state bump_sequence
  begin_permitted-Kept g (w, ok) k = if_both Kept (not ok) k (begin_loaded-Kept g w _ k)

  begin_sized-Kept :
      (g : BeginEvent) (w : OtaWorld σ) (o : Option ℕ) → Kept w → Kept (begin_sized L P S g w o)
  unfolding begin_sized set_error set_state bump_sequence
  begin_sized-Kept g w (some n) k = k
  begin_sized-Kept g w none k =
      begin_permitted-Kept g (ota_is_permitted w) (ota_is_permitted-Kept w k)

  handle_begin-Kept : (g : BeginEvent) (w : OtaWorld σ) → Kept w → Kept (handle_begin L P S g w)
  unfolding handle_begin set_error set_state bump_sequence
  handle_begin-Kept g w k = if_both Kept _ k (begin_sized-Kept g w (size_error g) k)

  handle_tick-Kept : (w : OtaWorld σ) → Kept w → Kept (handle_tick L P S w)
  unfolding handle_tick run_core bump_sequence core_service report
  handle_tick-Kept w k =
      if_both Kept _ k (
        Reaches-IsKept L P f w.core.shared _ (law.service_reaches 0 w.core.session w.core.shared) k)

  handle_data-Kept :
      (b : Bus) (d : DataEvent) (w : OtaWorld σ) → Kept w → Kept (handle_data L P S b d w)
  unfolding handle_data set_error set_state run_core bump_sequence core_write report
  handle_data-Kept b d w k = if_both Kept _ k (
      Reaches-IsKept L P f w.core.shared _
        (law.write_reaches (byte_at b d.bytes) d.length w.core.session w.core.shared) k)

  handle_signal-Kept :
      (s : Signal) (v : ℕ) (w : OtaWorld σ)
      → ¬ IsCommit (signal s v)
      → Kept w
      → Kept (handle_signal L P S s w)
  unfolding handle_signal handle_end handle_abort handle_boot set_error set_state run_core
      bump_sequence core_end core_abort report
  handle_signal-Kept tick v w c k = handle_tick-Kept w k
  handle_signal-Kept end_of_image v w c k =
      Reaches-IsKept L P f w.core.shared _ (law.end_reaches w.core.session w.core.shared) k
  handle_signal-Kept abort v w c k =
      Reaches-IsKept L P f w.core.shared _ (law.abort_reaches w.core.session w.core.shared) k
  handle_signal-Kept boot_image v w c k = if_both Kept _ k k
  handle_signal-Kept commit v w c k = absurd (c tt)
  handle_signal-Kept verify v w c k = k
  handle_signal-Kept flash_job_done v w c k = k
  handle_signal-Kept flash_job_failed v w c k = k
  handle_signal-Kept boot_result v w c k = k

  ota_fb_execute-Kept :
      (b : Bus) (e : OtaEvent) (w : OtaWorld σ)
      → ¬ IsCommit e
      → Kept w
      → Kept (ota_fb_execute L P S b e w)
  unfolding ota_fb_execute handle
  ota_fb_execute-Kept b (begin_update g) w c k = handle_begin-Kept g _ k
  ota_fb_execute-Kept b (data_block d) w c k = handle_data-Kept b d _ k
  ota_fb_execute-Kept b (signal s v) w c k = handle_signal-Kept s v _ c k

-- While the arbiter has given the flash to an owner, no event but a commit changes the flash, and the
-- flash stays taken: the library touches both only through the operations it was given.
pub ota_fb_execute-IsTaken :
    {σ : Type 0} (L : Library) (P : Port) (S : Session σ) (b : Bus) (e : OtaEvent) (w : OtaWorld σ)
    → IsDisciplined L P S
    → ¬ IsCommit e
    → IsTaken w.core.shared.arbiter
    → let after = (ota_fb_execute L P S b e w).core.shared in
      (after.chip ≡ w.core.shared.chip) × IsTaken after.arbiter
ota_fb_execute-IsTaken L P S b e w law c t =
    let k =
      ota_fb_execute-Kept L P S law w.core.shared.chip b e w c
        (record { same_chip = refl; taken = t }) in
    (k.same_chip, k.taken)
