-- ===== src/OtaManager/Gate.antt =====
-- components/ota_manager/src/ota_fb.c: when an update may begin.
use hdrt.Prelude.{◌+◌, ◌*◌, ◌≤◌, ◌<◌, ◌≡◌, ◌≢◌, ◌⊎◌, false, not, some, ◌==◌, if◌then◌else◌, bit_and}
use hdrt.Flash.{Port}
use hdrt.OtaMetadata.Metadata.{Metadata}
use hdrt.OtaMetadata.Partition.{slot_size}
use hdrt.ResourceArbiter.{fault, ensure}
use hdrt.Bootloader.Images.{Library}
use hdrt.EventBus.{BeginEvent}
use hdrt.OtaManager.Vector.{state_failed, ota_result_failed}
use hdrt.OtaManager.Port.{Shared, Session, make_platform}
use hdrt.OtaManager.Fb.{OtaWorld, vector_of}
use hdrt.OtaManager.Lock.{IsTaken}
use hdrt.OtaMetadata.Copies.{load}

-- All that a begin event needs: the manager is idle, aborted, failed or committed; the size of a plain
-- image, or of a package, is in its bounds; neither a capture nor the sync clock runs; and the arbiter
-- has not given the flash away and is not in the mode FAULT.
pub record MayBegin {σ : Type 0} (g : BeginEvent) (w : OtaWorld σ) : Type 0 where
  pub at_rest :
      (w.core.vector.progress.state ≡ 0)
      ⊎ (w.core.vector.progress.state ≡ 10)
      ⊎ (w.core.vector.progress.state ≡ 9)
      ⊎ (w.core.vector.progress.state ≡ 8)
  pub not_empty : g.size ≢ 0
  pub image_fits : bit_and g.flags 1 ≡ 0 → g.size ≤ 1400 * 1024
  pub package_fits : bit_and g.flags 1 ≢ 0 → (512 < g.size) × (g.size ≤ 512 + slot_size + slot_size)
  pub no_capture : w.capture_running ≡ false
  pub no_clock : w.clock_running ≡ false
  pub flash_free : ¬ IsTaken w.core.shared.arbiter
  pub no_fault : (ensure w.core.shared.arbiter).mode ≢ fault

module _ {σ : Type 0} (L : Library) (P : Port) (S : Session σ) (g : BeginEvent)
    (w : OtaWorld σ) where
  -- The session set up with the platform of the metadata and, if that succeeds, given the size, the
  -- checksum and the kind.
  abbrev pub begun : Metadata → Shared → σ
  begun m s =
      let i = S.session_init (make_platform L P m) w.core.session in
      if i.1 then (S.session_begin g.size g.crc32 (not (bit_and g.flags 1 == 0)) i.0 s).0 else i.0

  -- What a begin event comes to.
  pub data Gate (after : OtaWorld σ) : Type 0 where
    refused :
        ¬ MayBegin g w
        → after.core.session ≡ w.core.session
        → after.core.shared.chip ≡ w.core.shared.chip
        → (vector_of after).progress.state ≡ state_failed
        → (vector_of after).progress.last_result ≡ ota_result_failed
        → Gate after
    opened :
        MayBegin g w
        → (vector_of after).image_version ≡ g.image_version
        → (m : Metadata) → load L.pota w.core.shared.chip ≡ some m
        → (s : Shared) → s.chip ≡ w.core.shared.chip
        → after.core.session ≡ begun m s
        → Gate after
