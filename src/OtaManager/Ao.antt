-- ===== src/OtaManager/Ao.antt =====
-- components/ota_manager/src/ota_ao.c: the manager as an active object. `ota_ao_service` takes one
-- event from the bus, or a tick when there is none.
use hdrt.Prelude.{ℕ, Bool, true, false, not, Option, none, some, ◌==◌, if◌then◌else◌}
use hdrt.Flash.{Port}
use hdrt.OtaMetadata.Metadata.{mode_direct_ab, Metadata}
use hdrt.OtaMetadata.Partition.{
  Slot, slot_none, slot_a, slot_b, slot_a_offset, partition_slot_offset, partition_slot_size,
}
use hdrt.OtaMetadata.Copies.{load}
use hdrt.Bootloader.Images.{Library}
use hdrt.EventBus.{OtaEvent, Bus, post_ota_event, try_recv_ota_event, tick, signal}
use hdrt.OtaManager.Vector.{state_idle, err_none, err_queue_full, Progress, OtaVector}
use hdrt.OtaManager.Port.{Session}
use hdrt.OtaManager.Fb.{OtaWorld, with_vector, vector_of, ota_fb_execute}

-- `struct ota_ao_context` less the fields that no code reads or writes, and the bus. The vector is
-- in `world`.
pub record Ao (σ : Type 0) : Type 0 where
  pub world : OtaWorld σ
  pub bus : Bus
  pub ao_target_slot : Slot
  pub target_offset : ℕ
  pub target_size : ℕ
  pub target_run_offset : ℕ

unfoldable pub target_slot_from_metadata : Metadata → Slot
target_slot_from_metadata m =
    if not (m.boot_mode == mode_direct_ab)
    then slot_b
    else (if m.active_slot == slot_a
        then slot_b
        else (if m.active_slot == slot_b then slot_a else slot_b))

unfoldable pub zeroed_progress : Progress
zeroed_progress = record {
  state = state_idle;
  target_slot = slot_b;
  expected_size = 0;
  received_size = 0;
  programmed_size = 0;
  crc32_expected = 0;
  crc32_running = 0;
  progress_permille = 0;
  error_code = err_none;
  last_result = 0;
}

unfoldable pub zeroed_vector : ℕ → OtaVector
zeroed_vector now = record {
  sequence = 0;
  timestamp_ms = now;
  progress = zeroed_progress;
  image_version = 0;
  boot_flags_summary = 0;
  last_event = 0;
}

unfoldable pub vector_from_metadata : OtaVector → Option Metadata → OtaVector
vector_from_metadata v none = v
vector_from_metadata v (some m) = record v {
  progress = record v.progress {
    target_slot =
        if not (m.pending_slot == slot_none) then m.pending_slot else target_slot_from_metadata m;
    expected_size = m.slot_b_size;
    crc32_expected = m.slot_b_crc32;
  };
  boot_flags_summary = m.last_boot_result;
}

unfoldable pub slot_from_loaded : Option Metadata → Slot
slot_from_loaded none = slot_b
slot_from_loaded (some m) = target_slot_from_metadata m

module _ {σ : Type 0} (L : Library) where
  -- `now` is `board_uptime_ms()`.
  unfoldable pub ao_init : ℕ → Ao σ → Ao σ × Bool
  ao_init now a =
      let m = load L.pota a.world.core.shared.chip in
      let slot = slot_from_loaded m in
      (
        record a {
          world = with_vector (vector_from_metadata (zeroed_vector now) m) a.world;
          ao_target_slot = slot;
          target_offset = partition_slot_offset slot;
          target_size = partition_slot_size slot;
          target_run_offset = slot_a_offset;
        },
        true,
      )

  module _ (P : Port) (S : Session σ) where
    unfoldable pub ao_post_event : Option OtaEvent → Ao σ → Ao σ × Bool
    ao_post_event e a =
        let (b, posted) = post_ota_event a.bus e in
        let v = vector_of a.world in
        let full = record v { progress = record v.progress { error_code = err_queue_full } } in
        if not posted
        then (record a { bus = b; world = with_vector full a.world }, false)
        else (record a { bus = b }, true)

    unfoldable pub serve_received : OtaWorld σ → Ao σ → Bus × Option OtaEvent → Ao σ
    serve_received w a (b, some e) = record a { bus = b; world = ota_fb_execute L P S b e w }
    serve_received w a (b, none) = record a {
      bus = b;
      world = ota_fb_execute L P S b (signal tick 0) w;
    }

    unfoldable pub ao_service : ℕ → Ao σ → Ao σ
    ao_service now a =
        let w = with_vector (record (vector_of a.world) { timestamp_ms = now }) a.world in
        serve_received w a (try_recv_ota_event a.bus)
