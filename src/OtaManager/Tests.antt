-- ===== src/OtaManager/Tests.antt =====
-- The theorems about the update manager at a concrete state, with a session that does nothing.
use hdrt.Prelude.{ℕ, ◌+◌, ◌≡◌, ◌⊎◌, ◌∙◌, refl, ap, true, false, none, some, [], ◌∷◌, arith}
use hdrt.Flash.{sector_size}
use hdrt.ResourceArbiter.{flash, Context, zeroed, reset, ensure, grant, acquire_owned}
use hdrt.OtaMetadata.Partition.{slot_b, slot_b_offset}
use hdrt.OtaMetadata.TestData.{test_port, blank_flash, test_pota}
use hdrt.Bootloader.Images.{Library}
use hdrt.EventBus.{
  OtaEvent, event_bus_init, write_message, advance_tail, accept, post_ota_event, end_of_image,
  boot_image, tick, signal,
}
use hdrt.EventBus.Invariant.{IsValid, event_bus_init-IsValid, post-IsValid}
use hdrt.EventBus.Fifo.{delivery, send, signals}
use hdrt.EventBus.Refine.{contents, contents_empty, post_refines}
use hdrt.OtaManager.Vector.{
  state_idle, state_erase_slot, state_ready_to_reboot, signal_number, event_number,
}
use hdrt.OtaManager.Port.{Session, core_flash_erase}
use hdrt.OtaManager.Fb.{OtaWorld, ota_fb_execute}
use hdrt.OtaManager.Ao.{Ao, zeroed_progress, zeroed_vector, ao_service}
use hdrt.OtaManager.Lock.{IsTaken, IsDisciplined, ota_fb_execute-IsTaken, rests, erases}
use hdrt.OtaManager.Gate.{Gate}
use hdrt.OtaManager.Reboot.{reboot_needs_ready}
use hdrt.OtaManager.Drain.{timed, serve_times, serve_times_drains, ao_service_oldest}

abbrev test_library : Library
test_library = record { pota = test_pota; app_vector_valid = λ b o size run. true }

-- The session counts its calls, and a service erases the first sector of slot B.
abbrev test_session : Session ℕ
test_session = record {
  session_init = λ p n. (n, true);
  session_begin = λ size crc packaged n s. (n + 1, s, 0);
  session_service = λ budget n s.
      (n + 1, (core_flash_erase test_library test_port slot_b_offset sector_size s).0, 0);
  session_write = λ bytes k n s. (n + 1, s, 0);
  session_end = λ n s. (n + 1, s, 0);
  session_abort = λ n s. (n + 1, s, 0);
  get_status = λ n. record zeroed_progress { state = state_erase_slot };
  error_to_product = λ error aliases other. error;
  result_to_product = λ r other. r;
  pota_err_none = 0;
  pota_err_product_mismatch = 50;
  pota_err_hardware_mismatch = 51;
  pota_err_bootloader_too_old = 52;
}

test_session-IsDisciplined : IsDisciplined test_library test_port test_session
test_session-IsDisciplined = record {
  begin_reaches = λ size crc packaged c s. rests s;
  service_reaches = λ budget c s. erases slot_b_offset sector_size s _ (rests _);
  write_reaches = λ bytes n c s. rests s;
  end_reaches = λ c s. rests s;
  abort_reaches = λ c s. rests s;
}

abbrev world_with : Context → ℕ → OtaWorld ℕ
world_with a state = record {
  core = record {
    session = 0;
    shared = record { chip = blank_flash; arbiter = a };
    vector = record (zeroed_vector 0) { progress = record zeroed_progress { state = state } };
  };
  capture_running = false;
  clock_running = false;
  reboot_ms = none;
}

-- The storage has the flash, and the session wants to erase.
abbrev taken_world : OtaWorld ℕ
taken_world = world_with (acquire_owned flash (some "storage") zeroed).0 state_erase_slot

ota_fb_execute-IsTaken_example :
    let after =
      (ota_fb_execute test_library test_port test_session event_bus_init
        (signal tick 0)
        taken_world).core.shared in
    (after.chip ≡ blank_flash) × IsTaken after.arbiter
unfolding zeroed_vector zeroed_progress acquire_owned zeroed ensure reset grant
ota_fb_execute-IsTaken_example =
    ota_fb_execute-IsTaken test_library test_port test_session event_bus_init (signal tick 0)
      taken_world test_session-IsDisciplined (λ c. c) refl

abbrev free_world : OtaWorld ℕ
free_world = world_with zeroed state_idle

reboot_needs_ready_example :
    let after =
      ota_fb_execute test_library test_port test_session event_bus_init
        (signal boot_image 0)
        free_world in
    (after.reboot_ms ≡ none)
    ⊎ ((event_number (signal boot_image 0) ≡ 6)
        × (state_idle ≡ state_ready_to_reboot)
        × (after.reboot_ms ≡ some 50))
unfolding zeroed_vector zeroed_progress event_number signal_number
reboot_needs_ready_example =
    reboot_needs_ready test_library test_port test_session event_bus_init (signal boot_image 0)
      free_world

-- One begin event waits.
abbrev waiting : Ao ℕ
waiting = record {
  world = free_world;
  bus = (post_ota_event event_bus_init (some (signal end_of_image 0))).0;
  ao_target_slot = slot_b;
  target_offset = 0;
  target_size = 0;
  target_run_offset = 0;
}

waiting-IsValid : IsValid waiting.bus
waiting-IsValid = post-IsValid event_bus_init (some (signal end_of_image 0)) event_bus_init-IsValid

serve_times_drains_example :
    contents (serve_times test_library test_port test_session (5 ∷ 7 ∷ []) waiting).bus ≡ []
unfolding post_ota_event accept event_bus_init advance_tail write_message
serve_times_drains_example =
    serve_times_drains test_library test_port test_session (5 ∷ 7 ∷ []) waiting waiting-IsValid
      (omega arith)

none_yet : contents event_bus_init ≡ []
unfolding event_bus_init
none_yet = contents_empty event_bus_init refl

ao_service_oldest_example :
    let after = ao_service test_library test_port test_session 5 waiting in
    (e : OtaEvent) × (delivery after.bus e ≡ signals end_of_image 0)
    × (contents after.bus ≡ [])
    × (after.world
        ≡ ota_fb_execute test_library test_port test_session after.bus e (timed 5 waiting))
unfolding send
ao_service_oldest_example =
    ao_service_oldest test_library test_port test_session 5 waiting (signals end_of_image 0) []
      waiting-IsValid waiting_contents
  where
    waiting_contents : contents waiting.bus ≡ signals end_of_image 0 ∷ []
    waiting_contents =
        ap (λ p. p.0)
          (post_refines event_bus_init (some (signal end_of_image 0)) event_bus_init-IsValid)
        ∙ rw none_yet refl
