-- ===== src/OtaManager/Vector.antt =====
-- components/ota_manager/inc/ota_vector.h, ota_error.h: the state that the manager publishes.
use hdrt.Prelude.{ℕ}
use hdrt.EventBus.{
  Signal, OtaEvent, end_of_image, abort, verify, commit, boot_image, tick, flash_job_done,
  flash_job_failed, boot_result, begin_update, data_block, signal,
}

-- `ota_state_t`
abbrev pub state_idle : ℕ
state_idle = 0

abbrev pub state_check_permission : ℕ
state_check_permission = 1

abbrev pub state_erase_slot : ℕ
state_erase_slot = 2

abbrev pub state_ready_to_reboot : ℕ
state_ready_to_reboot = 6

abbrev pub state_committed : ℕ
state_committed = 8

abbrev pub state_failed : ℕ
state_failed = 9

abbrev pub state_aborted : ℕ
state_aborted = 10

-- `ota_result_t`
abbrev pub ota_result_failed : ℕ
ota_result_failed = 4

abbrev pub ota_result_committed : ℕ
ota_result_committed = 5

-- `ota_error_t`
abbrev pub err_none : ℕ
err_none = 0

abbrev pub err_busy : ℕ
err_busy = 1

abbrev pub err_invalid_state : ℕ
err_invalid_state = 2

abbrev pub err_image_too_large : ℕ
err_image_too_large = 3

abbrev pub err_bad_header : ℕ
err_bad_header = 4

abbrev pub err_board_mismatch : ℕ
err_board_mismatch = 5

abbrev pub err_version_rejected : ℕ
err_version_rejected = 6

abbrev pub err_metadata : ℕ
err_metadata = 12

abbrev pub err_queue_full : ℕ
err_queue_full = 15

abbrev pub err_bad_argument : ℕ
err_bad_argument = 16

-- The fields of `ota_vector_t` that the library's session reports, by their names in
-- `pota_status_t`.
pub record Progress : Type 0 where
  pub state : ℕ
  pub target_slot : ℕ
  pub expected_size : ℕ
  pub received_size : ℕ
  pub programmed_size : ℕ
  pub crc32_expected : ℕ
  pub crc32_running : ℕ
  pub progress_permille : ℕ
  pub error_code : ℕ
  pub last_result : ℕ

-- `ota_vector_t`
pub record OtaVector : Type 0 where
  pub sequence : ℕ
  pub timestamp_ms : ℕ
  pub progress : Progress
  pub image_version : ℕ
  pub boot_flags_summary : ℕ
  pub last_event : ℕ

-- `ota_event_type_t`
unfoldable pub signal_number : Signal → ℕ
signal_number end_of_image = 2
signal_number abort = 3
signal_number verify = 4
signal_number commit = 5
signal_number boot_image = 6
signal_number tick = 7
signal_number flash_job_done = 8
signal_number flash_job_failed = 9
signal_number boot_result = 10

unfoldable pub event_number : OtaEvent → ℕ
event_number (begin_update g) = 0
event_number (data_block d) = 1
event_number (signal s value) = signal_number s
