-- ===== src/EventBus.antt =====
-- components/event_bus/src/event_bus.c with components/ota_manager/inc/ota_event.h: the ring of
-- update events. The static ring is a `Bus` that each operation takes and returns; the critical
-- sections make each one step. A `const uint8_t *` is null, the caller's memory, or the data of a
-- slot of the ring, which is read in the bus as it is at that moment.
pub mod Invariant
pub mod Fifo
pub mod Refine
pub mod Lifetime
mod Tests
use hdrt.Prelude.{
  ℕ, ◌+◌, ◌-◌, ◌%◌, Bool, true, false, ◌||◌, Option, none, some, ltb, leb, ◌==◌, if◌then◌else◌,
  update, length,
}

abbrev pub queue_length : ℕ
queue_length = 8

abbrev pub event_max_data_size : ℕ
event_max_data_size = 512

pub data Pointer : Type 0 where
  null : Pointer
  memory_at : (ℕ → ℕ) → Pointer
  slot_data : ℕ → Pointer

-- `ota_begin_event_t`
pub record BeginEvent : Type 0 where
  pub size : ℕ
  pub crc32 : ℕ
  pub image_version : ℕ
  pub flags : ℕ

-- `ota_data_event_t`
pub record DataEvent : Type 0 where
  pub bytes : Pointer
  pub length : ℕ
  pub block_index : ℕ

-- The types of `ota_event_type_t` whose payload no code reads.
pub data Signal : Type 0 where
  end_of_image abort verify commit boot_image tick flash_job_done flash_job_failed boot_result :
      Signal

-- `ota_event_t`: its type, with the member of the union that goes with it.
pub data OtaEvent : Type 0 where
  begin_update : BeginEvent → OtaEvent
  data_block : DataEvent → OtaEvent
  signal : Signal → ℕ → OtaEvent

-- `event_bus_ota_message_t`
pub record Message : Type 0 where
  pub event : OtaEvent
  pub block : ℕ → ℕ

pub record Bus : Type 0 where
  pub queue : ℕ → Message
  pub head : ℕ
  pub tail : ℕ
  pub count : ℕ

-- `memset` to zero: type 0 is OTA_EVENT_BEGIN.
unfoldable pub empty_message : Message
empty_message = record {
  event = begin_update (record { size = 0; crc32 = 0; image_version = 0; flags = 0 });
  block = λ i. 0;
}

unfoldable pub event_bus_init : Bus
event_bus_init = record { queue = λ k. empty_message; head = 0; tail = 0; count = 0 }

unfoldable pub is_null : Pointer → Bool
is_null null = true
is_null _ = false

-- the byte at index `i` from a pointer
unfoldable pub byte_at : Bus → Pointer → ℕ → ℕ
byte_at b null i = 0
byte_at b (memory_at bytes) i = bytes i
byte_at b (slot_data k) i = (b.queue k).block i

-- `memcpy(to, from, n)`
unfoldable pub copy_bytes : (ℕ → ℕ) → (ℕ → ℕ) → ℕ → ℕ → ℕ
copy_bytes to from n i = if ltb i n then from i else to i

unfoldable pub write_message : Bus → Message → Bus
write_message b message = record b { queue = update b.queue b.tail message }

unfoldable pub advance_tail : Bus → Bus
advance_tail b = record b { tail = (b.tail + 1) % queue_length; count = b.count + 1 }

-- From `message->event = *event` on. A data block that is refused has been written into the free
-- slot all the same.
unfoldable pub accept : Bus → OtaEvent → Bus × Bool
accept b (data_block d) =
    let message = b.queue b.tail in
    let copied = record message {
      event = data_block (record d { bytes = slot_data b.tail });
      block = copy_bytes message.block (byte_at b d.bytes) d.length;
    } in
    if is_null d.bytes || (d.length == 0) || ltb event_max_data_size d.length
    then (write_message b (record message { event = data_block d }), false)
    else (advance_tail (write_message b copied), true)
accept b event = (advance_tail (write_message b (record (b.queue b.tail) { event = event })), true)

-- `none` is the null pointer.
unfoldable pub post_ota_event : Bus → Option OtaEvent → Bus × Bool
post_ota_event b none = (b, false)
post_ota_event b (some event) = if leb queue_length b.count then (b, false) else accept b event

-- The event that is received, when there is one. The pointer to store it in is never null.
unfoldable pub try_recv_ota_event : Bus → Bus × Option OtaEvent
try_recv_ota_event b =
    let received = record b { head = (b.head + 1) % queue_length; count = b.count - 1 } in
    if b.count == 0 then (b, none) else (received, some (b.queue b.head).event)
