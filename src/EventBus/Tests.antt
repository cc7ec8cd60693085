-- ===== src/EventBus/Tests.antt =====
-- The theorems about event_bus.c at concrete rings.
use hdrt.Prelude.{◌+◌, ◌≡◌, refl, Option, none, some, List, [], ◌∷◌, arith}
use hdrt.EventBus.{
  OtaEvent, Bus, event_bus_init, is_null, byte_at, copy_bytes, write_message, advance_tail, accept,
  post_ota_event, try_recv_ota_event, memory_at, slot_data, commit, tick, data_block, signal,
}
use hdrt.EventBus.Invariant.{IsValid, event_bus_init-IsValid, post-IsValid}
use hdrt.EventBus.Fifo.{request, send, receive}
use hdrt.EventBus.Refine.{contents, post_refines, handed_over, recv_refines}
use hdrt.EventBus.Lifetime.{post_all, received_block_stays}

abbrev two_bytes : OtaEvent
two_bytes = data_block (record { bytes = memory_at (λ i. i + 5); length = 2; block_index = 9 })

abbrev one_block : Bus
one_block = (post_ota_event event_bus_init (some two_bytes)).0

one_block-IsValid : IsValid one_block
one_block-IsValid = post-IsValid event_bus_init (some two_bytes) event_bus_init-IsValid

post_refines_example :
    let (c, ok) = post_ota_event event_bus_init (some two_bytes) in
    (contents c, ok) ≡ send (contents event_bus_init) (request event_bus_init (some two_bytes))
post_refines_example = post_refines event_bus_init (some two_bytes) event_bus_init-IsValid

recv_refines_example : handed_over (try_recv_ota_event one_block) ≡ receive (contents one_block)
recv_refines_example = recv_refines one_block one_block-IsValid

post-IsValid_example : IsValid one_block
post-IsValid_example = post-IsValid event_bus_init (some two_bytes) event_bus_init-IsValid

-- Six events are posted behind the receiver's back.
abbrev six : List (Option OtaEvent)
six =
    some two_bytes
    ∷ some two_bytes
    ∷ none
    ∷ some two_bytes
    ∷ some (signal commit 0)
    ∷ some two_bytes
    ∷ []

received_block_stays_example :
    let c = (try_recv_ota_event one_block).0 in
    byte_at (post_all six c) (slot_data 0) 1 ≡ byte_at c (slot_data 0) 1
unfolding post_ota_event accept event_bus_init try_recv_ota_event advance_tail write_message is_null
received_block_stays_example =
    received_block_stays one_block (record { bytes = slot_data 0; length = 2; block_index = 9 }) six
      1 one_block-IsValid refl (omega arith)

-- The seventh takes the slot.
seventh :
    byte_at
      (post_all
        (some (signal tick 0)
          ∷ some two_bytes
          ∷ some two_bytes
          ∷ some two_bytes
          ∷ some two_bytes
          ∷ some two_bytes
          ∷ some two_bytes
          ∷ some (data_block (record { bytes = memory_at (λ i. 0); length = 2; block_index = 3 }))
          ∷ [])
        (try_recv_ota_event one_block).0)
      (slot_data 0)
      1
    ≡ 0
unfolding post_ota_event accept event_bus_init try_recv_ota_event advance_tail write_message is_null
    post_all byte_at copy_bytes
seventh = refl
