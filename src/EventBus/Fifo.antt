-- ===== src/EventBus/Fifo.antt =====
-- What the users of components/event_bus/src/event_bus.c may rely on: a queue of at most eight events,
-- oldest first, in which a data block is its bytes.
use hdrt.Prelude.{
  ℕ, zero, suc, ◌+◌, Bool, true, false, ◌||◌, Option, none, some, List, [], ◌∷◌, ◌++◌, ltb, leb,
  ◌==◌, if◌then◌else◌, length,
}
use hdrt.EventBus.{
  queue_length, event_max_data_size, BeginEvent, Signal, OtaEvent, Bus, is_null, byte_at,
  begin_update, data_block, signal,
}

pub data Delivery : Type 0 where
  begins : BeginEvent → Delivery
  brings : List ℕ → ℕ → Delivery
  signals : Signal → ℕ → Delivery

-- the first `n` bytes of an array from `i` on
unfoldable pub bytes_list : (ℕ → ℕ) → ℕ → ℕ → List ℕ
bytes_list f zero i = []
bytes_list f (suc n) i = f i ∷ bytes_list f n (i + 1)

-- An event as its receiver sees it, its pointer followed in the bus.
abbrev pub delivery : Bus → OtaEvent → Delivery
delivery b (data_block d) = brings (bytes_list (byte_at b d.bytes) d.length 0) d.block_index
delivery b (begin_update g) = begins g
delivery b (signal s v) = signals s v

-- `none` for what no queue takes: no event, or a block whose data pointer is null, which holds no
-- byte or which holds too many.
abbrev pub request : Bus → Option OtaEvent → Option Delivery
request b none = none
request b (some (data_block d)) =
    if is_null d.bytes || (d.length == 0) || ltb event_max_data_size d.length
    then none
    else some (delivery b (data_block d))
request b (some (begin_update g)) = some (begins g)
request b (some (signal s v)) = some (signals s v)

unfoldable pub send : List Delivery → Option Delivery → List Delivery × Bool
send q none = (q, false)
send q (some d) = if leb queue_length (length q) then (q, false) else (q ++ (d ∷ []), true)

unfoldable pub receive : List Delivery → List Delivery × Option Delivery
receive [] = ([], none)
receive (d ∷ q) = (q, some d)
