-- ===== src/EventBus/Invariant.antt =====
-- components/event_bus/src/event_bus.c: the bounds of the ring, and where its messages point.
use hdrt.Prelude.{
  ℕ, ◌+◌, ◌%◌, ◌≤◌, ◌<◌, ◌≡◌, ◌≢◌, refl, Bool, ◌||◌, Option, none, some, ltb, leb, ◌==◌, arith,
  dec_lt, if_each,
}
use hdrt.EventBus.{
  queue_length, event_max_data_size, OtaEvent, Message, Bus, event_bus_init, is_null, write_message,
  advance_tail, accept, post_ota_event, try_recv_ota_event, slot_data, begin_update, data_block,
  signal,
}

-- The message in slot `k` carries its own data.
abbrev pub Owns : ℕ → OtaEvent → Type 0
Owns k (data_block d) = (d.bytes ≡ slot_data k) × (0 < d.length) × (d.length ≤ event_max_data_size)
Owns k _ = Unit {0}

-- The slot `n` places after the head.
abbrev pub slot_from : Bus → ℕ → ℕ
slot_from b n = (b.head + n) % queue_length

pub record IsValid (b : Bus) : Type 0 where
  pub head_in : b.head < queue_length
  pub tail_at : b.tail ≡ (b.head + b.count) % queue_length
  pub count_in : b.count ≤ queue_length
  pub owned : (n : ℕ) → n < b.count → Owns (slot_from b n) (b.queue (slot_from b n)).event

pub event_bus_init-IsValid : IsValid event_bus_init
unfolding event_bus_init
event_bus_init-IsValid = record {
  head_in = omega arith;
  tail_at = refl;
  count_in = omega arith;
  owned = λ n h. absurd (omega (arith, h));
}

pub queue-write_message_other :
    (b : Bus) (m : Message) (k : ℕ) → k ≢ b.tail → (write_message b m).queue k ≡ b.queue k
unfolding write_message
queue-write_message_other b m k h = ground (arith, h)

pub queue-write_message_self : (b : Bus) (m : Message) → (write_message b m).queue b.tail ≡ m
unfolding write_message
queue-write_message_self b m = ground arith

-- A slot in use is not the one that is written next.
pub used_slot_ne :
    (b : Bus) (n : ℕ) → IsValid b → b.count < queue_length → n < b.count → slot_from b n ≢ b.tail
used_slot_ne b n v h t = omega (arith, h, t, v.tail_at)

owned_write :
    (b : Bus) (m : Message) (n : ℕ)
    → IsValid b
    → b.count < queue_length
    → n < b.count
    → Owns (slot_from b n) ((write_message b m).queue (slot_from b n)).event
owned_write b m n v h t =
    rw (queue-write_message_other b m (slot_from b n) (used_slot_ne b n v h t)) (v.owned n t)

write_message-IsValid :
    (b : Bus) (m : Message) → IsValid b → b.count < queue_length → IsValid (write_message b m)
unfolding write_message
write_message-IsValid b m v h = record {
  head_in = v.head_in;
  tail_at = v.tail_at;
  count_in = v.count_in;
  owned = λ n t. owned_write b m n v h t;
}

advance_tail-IsValid :
    (b : Bus) (m : Message)
    → IsValid b
    → b.count < queue_length
    → Owns b.tail m.event
    → IsValid (advance_tail (write_message b m))
unfolding advance_tail write_message
advance_tail-IsValid b m v h o = record {
  head_in = v.head_in;
  tail_at = omega (arith, v.tail_at);
  count_in = omega (arith, h);
  owned = λ n t. elim (dec_lt n b.count) [
    | yes q ↦ owned_write b m n v h q
    | no q ↦
        let last : slot_from b n ≡ b.tail = omega (arith, v.tail_at, q, t) in
        rw (last, queue-write_message_self b m) o
  ];
}

accept-IsValid :
    (b : Bus) (e : OtaEvent) → IsValid b → b.count < queue_length → IsValid (accept b e).0
unfolding accept
accept-IsValid b (data_block d) v h =
    if_each (λ (r : Bus × Bool). IsValid r.0)
      (is_null d.bytes || (d.length == 0) || ltb event_max_data_size d.length)
      (λ q. write_message-IsValid b _ v h)
      λ q. advance_tail-IsValid b _ v h (refl, ground (arith, q), ground (arith, q))
accept-IsValid b (begin_update g) v h = advance_tail-IsValid b _ v h tt
accept-IsValid b (signal s n) v h = advance_tail-IsValid b _ v h tt

pub post-IsValid : (b : Bus) (e : Option OtaEvent) → IsValid b → IsValid (post_ota_event b e).0
unfolding post_ota_event
post-IsValid b none v = v
post-IsValid b (some e) v =
    if_each (λ (r : Bus × Bool). IsValid r.0) (leb queue_length b.count) (λ h. v)
      λ h. accept-IsValid b e v (ground (arith, h))

pub recv-IsValid : (b : Bus) → IsValid b → IsValid (try_recv_ota_event b).0
unfolding try_recv_ota_event
recv-IsValid b v =
    if_each (λ (r : Bus × Option OtaEvent). IsValid r.0) (b.count == 0) (λ h. v)
      λ h. record {
        head_in = omega arith;
        tail_at = ground (arith, h, v.tail_at, v.head_in);
        count_in = omega (arith, v.count_in);
        owned = λ n t.
            let next : ((b.head + 1) % queue_length + n) % queue_length ≡ slot_from b (n + 1) =
              omega arith in
            rw next (v.owned (n + 1) (omega (arith, t)));
      }
