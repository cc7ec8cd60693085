-- ===== src/EventBus/Lifetime.antt =====
-- components/event_bus/src/event_bus.c: how long a receiver may read the block that it was given.
use hdrt.Prelude.{
  ℕ, ◌+◌, ◌%◌, ◌≤◌, ◌<◌, ◌≡◌, ◌≢◌, ◌∙◌, refl, ap, Bool, ◌||◌, Option, none, some, List, [], ◌∷◌,
  ltb, leb, ◌==◌, arith, if_both, if_each, length,
}
use hdrt.EventBus.{
  queue_length, event_max_data_size, DataEvent, OtaEvent, Message, Bus, is_null, byte_at,
  write_message, advance_tail, accept, post_ota_event, try_recv_ota_event, slot_data, begin_update,
  data_block, signal,
}
use hdrt.EventBus.Invariant.{
  Owns, slot_from, IsValid, queue-write_message_other, post-IsValid, recv-IsValid,
}

-- one post after the other, whatever they answer
unfoldable pub post_all : List (Option OtaEvent) → Bus → Bus
post_all [] b = b
post_all (e ∷ es) b = post_all es (post_ota_event b e).0

-- Slot `k` has just been given back: it is the one before the head.
record IsBehind (k : ℕ) (b : Bus) : Type 0 where
  slot_in : k < queue_length
  head_after : b.head ≡ (k + 1) % queue_length
  valid : IsValid b

-- A post keeps the head, takes one place at most, and writes no other slot than the tail.
record Mild (b c : Bus) : Type 0 where
  same_head : c.head ≡ b.head
  one_more : c.count ≤ b.count + 1
  others : (k : ℕ) → k ≢ b.tail → c.queue k ≡ b.queue k

write_message-Mild : (b : Bus) (m : Message) → Mild b (write_message b m)
unfolding write_message
write_message-Mild b m = record {
  same_head = refl;
  one_more = omega arith;
  others = queue-write_message_other b m;
}

advance_tail-Mild : (b : Bus) (m : Message) → Mild b (advance_tail (write_message b m))
unfolding advance_tail write_message
advance_tail-Mild b m = record {
  same_head = refl;
  one_more = omega arith;
  others = queue-write_message_other b m;
}

accept-Mild : (b : Bus) (e : OtaEvent) → Mild b (accept b e).0
unfolding accept
accept-Mild b (data_block d) =
    if_both (λ (r : Bus × Bool). Mild b r.0)
      (is_null d.bytes || (d.length == 0) || ltb event_max_data_size d.length)
      (write_message-Mild b _) (advance_tail-Mild b _)
accept-Mild b (begin_update g) = advance_tail-Mild b _
accept-Mild b (signal s n) = advance_tail-Mild b _

post-Mild : (b : Bus) (e : Option OtaEvent) → Mild b (post_ota_event b e).0
unfolding post_ota_event
post-Mild b none = record { same_head = refl; one_more = omega arith; others = λ k h. refl }
post-Mild b (some e) =
    if_both (λ (r : Bus × Bool). Mild b r.0) (leb queue_length b.count)
      (record { same_head = refl; one_more = omega arith; others = λ k h. refl }) (accept-Mild b e)

post_all_behind :
    (es : List (Option OtaEvent)) (k : ℕ) (b : Bus)
    → IsBehind k b
    → b.count + length es < queue_length
    → (post_all es b).queue k ≡ b.queue k
unfolding post_all
post_all_behind [] k b h t = refl
post_all_behind (e ∷ es) k b h t =
    let c = (post_ota_event b e).0 in
    let m = post-Mild b e in
    let free : k ≢ b.tail = λ q. omega (arith, q, h.slot_in, h.head_after, h.valid.tail_at, t) in
    let behind : IsBehind k c = record {
      slot_in = h.slot_in;
      head_after = m.same_head ∙ h.head_after;
      valid = post-IsValid b e h.valid;
    } in
    post_all_behind es k c behind (omega (arith, m.one_more, t)) ∙ m.others k free

owned_block :
    (k : ℕ) (e : OtaEvent) (d : DataEvent)
    → Owns k e
    → some e ≡ some (data_block d)
    → d.bytes ≡ slot_data k
owned_block k (data_block c) d o h = cc
owned_block k (begin_update g) d o h = absurd (cc)
owned_block k (signal s n) d o h = absurd (cc)

recv-IsBehind :
    (b : Bus) (d : DataEvent)
    → IsValid b
    → (try_recv_ota_event b).1 ≡ some (data_block d)
    → IsBehind b.head (try_recv_ota_event b).0 × (d.bytes ≡ slot_data b.head)
unfolding try_recv_ota_event
recv-IsBehind b d v =
    if_each
      (λ (r : Bus × Option OtaEvent).
        IsValid r.0
        → r.1 ≡ some (data_block d)
        → IsBehind b.head r.0 × (d.bytes ≡ slot_data b.head))
      (b.count == 0) (λ q w e. absurd (cc))
      (λ q w e.
        let here : b.head ≡ slot_from b 0 = omega (arith, v.head_in) in
        let mine : Owns b.head (b.queue b.head).event = rw here (v.owned 0 (ground (arith, q))) in
        (
          record { slot_in = v.head_in; head_after = refl; valid = w },
          owned_block b.head (b.queue b.head).event d mine e,
        ))
      (recv-IsValid b v)

-- The bytes of a block that was received can be read until the ring is full again: while the events
-- left in the ring and the posts since come to seven or fewer, whatever is posted, each byte is what
-- it was at the receipt.
pub received_block_stays :
    (b : Bus) (d : DataEvent) (es : List (Option OtaEvent)) (i : ℕ)
    → IsValid b
    → (try_recv_ota_event b).1 ≡ some (data_block d)
    → (try_recv_ota_event b).0.count + length es < queue_length
    → let c = (try_recv_ota_event b).0 in byte_at (post_all es c) d.bytes i ≡ byte_at c d.bytes i
unfolding byte_at
received_block_stays b d es i v e h =
    let c = (try_recv_ota_event b).0 in
    let r = recv-IsBehind b d v e in
    rw (r.1) (ap (λ m. m.block i) (post_all_behind es b.head c r.0 h))
