-- ===== src/EventBus/Refine.antt =====
-- components/event_bus/src/event_bus.c: a valid ring behaves as the queue of what it holds.
use hdrt.Prelude.{
  ℕ, zero, suc, ◌+◌, ◌-◌, ◌%◌, ◌≤◌, ◌<◌, ◌≡◌, ◌≢◌, ◌∙◌, refl, sym, ap, Bool, true, false, ◌||◌,
  Option, none, some, List, [], ◌∷◌, ◌++◌, ltb, leb, ◌==◌, arith, if_each, if_together, length,
}
use hdrt.EventBus.Invariant.{
  Owns, slot_from, IsValid, queue-write_message_other, queue-write_message_self, used_slot_ne,
}
use hdrt.EventBus.{
  queue_length, event_max_data_size, DataEvent, OtaEvent, Message, Bus, is_null, byte_at,
  copy_bytes, write_message, advance_tail, accept, post_ota_event, try_recv_ota_event, slot_data,
  begin_update, data_block, signal,
}
use hdrt.EventBus.Fifo.{
  Delivery, bytes_list, delivery, request, send, receive, begins, brings, signals,
}

-- A message with its own data.
abbrev held : Message → Delivery
held m = delivery (record { queue = λ k. m; head = 0; tail = 0; count = 0 }) m.event

module _ (q : ℕ → Message) where
  window : ℕ → ℕ → List Delivery
  window h zero = []
  window h (suc n) = held (q h) ∷ window ((h + 1) % queue_length) n

  length-window : (h n : ℕ) → length (window h n) ≡ n
  unfolding window
  length-window h zero = refl
  length-window h (suc n) = ap suc (length-window ((h + 1) % queue_length) n)

  -- One message more at the end.
  window-suc :
      (h n k : ℕ)
      → h < queue_length
      → (h + n) % queue_length ≡ k
      → window h (suc n) ≡ window h n ++ (held (q k) ∷ [])
  unfolding window
  window-suc h zero k small e = let same : h ≡ k = omega (arith, small, e) in rw same refl
  window-suc h (suc n) k small e =
      ap (λ l. held (q h) ∷ l)
        (window-suc ((h + 1) % queue_length) n k (omega arith) (omega (arith, e)))

-- Two rings that agree on the slots of a window.
window_same :
    (q r : ℕ → Message) (h n : ℕ)
    → h < queue_length
    → ((k : ℕ) → k < n → r ((h + k) % queue_length) ≡ q ((h + k) % queue_length))
    → window r h n ≡ window q h n
unfolding window
window_same q r h zero small e = refl
window_same q r h (suc n) small e =
    let here : (h + 0) % queue_length ≡ h = omega (arith, small) in
    let first : r ((h + 0) % queue_length) ≡ q ((h + 0) % queue_length) = e 0 (omega arith) in
    let first' : r h ≡ q h = ap r (sym here) ∙ first ∙ ap q here in
    rw first' (
      ap (λ l. held (q h) ∷ l)
        (window_same q r ((h + 1) % queue_length) n (omega arith) λ k t.
          let shift : ((h + 1) % queue_length + k) % queue_length ≡ (h + suc k) % queue_length =
            omega arith in
          ap r shift ∙ e (suc k) (omega (arith, t)) ∙ ap q (sym shift)))

-- What the ring holds, oldest first.
pub contents : Bus → List Delivery
contents b = window b.queue b.head b.count

pub length-contents : (b : Bus) → length (contents b) ≡ b.count
unfolding contents
length-contents b = length-window b.queue b.head b.count

pub contents_empty : (b : Bus) → b.count ≡ 0 → contents b ≡ []
unfolding contents window
contents_empty b e = ap (window b.queue b.head) e

-- The slot that is written is none of those that hold something.
contents-write_message :
    (b : Bus) (m : Message)
    → IsValid b
    → b.count < queue_length
    → contents (write_message b m) ≡ contents b
unfolding contents write_message
contents-write_message b m v h =
    window_same b.queue (write_message b m).queue b.head b.count v.head_in
      λ k t. queue-write_message_other b m (slot_from b k) (used_slot_ne b k v h t)

contents-advance_tail :
    (b : Bus) (m : Message)
    → IsValid b
    → b.count < queue_length
    → contents (advance_tail (write_message b m)) ≡ contents b ++ (held m ∷ [])
unfolding contents advance_tail write_message
contents-advance_tail b m v h =
    let q = (write_message b m).queue in
    ap (window q b.head) (omega arith)
    ∙ window-suc q b.head b.count b.tail v.head_in (sym v.tail_at)
    ∙ ap (λ x. window q b.head b.count ++ (held x ∷ [])) (queue-write_message_self b m)
    ∙ ap (λ l. l ++ (held m ∷ [])) (contents-write_message b m v h)

bytes_list-copy_bytes :
    (to from : ℕ → ℕ) (n k i : ℕ)
    → i + k ≤ n
    → bytes_list (copy_bytes to from n) k i ≡ bytes_list from k i
unfolding bytes_list copy_bytes
bytes_list-copy_bytes to from n zero i h = refl
bytes_list-copy_bytes to from n (suc k) i h =
    let here : copy_bytes to from n i ≡ from i = ground (arith, h) in
    rw here (ap (λ l. from i ∷ l) (bytes_list-copy_bytes to from n k (i + 1) (omega (arith, h))))

abbrev reply : Bus × Bool → List Delivery × Bool
reply (b, ok) = (contents b, ok)

-- A block is in the ring as the bytes that its pointer led to.
held_block :
    (b : Bus) (d : DataEvent) (m : Message) (k : ℕ)
    → held (record {
      event = data_block (record d { bytes = slot_data k });
      block = copy_bytes m.block (byte_at b d.bytes) d.length;
    })
      ≡ delivery b (data_block d)
unfolding byte_at
held_block b d m k =
    ap (λ l. brings l d.block_index)
      (bytes_list-copy_bytes m.block (byte_at b d.bytes) d.length d.length 0 (omega arith))

send-some :
    (q : List Delivery) (d : Delivery)
    → length q < queue_length
    → send q (some d) ≡ (q ++ (d ∷ []), true)
unfolding send
send-some q d h = ground (arith, h)

send_full :
    (q : List Delivery) (o : Option Delivery) → queue_length ≤ length q → send q o ≡ (q, false)
unfolding send
send_full q none h = refl
send_full q (some d) h = ground (arith, h)

module _ (b : Bus) (v : IsValid b) (h : b.count < queue_length) where
  sent :
      (m : Message) (d : Delivery)
      → held m ≡ d
      → (contents (advance_tail (write_message b m)), true) ≡ send (contents b) (some d)
  sent m d e =
      let small : length (contents b) < queue_length = rw (length-contents b) h in
      rw (contents-advance_tail b m v h, e) (sym (send-some (contents b) d small))

  accept_refines : (e : OtaEvent) → reply (accept b e) ≡ send (contents b) (request b (some e))
  unfolding accept send
  accept_refines (begin_update g) =
      sent (record (b.queue b.tail) { event = begin_update g }) (begins g) refl
  accept_refines (signal s n) =
      sent (record (b.queue b.tail) { event = signal s n }) (signals s n) refl
  accept_refines (data_block d) =
      let message = b.queue b.tail in
      let copied = record message {
        event = data_block (record d { bytes = slot_data b.tail });
        block = copy_bytes message.block (byte_at b d.bytes) d.length;
      } in
      if_together (λ r o. reply r ≡ send (contents b) o)
        (is_null d.bytes || (d.length == 0) || ltb event_max_data_size d.length)
        (ap (λ q. (q, false))
          (contents-write_message b (record message { event = data_block d }) v h))
        (sent copied (delivery b (data_block d)) (held_block b d message b.tail))

-- Posting to a valid ring answers as the queue does, and leaves the ring holding that queue: the
-- eighth event fills it, a null event and a data block that is null, empty or longer than 512 bytes
-- are refused, and a block that is taken is there as the bytes that its pointer led to.
pub post_refines :
    (b : Bus) (e : Option OtaEvent)
    → IsValid b
    → let (c, ok) = post_ota_event b e in (contents c, ok) ≡ send (contents b) (request b e)
unfolding post_ota_event send
post_refines b none v = refl
post_refines b (some e) v =
    if_each (λ r. reply r ≡ send (contents b) (request b (some e))) (leb queue_length b.count)
      (λ h.
        sym (
          send_full (contents b) (request b (some e)) (rw (length-contents b) (ground (arith, h)))))
      λ h. accept_refines b v (ground (arith, h)) e

-- An event that points into its own slot is read there.
held-delivery :
    (b : Bus) (k : ℕ) (e : OtaEvent)
    → Owns k e
    → delivery b e ≡ held (record { event = e; block = (b.queue k).block })
unfolding byte_at
held-delivery b k (data_block d) o =
    ap (λ f. brings (bytes_list f d.length 0) d.block_index) (rw (o.0) refl)
held-delivery b k (begin_update g) o = refl
held-delivery b k (signal s n) o = refl

contents_of_ne_zero :
    (q : ℕ → Message) (h n : ℕ)
    → n ≢ 0
    → window q h n ≡ held (q h) ∷ window q ((h + 1) % queue_length) (n - 1)
unfolding window
contents_of_ne_zero q h zero p = absurd (p refl)
contents_of_ne_zero q h (suc n) p =
    ap (λ k. held (q h) ∷ window q ((h + 1) % queue_length) k) (omega arith)

abbrev pub handed_over : Bus × Option OtaEvent → List Delivery × Option Delivery
handed_over (c, none) = (contents c, none)
handed_over (c, some e) = (contents c, some (delivery c e))

-- Receiving from a valid ring gives what the queue gives, a data block read through the pointer that
-- the receiver gets, and leaves the ring holding the rest.
pub recv_refines : (b : Bus) → IsValid b → handed_over (try_recv_ota_event b) ≡ receive (contents b)
unfolding try_recv_ota_event contents receive window byte_at
recv_refines b v =
    if_each (λ r. handed_over r ≡ receive (contents b)) (b.count == 0)
      (λ h. let none_held : b.count ≡ 0 = ground (arith, h) in rw (contents_empty b none_held) refl)
      λ h.
        let some_held : b.count ≢ 0 = ground (arith, h) in
        let here : b.head ≡ slot_from b 0 = omega (arith, v.head_in) in
        let mine : Owns b.head (b.queue b.head).event =
          rw here (v.owned 0 (omega (arith, some_held))) in
        rw (contents_of_ne_zero b.queue b.head b.count some_held) (
          ap (λ d. (window b.queue ((b.head + 1) % queue_length) (b.count - 1), some d))
            (held-delivery b b.head (b.queue b.head).event mine))
