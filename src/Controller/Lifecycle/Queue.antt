-- ===== src/Controller/Lifecycle/Queue.antt =====
-- The bounds of the outgoing queue, `send_to_controller` of firmware/src/io/message_processor.c.
use creature_controller.Common.{
  ℕ, ◌+◌, ◌-◌, ◌≤◌, ◌<◌, ◌≡◌, refl, ◌⊎◌, inl, inr, true, false, List, [], ◌∷◌, ◌++◌, arith, ltb,
  leb, length, length-append, Bool-cases, All,
}
use creature_controller.Controller.Lifecycle.{
  Outgoing, outgoing_message_max_length, outgoing_message_queue_length, send_to_controller,
}

-- The outgoing queue holds at most 15 messages, each of at most 382 bytes.
pub record IsBounded (o : Outgoing) : Type 0 where
  pub few : length o.queue ≤ outgoing_message_queue_length
  pub short : All (λ m. length m ≤ 382) o.queue

All-snoc :
    (P : List ℕ → Type 0) (xs : List (List ℕ)) (y : List ℕ)
    → All P xs
    → P y
    → All P (xs ++ (y ∷ []))
All-snoc P [] y h k = (k, tt)
All-snoc P (x ∷ xs) y h k = (h.0, All-snoc P xs y h.1 k)

-- A message is too long, or dropped and counted since the queue is full, or the last one of the
-- queue.
pub send_to_controller_lem :
    (o : Outgoing) (m : List ℕ)
    → let (o', sent) = send_to_controller o m in
      ((382 < length m) × (sent ≡ false) × (o' ≡ o))
      ⊎ (((length m ≤ 382) × (sent ≡ false) × (o' ≡ record o { dropped = o.dropped + 1 }))
          ⊎ ((length m ≤ 382)
              × (length o.queue < outgoing_message_queue_length)
              × (sent ≡ true)
              × (o' ≡ record o { queue = o.queue ++ (m ∷ []) })))
unfolding send_to_controller
send_to_controller_lem o m = elim (Bool-cases (ltb (outgoing_message_max_length - 2) (length m))) [
  | inl long ↦ rw long (inl (ground arith, refl, refl))
  | inr fits ↦ rw fits (elim (Bool-cases (leb outgoing_message_queue_length (length o.queue))) [
    | inl full ↦ rw full (inr (inl (ground arith, refl, refl)))
    | inr space ↦ rw space (inr (inr (ground arith, ground arith, refl, refl)))
  ])
]

pub send_to_controller-IsBounded :
    (o : Outgoing) (m : List ℕ) → IsBounded o → IsBounded (send_to_controller o m).0
send_to_controller-IsBounded o m h = elim (send_to_controller_lem o m) [
  | inl long ↦ rw long.2 h
  | inr (inl full) ↦ rw full.2 (record { few = h.few; short = h.short })
  | inr (inr added) ↦ rw added.3 (record {
    few = ground (arith, length-append o.queue (m ∷ []));
    short = All-snoc (λ m. length m ≤ 382) o.queue m h.short added.0;
  })
]
