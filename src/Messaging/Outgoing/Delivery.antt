-- ===== src/Messaging/Outgoing/Delivery.antt =====
-- What becomes of the messages on their way to the host, firmware/src/io/message_processor.c.
use creature_controller.Common.{
  ℕ, ◌+◌, ◌≤◌, ◌≡◌, refl, sym, ap, ◌∙◌, inl, inr, Bool, true, false, List, [], ◌∷◌, ◌++◌, map,
  append-nil, append_assoc, map-append, arith, ltb, leb, if◌then◌else◌, length, length-append,
  take-whole, lt→ltb, le→ltb,
}
use creature_controller.Controller.Lifecycle.{send_to_controller}
use creature_controller.Controller.Lifecycle.Queue.{
  IsBounded, send_to_controller_lem, send_to_controller-IsBounded,
}
use creature_controller.Messaging.Outgoing.{
  Sender, usb_message_max_length, usb_queue_length, usb_line, hand_over, send_from, send_round,
}

-- A line of a message of at most 382 bytes is the whole message with its newline.
usb_line_short : (m : List ℕ) → length m ≤ 382 → usb_line m ≡ m ++ (10 ∷ [])
unfolding usb_line
usb_line_short m h =
    take-whole usb_message_max_length (m ++ (10 ∷ [])) (ground (arith, length-append m (10 ∷ [])))

-- What happens to the messages: some task sends one, the outgoing task makes a round, or the USB task
-- takes a line.
pub data Event : Type 0 where
  produce : List ℕ → Event
  round fetch : Event

-- The sender, with the lines that the USB task has taken, in this order.
pub record Pipeline : Type 0 where
  pub sender : Sender
  pub fetched : List (List ℕ)

unfoldable pub fetch_from : List (List ℕ) → Pipeline → Pipeline
fetch_from [] p = p
fetch_from (line ∷ rest) p = record {
  sender = record p.sender { usb = rest };
  fetched = p.fetched ++ (line ∷ []);
}

unfoldable pub happen : Event → Pipeline → Pipeline
unfolding fetch_from
happen (produce message) p = record p {
  sender = record p.sender { outgoing = (send_to_controller p.sender.outgoing message).0 };
}
happen round p = record p { sender = send_round p.sender }
happen fetch p = fetch_from p.sender.usb p

unfoldable pub happen_all : List Event → Pipeline → Pipeline
happen_all [] p = p
happen_all (e ∷ es) p = happen_all es (happen e p)

-- The messages of an event, and of a list of them, that are short enough to be sent.
unfoldable pub message_of : Event → List (List ℕ)
message_of (produce message) = if ltb 382 (length message) then [] else message ∷ []
message_of _ = []

unfoldable pub messages_of : List Event → List (List ℕ)
messages_of [] = []
messages_of (e ∷ es) = message_of e ++ messages_of es

-- A message as it goes over the wire.
abbrev pub framed : List ℕ → List ℕ
framed m = m ++ (10 ∷ [])

-- The lines that are with the host, wait for the USB task, or wait for the outgoing task.
abbrev pub lines : Pipeline → List (List ℕ)
lines p = p.fetched ++ (p.sender.usb ++ map framed p.sender.outgoing.queue)

abbrev pub dropped : Pipeline → ℕ
dropped p = p.sender.outgoing.dropped

abbrev Fine : Pipeline → Type 0
Fine p = IsBounded p.sender.outgoing

-- An event keeps the bounds, drops nothing that it does not count, and loses no line otherwise.
abbrev Follows : Event → Pipeline → Pipeline → Type 0
Follows e p p' =
    Fine p'
    × (dropped p ≤ dropped p')
    × (dropped p' ≡ dropped p → lines p' ≡ lines p ++ map framed (message_of e))

produce-Follows :
    (m : List ℕ) (p : Pipeline) → Fine p → Follows (produce m) p (happen (produce m) p)
unfolding happen message_of
produce-Follows m p h = elim (send_to_controller_lem p.sender.outgoing m) [
  | inl long ↦
      rw (long.2, lt→ltb 382 (length m) long.0) (h, omega arith, λ _. sym (append-nil (lines p)))
  | inr (inl full) ↦
      rw full.2 (record { few = h.few; short = h.short }, omega arith, λ e. absurd (omega arith))
  | inr (inr added) ↦ (
    send_to_controller-IsBounded p.sender.outgoing m h,
    rw added.3 (omega arith),
    λ _.
        rw (added.3, le→ltb 382 (length m) added.0)
          (ap (λ l. p.fetched ++ (p.sender.usb ++ l))
              (map-append framed p.sender.outgoing.queue (m ∷ []))
            ∙ simp append_assoc),
  )
]

-- A pipeline with this queue.
abbrev with_queue : List (List ℕ) → Pipeline → Pipeline
with_queue q p = record p {
  sender = record p.sender { outgoing = record p.sender.outgoing { queue = q } };
}

queue-Follows :
    (q : List (List ℕ)) (p : Pipeline)
    → Fine (with_queue q p)
    → Follows round (with_queue q p) (record p { sender = send_from q (with_queue q p).sender })
unfolding send_from hand_over message_of
queue-Follows [] p h = (h, omega arith, λ _. sym (append-nil (lines (with_queue [] p))))
queue-Follows (m ∷ rest) p h = behind (leb usb_queue_length (length p.sender.usb))
  where
    full : Sender
    full = record p.sender {
      outgoing = record { queue = rest; dropped = p.sender.outgoing.dropped + 1 };
      messages_sent = p.sender.messages_sent + 1;
    }

    taken : Sender
    taken = record p.sender {
      outgoing = record { queue = rest; dropped = p.sender.outgoing.dropped };
      usb = p.sender.usb ++ (usb_line m ∷ []);
      messages_sent = p.sender.messages_sent + 1;
    }

    behind :
        (b : Bool)
        → Follows round (with_queue (m ∷ rest) p) (record p { sender = if b then full else taken })
    behind true = (
      record { few = ground (arith, h.few); short = h.short.1 },
      omega arith,
      λ e. absurd (omega arith),
    )
    behind false = (
      record { few = ground (arith, h.few); short = h.short.1 },
      omega arith,
      λ _. rw (usb_line_short m h.short.0) (simp (append_assoc, append-nil)),
    )

round-Follows : (p : Pipeline) → Fine p → Follows round p (happen round p)
unfolding happen message_of send_round
round-Follows p h = queue-Follows p.sender.outgoing.queue p h

fetch_from-Follows :
    (u : List (List ℕ)) (p : Pipeline)
    → u ≡ p.sender.usb
    → Fine p
    → Follows fetch p (fetch_from u p)
unfolding message_of fetch_from
fetch_from-Follows [] p e h = (h, omega arith, λ _. sym (append-nil (lines p)))
fetch_from-Follows (line ∷ rest) p e h =
    (h, omega arith, λ _. rw (sym e) (simp (append_assoc, append-nil)))

happen-Follows : (e : Event) (p : Pipeline) → Fine p → Follows e p (happen e p)
unfolding happen
happen-Follows (produce m) p h = produce-Follows m p h
happen-Follows round p h = round-Follows p h
happen-Follows fetch p h = fetch_from-Follows p.sender.usb p refl h

happen_all-monotone :
    (es : List Event) (p : Pipeline) → Fine p → dropped p ≤ dropped (happen_all es p)
unfolding happen_all
happen_all-monotone [] p h = omega arith
happen_all-monotone (e ∷ es) p h =
    let f = happen-Follows e p h in omega (arith, f.1, happen_all-monotone es (happen e p) f.0)

-- Of a queue within its bounds, whatever tasks send messages, and whenever the outgoing task and the
-- USB task get their turn: if nothing has been dropped meanwhile, then the lines that the USB task has
-- taken, with those that wait, are those of before followed by every message sent that has at most 382
-- bytes, in the order of sending, each whole and with a newline behind it.
pub happen_all_lem :
    (es : List Event) (p : Pipeline)
    → IsBounded p.sender.outgoing
    → dropped (happen_all es p) ≡ dropped p
    → lines (happen_all es p) ≡ lines p ++ map framed (messages_of es)
unfolding happen_all messages_of
happen_all_lem [] p h e = sym (append-nil (lines p))
happen_all_lem (e ∷ es) p h same =
    let f = happen-Follows e p h in
    let m = happen_all-monotone es (happen e p) f.0 in
    let now = f.2 (omega (arith, f.1, m, same)) in
    let later = happen_all_lem es (happen e p) f.0 (omega (arith, f.1, m, same)) in
    later
    ∙ ap (λ l. l ++ map framed (messages_of es)) now
    ∙ append_assoc (lines p) (map framed (message_of e)) (map framed (messages_of es))
    ∙ ap (λ l. lines p ++ l) (sym (map-append framed (message_of e) (messages_of es)))

pub send_round-IsBounded : (s : Sender) → IsBounded s.outgoing → IsBounded (send_round s).outgoing
unfolding happen
send_round-IsBounded s h = (round-Follows (record { sender = s; fetched = [] }) h).0
