-- ===== src/Usb/Receiver/Lines.antt =====
-- What lines of the host become in `tud_cdc_rx_cb` of firmware/src/io/usb_serial.c.
use creature_controller.Common.{
  ℕ, suc, ◌+◌, ◌-◌, ◌≤◌, ◌<◌, ◌≡◌, ◌≢◌, refl, sym, ap, ◌∙◌, true, false, List, [], ◌∷◌, ◌++◌, arith,
  ltb, leb, ◌==◌, if◌then◌else◌, length, All, Bool-cases, inl, inr, length-append, append-nil,
  append_assoc,
}
use creature_controller.Usb.Receiver.{
  Receiver, line_max_length, incoming_queue_length, newline, bell, push_line, rx_char, rx_chars,
  tud_cdc_rx_cb,
}

-- A byte of a line: no newline, and no bell.
abbrev pub IsText : ℕ → Type 0
IsText ch = (ch ≢ newline) × (ch ≢ bell)

-- Lines as the host sends them.
unfoldable pub sent_lines : List (List ℕ) → List ℕ
sent_lines [] = []
sent_lines (line ∷ lines) = line ++ (newline ∷ sent_lines lines)

unfoldable pub joined_chunks : List (List ℕ) → List ℕ
joined_chunks [] = []
joined_chunks (chunk ∷ chunks) = chunk ++ joined_chunks chunks

-- What a line means: a blank one nothing, one that fits is queued, and a longer one is counted.
unfoldable pub take_line : List ℕ → Receiver → Receiver
take_line line r0 =
    let r = record r0 { characters_received = r0.characters_received + (length line + 1) } in
    if length line == 0
    then r
    else if ltb (length line) line_max_length
    then push_line line r
    else record r { incoming_dropped = r.incoming_dropped + 1 }

unfoldable pub take_lines : List (List ℕ) → Receiver → Receiver
take_lines [] r = r
take_lines (line ∷ lines) r = take_lines lines (take_line line r)

-- A receiver that has nothing of a line.
unfoldable pub fresh : Receiver → Receiver
fresh r = record r { line_buffer = []; overflowed = false }

rx_chars-append : (s t : List ℕ) (r : Receiver) → rx_chars (s ++ t) r ≡ rx_chars t (rx_chars s r)
unfolding rx_chars
rx_chars-append [] t r = refl
rx_chars-append (ch ∷ s) t r = rx_chars-append s t (rx_char ch r)

-- However the bytes come in chunks, they are received as one text.
chunks_lem :
    (chunks : List (List ℕ)) (r : Receiver)
    → tud_cdc_rx_cb chunks r ≡ rx_chars (joined_chunks chunks) r
unfolding tud_cdc_rx_cb joined_chunks rx_chars
chunks_lem [] r = refl
chunks_lem (chunk ∷ chunks) r =
    chunks_lem chunks (rx_chars chunk r) ∙ sym (rx_chars-append chunk (joined_chunks chunks) r)

-- Text that fits is appended.
rx_text :
    (s : List ℕ) (r : Receiver)
    → All IsText s
    → r.overflowed ≡ false
    → length r.line_buffer + length s < line_max_length
    → rx_chars s r ≡ record r {
      line_buffer = r.line_buffer ++ s;
      characters_received = r.characters_received + length s;
    }
unfolding rx_chars rx_char
rx_text [] r t o h =
    let none_more : r.characters_received + 0 ≡ r.characters_received = omega arith in
    rw (append-nil r.line_buffer, none_more) refl
rx_text (ch ∷ s) r t o h =
    let no_bell : (ch == bell) ≡ false = ground (arith, t.0) in
    let no_newline : (ch == newline) ≡ false = ground (arith, t.0) in
    let room : ltb (length r.line_buffer) (line_max_length - 1) ≡ true = ground arith in
    let one_more : length (r.line_buffer ++ (ch ∷ [])) ≡ length r.line_buffer + 1 =
      length-append r.line_buffer (ch ∷ []) in
    let count : r.characters_received + 1 + length s ≡ r.characters_received + suc (length s) =
      omega arith in
    let r1 = record r {
      line_buffer = r.line_buffer ++ (ch ∷ []);
      overflowed = false;
      characters_received = r.characters_received + 1;
    } in
    rw (no_bell, no_newline, o, room)
      (rx_text s r1 t.1 refl (omega (arith, one_more, h))
        ∙ rw (append_assoc r.line_buffer (ch ∷ []) s, count) refl)

-- Text behind an overflow is swallowed.
rx_swallow :
    (s : List ℕ) (r : Receiver)
    → All IsText s
    → r.overflowed ≡ true
    → rx_chars s r ≡ record r { characters_received = r.characters_received + length s }
unfolding rx_chars rx_char
rx_swallow [] r t o =
    let none_more : r.characters_received + 0 ≡ r.characters_received = omega arith in
    rw none_more refl
rx_swallow (ch ∷ s) r t o =
    let no_bell : (ch == bell) ≡ false = ground (arith, t.0) in
    let no_newline : (ch == newline) ≡ false = ground (arith, t.0) in
    let count : r.characters_received + 1 + length s ≡ r.characters_received + suc (length s) =
      omega arith in
    rw (no_bell, no_newline, o)
      (rx_swallow s
          (record r { overflowed = true; characters_received = r.characters_received + 1 }) t.1 refl
        ∙ rw count refl)

-- A line in a fresh receiver with its newline, in each of the three cases.
blank_line : (r : Receiver) → rx_char newline (fresh r) ≡ fresh (take_line [] r)
unfolding rx_char take_line fresh
blank_line r = refl

queue_line :
    (line : List ℕ) (r : Receiver)
    → (length line == 0) ≡ false
    → rx_char newline (record r { line_buffer = line; overflowed = false })
      ≡ fresh (push_line line (record r { characters_received = r.characters_received + 1 }))
unfolding rx_char push_line fresh
queue_line line r e = elim (Bool-cases (leb incoming_queue_length (length r.commands))) [
  | inl full ↦ rw (e, full) refl
  | inr room ↦ rw (e, room) refl
]

short_line :
    (line : List ℕ) (r : Receiver)
    → All IsText line
    → (length line == 0) ≡ false
    → length line < line_max_length
    → rx_char newline (rx_chars line (fresh r)) ≡ fresh (take_line line r)
unfolding take_line fresh
short_line line r t e h =
    let count : r.characters_received + length line + 1
        ≡ r.characters_received + (length line + 1) =
      omega arith in
    let fits : ltb (length line) line_max_length ≡ true = ground (arith, h) in
    ap (rx_char newline) (rx_text line (fresh r) t refl (omega (arith, h)))
    ∙ queue_line line (record r { characters_received = r.characters_received + length line }) e
    ∙ rw (e, fits, count) refl

-- Text that does not fit.
rx_overflow :
    (s : List ℕ) (r : Receiver)
    → All IsText s
    → r.overflowed ≡ false
    → length r.line_buffer < line_max_length
    → line_max_length ≤ length r.line_buffer + length s
    → (b : List ℕ) × (rx_chars s r ≡ record r {
      line_buffer = b;
      overflowed = true;
      characters_received = r.characters_received + length s;
      incoming_dropped = r.incoming_dropped + 1;
    })
unfolding rx_chars rx_char
rx_overflow [] r t o l h = absurd (omega arith)
rx_overflow (ch ∷ s) r t o l h =
    elim (Bool-cases (ltb (length r.line_buffer) (line_max_length - 1))) [
      | inl room ↦
          let r1 = record r {
            line_buffer = r.line_buffer ++ (ch ∷ []);
            overflowed = false;
            characters_received = r.characters_received + 1;
          } in
          let later =
            rx_overflow s r1 t.1 refl (ground (arith, one_more, room))
              (omega (arith, one_more, h)) in
          (later.0, rw (no_bell, no_newline, o, room) (later.1 ∙ rw count refl))
      | inr full ↦ (
        r.line_buffer,
        rw (no_bell, no_newline, o, full)
            (rx_swallow s
                (record r {
                  overflowed = true;
                  characters_received = r.characters_received + 1;
                  incoming_dropped = r.incoming_dropped + 1;
                })
                t.1 refl
              ∙ rw count refl),
      )
    ]
  where
    no_bell : (ch == bell) ≡ false
    no_bell = ground (arith, t.0)

    no_newline : (ch == newline) ≡ false
    no_newline = ground (arith, t.0)

    one_more : length (r.line_buffer ++ (ch ∷ [])) ≡ length r.line_buffer + 1
    one_more = length-append r.line_buffer (ch ∷ [])

    count : r.characters_received + 1 + length s ≡ r.characters_received + suc (length s)
    count = omega arith

long_line :
    (line : List ℕ) (r : Receiver)
    → All IsText line
    → line_max_length ≤ length line
    → rx_char newline (rx_chars line (fresh r)) ≡ fresh (take_line line r)
unfolding take_line fresh rx_char
long_line line r t h =
    let over = rx_overflow line (fresh r) t refl (omega arith) (omega (arith, h)) in
    let count : r.characters_received + length line + 1
        ≡ r.characters_received + (length line + 1) =
      omega arith in
    let some_text : (length line == 0) ≡ false = ground (arith, h) in
    let long : ltb (length line) line_max_length ≡ false = ground (arith, h) in
    ap (rx_char newline) over.1 ∙ rw (some_text, long, count) refl

one_line :
    (line : List ℕ) (r : Receiver)
    → All IsText line
    → rx_char newline (rx_chars line (fresh r)) ≡ fresh (take_line line r)
unfolding rx_chars
one_line [] r t = blank_line r
one_line (ch ∷ line) r t = elim (Bool-cases (ltb (length (ch ∷ line)) line_max_length)) [
  | inl fits ↦ short_line (ch ∷ line) r t (ground arith) (ground (arith, fits))
  | inr long ↦ long_line (ch ∷ line) r t (ground (arith, long))
]

lines_lem :
    (lines : List (List ℕ)) (r : Receiver)
    → All (All IsText) lines
    → rx_chars (sent_lines lines) (fresh r) ≡ fresh (take_lines lines r)
unfolding sent_lines take_lines rx_chars
lines_lem [] r t = refl
lines_lem (line ∷ lines) r t =
    rx_chars-append line (newline ∷ sent_lines lines) (fresh r)
    ∙ ap (rx_chars (sent_lines lines)) (one_line line r t.0)
    ∙ lines_lem lines (take_line line r) t.1

-- A bell makes the receiver fresh, whatever it has received before.
bell_lem :
    (r : Receiver)
    → rx_char bell r ≡ fresh (record r { characters_received = r.characters_received + 1 })
unfolding rx_char fresh
bell_lem r = refl

-- After a bell, in whatever state the receiver was, lines of text with their newlines are taken one by one
-- in order, however the bytes come in chunks: a blank line means nothing, a line of at most 255 bytes is
-- queued as it was sent, or counted as dropped if the queue is full, and a longer one is counted as dropped
-- without a trace in the lines behind it.
pub tud_cdc_rx_cb_lem :
    (chunks lines : List (List ℕ)) (r : Receiver)
    → All (All IsText) lines
    → joined_chunks chunks ≡ bell ∷ sent_lines lines
    → tud_cdc_rx_cb chunks r
      ≡ fresh (take_lines lines (record r { characters_received = r.characters_received + 1 }))
unfolding rx_chars
tud_cdc_rx_cb_lem chunks lines r t e =
    chunks_lem chunks r
    ∙ ap (λ s. rx_chars s r) e
    ∙ ap (rx_chars (sent_lines lines)) (bell_lem r)
    ∙ lines_lem lines (record r { characters_received = r.characters_received + 1 }) t
