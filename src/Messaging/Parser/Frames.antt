-- ===== src/Messaging/Parser/Frames.antt =====
-- What the host sends is parsed to what it meant.
use creature_controller.Common.{
  take-whole, ℕ, zero, suc, ◌+◌, ◌/◌, ◌%◌, ◌≤◌, ◌<◌, ◌≡◌, refl, ap, ◌∙◌, sym, false, List, [], ◌∷◌,
  ◌++◌, append_assoc, Option, none, some, arith, ◌==◌, length, length-append, All,
}
use creature_controller.Messaging.Text.{
  string_to_u16, behind_first, before_last, token_of, strtok, run, skip,
}
use creature_controller.Messaging.Text.Numbers.{
  decimal, IsDigit, decimal-IsDigit, decimal-nonempty, string_to_u16-decimal,
}
use creature_controller.Messaging.Parser.{
  tab, checksum_from, calculate_checksum, copied, stored, stored_tokens, split_last, checksum_text,
  expected_checksum, with_checksum, finish_message, with_tokens, parse_message,
}

abbrev pub NoTab : List ℕ → Type 0
NoTab s = All (λ c. (c == tab) ≡ false) s

-- A text that is one token of at most `n` characters.
abbrev pub IsField : ℕ → List ℕ → Type 0
IsField n s = NoTab s × (0 < length s) × (length s ≤ n)

-- Tokens with a tab between any two.
unfoldable pub joined : List (List ℕ) → List ℕ
joined [] = []
joined (t ∷ []) = t
joined (t ∷ u ∷ us) = t ++ (tab ∷ joined (u ∷ us))

-- The checksum token "CS n".
unfoldable pub checksum_token : ℕ → List ℕ
checksum_token v = b'C' ∷ b'S' ∷ 32 ∷ decimal 5 v

-- A text of a message type, tokens and a checksum token of any number.
unfoldable pub frame_with : ℕ → List ℕ → List (List ℕ) → List ℕ
unfolding joined checksum_token
frame_with sum action tokens = joined (action ∷ (tokens ++ (checksum_token sum ∷ [])))

-- What the host sends: the message type, the tokens, and the checksum of what stands in front.
unfoldable pub frame : List ℕ → List (List ℕ) → List ℕ
unfolding frame_with
frame action tokens = frame_with (calculate_checksum (joined (action ∷ tokens))) action tokens

run-alone : (t : List ℕ) → NoTab t → run tab t ≡ (t, [])
unfolding run
run-alone [] h = refl
run-alone (c ∷ t) h = rw h.0 (rw (run-alone t h.1) refl)

run-tab : (t r : List ℕ) → NoTab t → run tab (t ++ (tab ∷ r)) ≡ (t, r)
unfolding run
run-tab [] r h = refl
run-tab (c ∷ t) r h = rw h.0 (rw (run-tab t r h.1) refl)

run-joined :
    (t : List ℕ) (ts : List (List ℕ)) → NoTab t → run tab (joined (t ∷ ts)) ≡ (t, joined ts)
unfolding joined
run-joined t [] h = run-alone t h
run-joined t (u ∷ us) h = run-tab t (joined (u ∷ us)) h

skip-field : (c : ℕ) (r : List ℕ) → (c == tab) ≡ false → skip tab (c ∷ r) ≡ c ∷ r
unfolding skip
skip-field c r h = rw h refl

strtok-run :
    (c : ℕ) (r : List ℕ)
    → (c == tab) ≡ false
    → strtok tab (c ∷ r) ≡ (some (run tab (c ∷ r)).0, (run tab (c ∷ r)).1)
unfolding strtok token_of
strtok-run c r h = ap (token_of tab) (skip-field c r h)

joined-front :
    (c : ℕ) (t : List ℕ) (ts : List (List ℕ)) → joined ((c ∷ t) ∷ ts) ≡ c ∷ joined (t ∷ ts)
unfolding joined
joined-front c t [] = refl
joined-front c t (u ∷ us) = refl

strtok-joined :
    (n : ℕ) (t : List ℕ) (ts : List (List ℕ))
    → IsField n t
    → strtok tab (joined (t ∷ ts)) ≡ (some t, joined ts)
strtok-joined n [] ts h = absurd (ground arith)
strtok-joined n (c ∷ t) ts h = rw (joined-front c t ts) (
    strtok-run c (joined (t ∷ ts)) h.0.0
    ∙ ap (λ (r : List ℕ × List ℕ). (some r.0, r.1))
        (ap (run tab) (sym (joined-front c t ts)) ∙ run-joined (c ∷ t) ts h.0))

stored_tokens-joined :
    (n : ℕ) (ts : List (List ℕ))
    → All (IsField 39) ts
    → length ts ≤ n
    → stored_tokens n (joined ts) ≡ ts
unfolding stored_tokens stored strtok skip token_of joined
stored_tokens-joined zero [] h k = refl
stored_tokens-joined zero (t ∷ ts) h k = absurd (ground arith)
stored_tokens-joined (suc n) [] h k = refl
stored_tokens-joined (suc n) (t ∷ ts) h k =
    ap (λ (r : Option (List ℕ) × List ℕ). stored r.0 (stored_tokens n r.1))
      (strtok-joined 39 t ts h.0)
    ∙ ap (λ l. l ∷ stored_tokens n (joined ts)) (take-whole 39 t h.0.2)
    ∙ ap (λ l. t ∷ l) (stored_tokens-joined n ts h.1 (ground arith))

split_last-append :
    (t : List ℕ) (ts : List (List ℕ)) (last : List ℕ)
    → split_last t (ts ++ (last ∷ [])) ≡ (t ∷ ts, last)
unfolding split_last
split_last-append t [] last = refl
split_last-append t (u ∷ us) last = rw (split_last-append u us last) refl

before_last-alone : (s : List ℕ) → NoTab s → before_last tab s ≡ none
unfolding before_last
before_last-alone [] h = refl
before_last-alone (c ∷ s) h = rw (before_last-alone s h.1) (rw h.0 refl)

before_last-tab : (s r : List ℕ) → NoTab r → before_last tab (s ++ (tab ∷ r)) ≡ some s
unfolding before_last
before_last-tab [] r h = rw (before_last-alone r h) refl
before_last-tab (c ∷ s) r h = rw (before_last-tab s r h) refl

joined-last :
    (t : List ℕ) (ts : List (List ℕ)) (last : List ℕ)
    → joined (t ∷ (ts ++ (last ∷ []))) ≡ joined (t ∷ ts) ++ (tab ∷ last)
unfolding joined
joined-last t [] last = refl
joined-last t (u ∷ us) last =
    ap (λ l. t ++ (tab ∷ l)) (joined-last u us last)
    ∙ sym (append_assoc t (tab ∷ joined (u ∷ us)) (tab ∷ last))

digits-NoTab : (s : List ℕ) → All IsDigit s → NoTab s
digits-NoTab [] h = tt
digits-NoTab (c ∷ s) h = (ground (arith, h.0.0), digits-NoTab s h.1)

length-decimal : (n v : ℕ) → length (decimal n v) ≤ n
unfolding decimal
length-decimal zero v = ground arith
length-decimal (suc n) v =
    ground
      (arith, length-decimal n (v / 10), length-append (decimal n (v / 10)) ((b'0' + v % 10) ∷ []))

checksum_token-IsField : (v : ℕ) → IsField 39 (checksum_token v)
unfolding checksum_token
checksum_token-IsField v = (
  (refl, (refl, (refl, digits-NoTab (decimal 5 v) (decimal-IsDigit 5 v)))),
  ground arith,
  ground (arith, length-decimal 5 v),
)

checksum_text-some : (s : List ℕ) → 0 < length s → checksum_text (some s) ≡ some (string_to_u16 s)
unfolding checksum_text
checksum_text-some [] h = absurd (ground arith)
checksum_text-some (c ∷ s) h = refl

expected_checksum-token : (v : ℕ) → v ≤ 65535 → expected_checksum (checksum_token v) ≡ some v
unfolding checksum_token expected_checksum behind_first
expected_checksum-token v h =
    checksum_text-some (decimal 5 v) (decimal-nonempty 5 v (ground arith))
    ∙ ap some (string_to_u16-decimal v h)

checksum_from-le : (s : List ℕ) (v : ℕ) → v ≤ 65535 → checksum_from v s ≤ 65535
unfolding checksum_from
checksum_from-le [] v h = h
checksum_from-le (c ∷ s) v h = checksum_from-le s ((v + c) % 65536) (ground arith)

append-All :
    (ts : List (List ℕ)) (t : List ℕ)
    → All (IsField 39) ts
    → IsField 39 t
    → All (IsField 39) (ts ++ (t ∷ []))
append-All [] t h k = (k, tt)
append-All (u ∷ us) t h k = (h.0, append-All us t h.1 k)

with_tokens-last :
    (raw action : List ℕ) (ts : List (List ℕ)) (last : List ℕ)
    → with_tokens raw (some action) (ts ++ (last ∷ []))
      ≡ finish_message raw (copied 8 action) (ts, last)
unfolding with_tokens split_last
with_tokens-last raw action [] last = refl
with_tokens-last raw action (t ∷ ts) last =
    ap (finish_message raw (copied 8 action)) (split_last-append t ts last)

finish_message-found :
    (raw action : List ℕ) (ts : List (List ℕ)) (last : List ℕ) (v : ℕ) (front : List ℕ)
    → expected_checksum last ≡ some v
    → before_last tab raw ≡ some front
    → finish_message raw action (ts, last)
      ≡ some (record {
        message_type = action;
        tokens = ts;
        expected_checksum = v;
        calculated_checksum = calculate_checksum front;
      })
unfolding finish_message with_checksum
finish_message-found raw action ts last v front e f =
    ap (λ o. with_checksum action ts o (before_last tab raw)) e
    ∙ ap (with_checksum action ts (some v)) f

calculate_checksum-le : (s : List ℕ) → calculate_checksum s ≤ 65535
unfolding calculate_checksum
calculate_checksum-le s = checksum_from-le s 0 (ground arith)

length-snoc : (ts : List (List ℕ)) (t : List ℕ) → length (ts ++ (t ∷ [])) ≡ length ts + 1
length-snoc ts t = length-append ts (t ∷ [])

-- The two checksums that are found are the number written and that of what stands in front.
pub parse_message-frame_with :
    (sum : ℕ) (action : List ℕ) (tokens : List (List ℕ))
    → sum ≤ 65535
    → IsField 7 action
    → All (IsField 39) tokens
    → length tokens ≤ 27
    → length (frame_with sum action tokens) ≤ 255
    → parse_message (frame_with sum action tokens)
      ≡ some (record {
        message_type = action;
        tokens = tokens;
        expected_checksum = sum;
        calculated_checksum = calculate_checksum (joined (action ∷ tokens));
      })
unfolding parse_message frame_with
parse_message-frame_with sum action tokens bound a t n len =
    ap (λ (r : Option (List ℕ) × List ℕ). with_tokens raw r.0 (stored_tokens 28 r.1))
      (ap (strtok tab) (take-whole 255 raw len) ∙ strtok-joined 7 action all a)
    ∙ ap (with_tokens raw (some action)) (
        stored_tokens-joined 28 all (append-All tokens check t (checksum_token-IsField sum))
          (ground (arith, length-snoc tokens check)))
    ∙ with_tokens-last raw action tokens check
    ∙ finish_message-found raw (copied 8 action) tokens check sum front
        (expected_checksum-token sum bound)
        (ap (before_last tab) (joined-last action tokens check)
          ∙ before_last-tab front check (checksum_token-IsField sum).0)
    ∙ ap
        (λ (s : List ℕ). some (record {
          message_type = s;
          tokens = tokens;
          expected_checksum = sum;
          calculated_checksum = calculate_checksum front;
        }))
        (take-whole 7 action a.2)
  where
    front : List ℕ
    front = joined (action ∷ tokens)

    check : List ℕ
    check = checksum_token sum

    all : List (List ℕ)
    all = tokens ++ (check ∷ [])

    raw : List ℕ
    raw = joined (action ∷ all)

-- A frame of at most 255 bytes, of a message type of at most 7 characters and at most 27 tokens of at
-- most 39, none of them empty and none with a tab in it, is parsed to that message type and those
-- tokens, and its checksum is found right.
pub parse_message-frame :
    (action : List ℕ) (tokens : List (List ℕ))
    → IsField 7 action
    → All (IsField 39) tokens
    → length tokens ≤ 27
    → length (frame action tokens) ≤ 255
    → let checksum = calculate_checksum (joined (action ∷ tokens)) in
      parse_message (frame action tokens)
      ≡ some (record {
        message_type = action;
        tokens = tokens;
        expected_checksum = checksum;
        calculated_checksum = checksum;
      })
unfolding frame
parse_message-frame action tokens a t n len =
    parse_message-frame_with (calculate_checksum (joined (action ∷ tokens))) action tokens
      (calculate_checksum-le (joined (action ∷ tokens))) a t n len
