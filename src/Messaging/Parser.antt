-- ===== src/Messaging/Parser.antt =====
-- `parseMessage` and `calculateChecksum` of firmware/src/messaging/messaging.c.
pub mod Frames
use creature_controller.Common.{
  ℕ, zero, suc, ◌+◌, ◌-◌, ◌%◌, Bool, true, false, List, [], ◌∷◌, Option, none, some, ltb, ◌==◌,
  if◌then◌else◌, length, take, get_or,
}
use creature_controller.Messaging.Text.{string_to_u16, behind_first, before_last, strtok}

-- `TOKEN_SEPERATOR`, `MAX_TOKENS`, `MAX_TOKEN_LENGTH`, `MESSAGE_ACTION_MAX_SIZE` and
-- `USB_SERIAL_INCOMING_MESSAGE_MAX_LENGTH`.
abbrev pub tab : ℕ
tab = 9

abbrev pub max_tokens : ℕ
max_tokens = 30

abbrev pub max_token_length : ℕ
max_token_length = 40

abbrev pub message_action_max_size : ℕ
message_action_max_size = 8

abbrev pub incoming_message_max_length : ℕ
incoming_message_max_length = 256

-- `GenericMessage`: `tokens` is the array up to `tokenCount`, so that its length is `tokenCount`.
pub record GenericMessage : Type 0 where
  pub message_type : List ℕ
  pub tokens : List (List ℕ)
  pub expected_checksum : ℕ
  pub calculated_checksum : ℕ

-- The loop of `calculateChecksum`, in 16 bits.
unfoldable pub checksum_from : ℕ → List ℕ → ℕ
checksum_from checksum [] = checksum
checksum_from checksum (c ∷ cs) = checksum_from ((checksum + c) % 65536) cs

-- `calculateChecksum`.
unfoldable pub calculate_checksum : List ℕ → ℕ
unfolding checksum_from
calculate_checksum message = checksum_from 0 message

-- `strncpy` to an array of that size, whose last byte is then set to NUL.
abbrev pub copied : ℕ → List ℕ → List ℕ
copied size s = take (size - 1) s

-- A token is stored in front of the others, unless there is none.
pub stored : Option (List ℕ) → List (List ℕ) → List (List ℕ)
stored none more = []
stored (some t) more = copied max_token_length t ∷ more

-- The loop over the tokens behind the first, with so many left that may be stored.
pub stored_tokens : ℕ → List ℕ → List (List ℕ)
unfolding stored
stored_tokens zero s = []
stored_tokens (suc left) s =
    let (token, rest) = strtok tab s in stored token (stored_tokens left rest)

-- All tokens but the last, and the last one.
pub split_last : List ℕ → List (List ℕ) → List (List ℕ) × List ℕ
split_last t [] = ([], t)
split_last t (u ∷ us) = let (front, last) = split_last u us in (t ∷ front, last)

-- The checksum that the last token gives: the number behind its first space, none if nothing is
-- there.
pub checksum_text : Option (List ℕ) → Option ℕ
checksum_text none = none
checksum_text (some []) = none
checksum_text (some (c ∷ cs)) = some (string_to_u16 (c ∷ cs))

pub expected_checksum : List ℕ → Option ℕ
unfolding checksum_text
expected_checksum token = checksum_text (behind_first 32 token)

-- The end of `parseMessage`, over the expected checksum and the text that the other one is of.
pub with_checksum : List ℕ → List (List ℕ) → Option ℕ → Option (List ℕ) → Option GenericMessage
with_checksum action tokens none front = none
with_checksum action tokens (some expected) none = none
with_checksum action tokens (some expected) (some front) = some (record {
  message_type = action;
  tokens = tokens;
  expected_checksum = expected;
  calculated_checksum = calculate_checksum front;
})

pub finish_message : List ℕ → List ℕ → List (List ℕ) × List ℕ → Option GenericMessage
unfolding with_checksum
finish_message raw action (tokens, last) =
    with_checksum action tokens (expected_checksum last) (before_last tab raw)

-- `parseMessage` behind its loop, over the first token and the others: fewer than two are refused.
pub with_tokens : List ℕ → Option (List ℕ) → List (List ℕ) → Option GenericMessage
with_tokens raw none ts = none
with_tokens raw (some action) [] = none
with_tokens raw (some action) (t ∷ ts) =
    finish_message raw (copied message_action_max_size action) (split_last t ts)

-- `parseMessage`, none where it returns false.
pub parse_message : List ℕ → Option GenericMessage
unfolding with_tokens finish_message stored_tokens
parse_message raw =
    let (first, rest) = strtok tab (copied incoming_message_max_length raw) in
    with_tokens raw first (stored_tokens (max_tokens - 2) rest)
