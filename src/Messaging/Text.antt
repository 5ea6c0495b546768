-- ===== src/Messaging/Text.antt =====
-- Text as the C library has it: the bytes of a string in front of its NUL. The functions of the C
-- library that the messages use, and firmware/src/util/string_utils.c.
pub mod Numbers
use creature_controller.Common.{
  ℕ, zero, suc, ◌+◌, ◌-◌, ◌*◌, ◌%◌, Bool, true, false, not, ◌&&◌, ◌||◌, List, [], ◌∷◌, ◌++◌, Option,
  none, some, ltb, leb, ◌==◌, if◌then◌else◌, get_or,
}

-- `isspace` in the C locale.
abbrev pub is_space : ℕ → Bool
is_space c = (c == 32) || (leb 9 c && leb c 13)

pub skip_space : List ℕ → List ℕ
skip_space [] = []
skip_space (c ∷ cs) = let rest = skip_space cs in if is_space c then rest else c ∷ cs

-- The value of a digit, or `base` itself for what is no digit.
abbrev pub digit : ℕ → ℕ → ℕ
digit base c =
    let d =
      if leb b'0' c && leb c b'9'
      then c - b'0'
      else if leb b'a' c && leb c b'z'
      then c - b'a' + 10
      else if leb b'A' c && leb c b'Z'
      then c - b'A' + 10
      else base in
    if ltb d base then d else base

-- The number at the front of a text, in front of which the digits of `value` stand.
pub digits_value : ℕ → ℕ → List ℕ → ℕ
digits_value base value [] = value
digits_value base value (c ∷ cs) =
    let more = digits_value base (value * base + digit base c) cs in
    if ltb (digit base c) base then more else value

-- `strtoul` with 32 bits of a text with no space in front, none where it sets ERANGE. A text without
-- a number has the value 0.
pub strtoul : ℕ → List ℕ → Option ℕ
strtoul base s =
    let signed = (get_or s 0 0 == b'-') || (get_or s 0 0 == b'+') in
    let value = digits_value base 0 (if signed then tail s else s) in
    if ltb 4294967295 value
    then none
    else if get_or s 0 0 == b'-'
    then some ((4294967296 - value) % 4294967296)
    else some value
  where
    tail : List ℕ → List ℕ
    tail [] = []
    tail (c ∷ cs) = cs

-- The digits behind a prefix "0x"; without one, `strtoul` reads only the zero in front.
abbrev pub hex_digits : List ℕ → List ℕ
hex_digits (z ∷ _ ∷ c ∷ cs) = if ltb (digit 16 c) 16 then c ∷ cs else z ∷ []
hex_digits cs = cs

-- The test `value > UINT16_MAX` of `stringToU16`, and its test of ERANGE.
abbrev pub to_u16 : Option ℕ → ℕ
to_u16 none = 0
to_u16 (some value) = if ltb 65535 value then 0 else value

-- The rest of `stringToU16`, behind the leading white space: a prefix "0x" makes it hexadecimal.
pub read_u16 : List ℕ → ℕ
unfolding strtoul
read_u16 s =
    let is_hex = (get_or s 0 0 == b'0') && ((get_or s 1 0 == b'x') || (get_or s 1 0 == b'X')) in
    to_u16 (if is_hex then strtoul 16 (hex_digits s) else strtoul 10 s)

-- `stringToU16`, of a string that is not NULL.
pub string_to_u16 : List ℕ → ℕ
unfolding read_u16 skip_space
string_to_u16 str = read_u16 (skip_space str)

-- `strchr`: the text behind the first `c`, or none without one.
unfoldable pub behind_first : ℕ → List ℕ → Option (List ℕ)
behind_first c [] = none
behind_first c (x ∷ xs) = let rest = behind_first c xs in if x == c then some xs else rest

-- `strrchr`: the text in front of the last `c`, or none without one.
unfoldable pub before_last : ℕ → List ℕ → Option (List ℕ)
before_last c [] = none
before_last c (x ∷ xs) = elim (before_last c xs) [
  | some front ↦ some (x ∷ front)
  | none ↦ if x == c then some [] else none
]

-- The text up to the first `c`, and the text behind that.
unfoldable pub run : ℕ → List ℕ → List ℕ × List ℕ
run c [] = ([], [])
run c (x ∷ xs) = let (front, rest) = run c xs in if x == c then ([], xs) else (x ∷ front, rest)

unfoldable pub skip : ℕ → List ℕ → List ℕ
skip c [] = []
skip c (x ∷ xs) = let rest = skip c xs in if x == c then rest else x ∷ xs

-- `strtok_r` with one separator: the next token, none if there is none, and what is left. `token_of`
-- is what it does behind the separators in front.
unfoldable pub token_of : ℕ → List ℕ → Option (List ℕ) × List ℕ
unfolding run
token_of c [] = (none, [])
token_of c (x ∷ xs) = let (front, rest) = run c (x ∷ xs) in (some front, rest)

unfoldable pub strtok : ℕ → List ℕ → Option (List ℕ) × List ℕ
unfolding token_of skip
strtok c s = token_of c (skip c s)

-- `strcmp` with the result 0.
unfoldable pub same_text : List ℕ → List ℕ → Bool
same_text [] [] = true
same_text (x ∷ xs) (y ∷ ys) = (x == y) && same_text xs ys
same_text _ _ = false
