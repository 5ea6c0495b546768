-- ===== src/Messaging/Text/Numbers.antt =====
-- Decimal numbers are read as they are written.
use creature_controller.Common.{
  ℕ, zero, suc, ◌+◌, ◌*◌, ◌/◌, ◌%◌, ◌≤◌, ◌<◌, ◌≡◌, ap, ◌∙◌, false, ◌||◌, List, [], ◌∷◌, ◌++◌, some,
  arith, ltb, ◌==◌, if◌then◌else◌, length, length-append, inl, inr, Bool-cases, All,
}
use creature_controller.Messaging.Text.{
  is_space, skip_space, digit, digits_value, strtoul, read_u16, string_to_u16,
}

-- The decimal text of a number of at most `n` digits, as printf's %u writes it.
unfoldable pub decimal : ℕ → ℕ → List ℕ
decimal zero v = []
decimal (suc n) v =
    let front = decimal n (v / 10) in
    if ltb v 10 then (b'0' + v) ∷ [] else front ++ ((b'0' + v % 10) ∷ [])

-- `10 ^ n`.
abbrev pub ten_to : ℕ → ℕ
ten_to zero = 1
ten_to (suc n) = 10 * ten_to n

abbrev pub IsDigit : ℕ → Type 0
IsDigit c = (48 ≤ c) × (c ≤ 57)

digits_value-append :
    (value d : ℕ) (s : List ℕ)
    → d < 10
    → All IsDigit s
    → digits_value 10 value (s ++ ((b'0' + d) ∷ [])) ≡ digits_value 10 value s * 10 + d
unfolding digits_value
digits_value-append value d [] h k = ground arith
digits_value-append value d (c ∷ s) h k =
    ground (arith, digits_value-append (value * 10 + digit 10 c) d s h k.1, k.0)

append-IsDigit : (s : List ℕ) (c : ℕ) → All IsDigit s → IsDigit c → All IsDigit (s ++ (c ∷ []))
append-IsDigit [] c h k = (k, tt)
append-IsDigit (x ∷ s) c h k = (h.0, append-IsDigit s c h.1 k)

pub decimal-IsDigit : (n v : ℕ) → All IsDigit (decimal n v)
unfolding decimal
decimal-IsDigit zero v = tt
decimal-IsDigit (suc n) v = elim (Bool-cases (ltb v 10)) [
  | inl short ↦ rw short ((ground arith, ground arith), tt)
  | inr long ↦ rw long (
      append-IsDigit (decimal n (v / 10)) (b'0' + v % 10) (decimal-IsDigit n (v / 10))
        (ground arith, ground arith))
]

digits_value-decimal : (n v : ℕ) → v < ten_to n → digits_value 10 0 (decimal n v) ≡ v
unfolding decimal digits_value
digits_value-decimal zero v h = ground arith
digits_value-decimal (suc n) v h = elim (Bool-cases (ltb v 10)) [
  | inl short ↦ rw short (ground arith)
  | inr long ↦ rw long (
      digits_value-append 0 (v % 10) (decimal n (v / 10)) (ground arith)
        (decimal-IsDigit n (v / 10))
      ∙ ground (arith, digits_value-decimal n (v / 10) (ground arith)))
]

pub decimal-nonempty : (n v : ℕ) → 0 < n → 0 < length (decimal n v)
unfolding decimal
decimal-nonempty zero v h = h
decimal-nonempty (suc n) v h =
    ground (arith, length-append (decimal n (v / 10)) ((b'0' + v % 10) ∷ []))

strtoul-digits :
    (c : ℕ) (s : List ℕ)
    → IsDigit c
    → digits_value 10 0 (c ∷ s) ≤ 65535
    → strtoul 10 (c ∷ s) ≡ some (digits_value 10 0 (c ∷ s))
unfolding strtoul
strtoul-digits c s h e = ground (arith, h.0, h.1)

digit_no_space : (c : ℕ) → IsDigit c → is_space c ≡ false
digit_no_space c h = ground (arith, h.0, h.1)

digit_no_x : (c : ℕ) → IsDigit c → ((c == b'x') || (c == b'X')) ≡ false
digit_no_x c h = ground (arith, h.0, h.1)

-- The number of a text of digits with no sign, blank or prefix is what its digits say.
read_u16-digits :
    (c : ℕ) (s : List ℕ)
    → All IsDigit (c ∷ s)
    → digits_value 10 0 (c ∷ s) ≤ 65535
    → read_u16 (c ∷ s) ≡ digits_value 10 0 (c ∷ s)
unfolding read_u16
read_u16-digits c [] h e = ground (arith, strtoul-digits c [] h.0 e)
read_u16-digits c (d ∷ s) h e = ground (arith, digit_no_x d h.1.0, strtoul-digits c (d ∷ s) h.0 e)

string_to_u16-digits :
    (s : List ℕ)
    → All IsDigit s
    → 0 < length s
    → digits_value 10 0 s ≤ 65535
    → string_to_u16 s ≡ digits_value 10 0 s
unfolding string_to_u16 skip_space
string_to_u16-digits [] h k e = absurd (ground arith)
string_to_u16-digits (c ∷ s) h k e =
    ap read_u16 {x = skip_space (c ∷ s)} {y = c ∷ s} (ground (arith, digit_no_space c h.0))
    ∙ read_u16-digits c s h e

-- `stringToU16` reads a number below 65536 as printf's %u writes it.
pub string_to_u16-decimal : (v : ℕ) → v ≤ 65535 → string_to_u16 (decimal 5 v) ≡ v
string_to_u16-decimal v h =
    string_to_u16-digits (decimal 5 v) (decimal-IsDigit 5 v) (decimal-nonempty 5 v (ground arith))
      (ground (arith, digits_value-decimal 5 v (ground arith)))
    ∙ digits_value-decimal 5 v (ground arith)
