-- ===== src/Common/Xor.antt =====
-- The laws of `bit_xor` at variables.
use Prim.Native.Nat.{ℕ, zero, suc, ◌+◌, ◌*◌, ◌/◌, ◌%◌, ◌^◌, ◌≤◌, ◌<◌, bit_xor}
use mathlib.Core.Path.{◌≡◌, sym, ◌∙◌, ap}
use native.Mathlib.Nat.{pow-suc}
use native.Mathlib.Omega.{arith}
use creature_controller.Common.Digits.{bit_xor_digit, zero-bit_xor as zero_xor}

pub zero-bit_xor : (b : ℕ) → bit_xor 0 b ≡ b
zero-bit_xor b = zero_xor b

-- Each law is an induction on a bound of the numbers, which halve.
comm_below : (n a b : ℕ) → a ≤ n → b ≤ n → bit_xor a b ≡ bit_xor b a
comm_below zero a b p q = ap (λ t. bit_xor t b) (omega arith) ∙ ap (λ t. bit_xor b t) (omega arith)
comm_below (suc n) a b p q = omega (
  arith,
  bit_xor_digit a b,
  bit_xor_digit b a,
  comm_below n (a / 2) (b / 2) (omega arith) (omega arith),
)

pub bit_xor_comm : (a b : ℕ) → bit_xor a b ≡ bit_xor b a
bit_xor_comm a b = comm_below (a + b) a b (omega arith) (omega arith)

pub bit_xor-zero : (a : ℕ) → bit_xor a 0 ≡ a
bit_xor-zero a = bit_xor_comm a 0 ∙ zero_xor a

half : (a b : ℕ) → bit_xor a b / 2 ≡ bit_xor (a / 2) (b / 2)
half a b = omega (arith, bit_xor_digit a b)

parity : (a b : ℕ) → bit_xor a b % 2 ≡ (a + b) % 2
parity a b = omega (arith, bit_xor_digit a b)

assoc_below :
    (n a b c : ℕ) → a ≤ n → b ≤ n → c ≤ n → bit_xor (bit_xor a b) c ≡ bit_xor a (bit_xor b c)
assoc_below zero a b c p q r = ground (arith, zero-bit_xor 0)
assoc_below (suc n) a b c p q r = omega (
  arith,
  bit_xor_digit (bit_xor a b) c,
  bit_xor_digit a (bit_xor b c),
  ap (λ t. bit_xor t (c / 2)) (half a b),
  ap (λ t. bit_xor (a / 2) t) (half b c),
  parity a b,
  parity b c,
  assoc_below n (a / 2) (b / 2) (c / 2) (omega arith) (omega arith) (omega arith),
)

pub bit_xor_assoc : (a b c : ℕ) → bit_xor (bit_xor a b) c ≡ bit_xor a (bit_xor b c)
bit_xor_assoc a b c = assoc_below (a + b + c) a b c (omega arith) (omega arith) (omega arith)

self_below : (n a : ℕ) → a ≤ n → bit_xor a a ≡ 0
self_below zero a p = ground (arith, zero-bit_xor 0)
self_below (suc n) a p = omega (arith, bit_xor_digit a a, self_below n (a / 2) (omega arith))

pub bit_xor_self : (a : ℕ) → bit_xor a a ≡ 0
bit_xor_self a = self_below a a (omega arith)

pub bit_xor_cancel : (a b : ℕ) → bit_xor (bit_xor a b) b ≡ a
bit_xor_cancel a b = bit_xor_assoc a b b ∙ ap (λ t. bit_xor a t) (bit_xor_self b) ∙ bit_xor-zero a

doubled : (k w : ℕ) → 2 * (w * 2 ^ k) ≡ w * 2 ^ suc k
doubled k w = omega (arith, ap (λ (z : ℕ). w * z) (pow-suc 2 k))

pub bit_xor_swap : (a b c : ℕ) → bit_xor (bit_xor a b) c ≡ bit_xor (bit_xor a c) b
bit_xor_swap a b c =
    bit_xor_assoc a b c ∙ ap (bit_xor a) (bit_xor_comm b c) ∙ sym (bit_xor_assoc a c b)

-- The fields above and below a binary place do not meet.
pub bit_xor_fields :
    (k q r p s : ℕ)
    → r < 2 ^ k
    → s < 2 ^ k
    → bit_xor (q * 2 ^ k + r) (p * 2 ^ k + s) ≡ bit_xor q p * 2 ^ k + bit_xor r s
bit_xor_fields zero q r p s hr hs = ground (arith, zero-bit_xor 0)
bit_xor_fields (suc k) q r p s hr hs = ground (
  arith,
  bit_xor_digit (q * 2 ^ suc k + r) (p * 2 ^ suc k + s),
  bit_xor_digit r s,
  doubled k q,
  doubled k p,
  doubled k (bit_xor q p),
  pow-suc 2 k,
  bit_xor_fields k q (r / 2) p (s / 2) (omega (arith, pow-suc 2 k)) (omega (arith, pow-suc 2 k)),
)

pub bit_xor-lt : (k r s : ℕ) → r < 2 ^ k → s < 2 ^ k → bit_xor r s < 2 ^ k
bit_xor-lt zero r s hr hs = ground (arith, zero-bit_xor 0)
bit_xor-lt (suc k) r s hr hs = omega (
  arith,
  pow-suc 2 k,
  bit_xor_digit r s,
  bit_xor-lt k (r / 2) (s / 2) (omega (arith, pow-suc 2 k)) (omega (arith, pow-suc 2 k)),
)
