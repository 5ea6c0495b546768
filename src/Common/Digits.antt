-- ===== src/Common/Digits.antt =====
-- The digit equation of `bit_xor`: the lowest binary digit, with the fuel of the native
-- definition dropped.
use Prim.Native.Nat.{ℕ, zero, suc, ◌+◌, ◌*◌, ◌/◌, ◌%◌, ◌≤◌, ◌<◌, digits, differ, bit_xor}
use Prim.Native.Nat.{bit_xor-bitwise}
use mathlib.Core.Path.{◌≡◌, refl, ap}
use native.Mathlib.Omega.{arith}

-- The recursion of `bit_xor` on `n` digits.
abbrev xor_digits : ℕ → ℕ → ℕ → ℕ
xor_digits n a b = digits (λ y. y) differ n a b

-- Once the count covers `a`, a larger count changes nothing.
enough_digits : (a n b : ℕ) → a ≤ n → (k : ℕ) → k ≡ n → xor_digits k a b ≡ xor_digits a a b
enough_digits a n b h k e = go n k a b (omega arith) h e
  where
    two_counts : (n m a b : ℕ) → a ≤ n → a ≤ m → xor_digits n a b ≡ xor_digits m a b
    two_counts zero zero a b p q = refl
    two_counts (suc n) zero zero b p q = refl
    two_counts (suc n) zero (suc a) b p q = absurd (omega arith)
    two_counts zero (suc m) zero b p q = refl
    two_counts zero (suc m) (suc a) b p q = absurd (omega arith)
    two_counts (suc n) (suc m) zero b p q = refl
    two_counts (suc n) (suc m) (suc a) b p q =
        ap (λ t. t * 2 + differ (suc a % 2) (b % 2))
          (two_counts n m (suc a / 2) (b / 2) (omega arith) (omega arith))

    go : (n k a b : ℕ) → n ≡ k → a ≤ n → k ≡ n → xor_digits k a b ≡ xor_digits a a b
    go n k a b e h e' = two_counts k a a b (omega arith) (omega arith)

differ_bits : (x y : ℕ) → x < 2 → y < 2 → differ x y ≡ (x + y) % 2
differ_bits zero y p q = omega arith
differ_bits (suc zero) zero p q = omega arith
differ_bits (suc zero) (suc zero) p q = omega arith
differ_bits (suc zero) (suc (suc y)) p q = absurd (omega arith)
differ_bits (suc (suc x)) y p q = absurd (omega arith)

pub zero-bit_xor : (b : ℕ) → bit_xor 0 b ≡ b
zero-bit_xor b = bit_xor-bitwise 0 b

pub bit_xor_digit : (a b : ℕ) → bit_xor a b ≡ bit_xor (a / 2) (b / 2) * 2 + (a + b) % 2
bit_xor_digit zero b = omega (arith, zero-bit_xor b, zero-bit_xor (b / 2))
bit_xor_digit (suc a) b = omega (
  arith,
  bit_xor-bitwise (suc a) b,
  bit_xor-bitwise (suc a / 2) (b / 2),
  enough_digits (suc a / 2) a (b / 2) (omega arith) a refl,
  differ_bits (suc a % 2) (b % 2) (omega arith) (omega arith),
)
