-- ===== src/Common/Lists.antt =====
-- C arrays as lists, measured and indexed by native numbers.
use Prim.Native.Nat.{ℕ, zero, suc, ◌+◌, ◌-◌, ◌≤◌, ◌<◌, min}
use mathlib.Core.Path.{◌≡◌, refl, ap, ◌∙◌}
use mathlib.Core.Logic.{◌≢◌}
use mathlib.Core.List.{List, [], ◌∷◌, ◌++◌, reverse, reverse-append}
use mathlib.Core.Option.{Option, none, some}
use native.Mathlib.Omega.{arith}

module _ {ℓ} {A : Type ℓ} where
  abbrev pub length : List A → ℕ
  length [] = 0
  length (x ∷ xs) = suc (length xs)

  abbrev pub get_elem? : List A → ℕ → Option A
  get_elem? [] i = none
  get_elem? (x ∷ xs) zero = some x
  get_elem? (x ∷ xs) (suc i) = get_elem? xs i

  abbrev pub get_or : List A → ℕ → A → A
  get_or [] i d = d
  get_or (x ∷ xs) zero d = x
  get_or (x ∷ xs) (suc i) d = get_or xs i d

  -- A write out of bounds changes nothing.
  abbrev pub set : List A → ℕ → A → List A
  set [] i v = []
  set (x ∷ xs) zero v = v ∷ xs
  set (x ∷ xs) (suc i) v = x ∷ set xs i v

  abbrev pub take : ℕ → List A → List A
  take zero xs = []
  take (suc n) [] = []
  take (suc n) (x ∷ xs) = x ∷ take n xs

  abbrev pub drop : ℕ → List A → List A
  drop zero xs = xs
  drop (suc n) [] = []
  drop (suc n) (x ∷ xs) = drop n xs

  abbrev pub replicate : ℕ → A → List A
  replicate zero a = []
  replicate (suc n) a = a ∷ replicate n a

-- A predicate on every element, computing to a tuple that the tactics read.
abbrev pub All {ℓ κ} : {A : Type ℓ} → (A → Type κ) → List A → Type κ
All P [] = Unit
All P (x ∷ xs) = P x × All P xs

-- Every element is a byte, an `u8`.
abbrev pub AllBytes : List ℕ → Type 0
AllBytes = All (λ x. x < 256)

module _ {ℓ} {A : Type ℓ} where
  pub length-append : (xs ys : List A) → length (xs ++ ys) ≡ length xs + length ys
  length-append [] ys = omega arith
  length-append (x ∷ xs) ys = omega (arith, length-append xs ys)

  pub length-set : (xs : List A) (i : ℕ) (v : A) → length (set xs i v) ≡ length xs
  length-set [] i v = refl
  length-set (x ∷ xs) zero v = refl
  length-set (x ∷ xs) (suc i) v = ap suc (length-set xs i v)

  pub length-replicate : (n : ℕ) (a : A) → length (replicate n a) ≡ n
  length-replicate zero a = refl
  length-replicate (suc n) a = ap suc (length-replicate n a)

  pub length-take : (n : ℕ) (xs : List A) → length (take n xs) ≡ min n (length xs)
  length-take zero xs = omega arith
  length-take (suc n) [] = omega arith
  length-take (suc n) (x ∷ xs) = omega (arith, length-take n xs)

  pub length-drop : (n : ℕ) (xs : List A) → length (drop n xs) ≡ length xs - n
  length-drop zero xs = omega arith
  length-drop (suc n) [] = omega arith
  length-drop (suc n) (x ∷ xs) = omega (arith, length-drop n xs)

  pub get_or-set_self :
      (xs : List A) (i : ℕ) (v d : A) → i < length xs → get_or (set xs i v) i d ≡ v
  get_or-set_self [] i v d h = absurd (omega arith)
  get_or-set_self (x ∷ xs) zero v d h = refl
  get_or-set_self (x ∷ xs) (suc i) v d h = get_or-set_self xs i v d (omega arith)

  pub get_or-set_ne :
      (xs : List A) (i j : ℕ) (v d : A) → i ≢ j → get_or (set xs i v) j d ≡ get_or xs j d
  get_or-set_ne [] i j v d h = refl
  get_or-set_ne (x ∷ xs) zero zero v d h = absurd (h refl)
  get_or-set_ne (x ∷ xs) zero (suc j) v d h = refl
  get_or-set_ne (x ∷ xs) (suc i) zero v d h = refl
  get_or-set_ne (x ∷ xs) (suc i) (suc j) v d h = get_or-set_ne xs i j v d (λ e. h (ap suc e))

  -- Reading past a prefix, and taking or dropping exactly one.
  pub take-append : (n : ℕ) (xs ys : List A) → n ≡ length xs → take n (xs ++ ys) ≡ xs
  take-append zero [] ys h = refl
  take-append zero (x ∷ xs) ys h = absurd (omega arith)
  take-append (suc n) [] ys h = absurd (omega arith)
  take-append (suc n) (x ∷ xs) ys h = ap (λ l. x ∷ l) (take-append n xs ys (omega arith))

  pub drop-append : (n : ℕ) (xs ys : List A) → n ≡ length xs → drop n (xs ++ ys) ≡ ys
  drop-append zero [] ys h = refl
  drop-append zero (x ∷ xs) ys h = absurd (omega arith)
  drop-append (suc n) [] ys h = absurd (omega arith)
  drop-append (suc n) (x ∷ xs) ys h = drop-append n xs ys (omega arith)

  pub get_or-append_right :
      (n i : ℕ) (xs ys : List A) (d : A) → n ≡ length xs + i → get_or (xs ++ ys) n d ≡ get_or ys i d
  get_or-append_right n i [] ys d h = ap (λ k. get_or ys k d) (omega arith)
  get_or-append_right zero i (x ∷ xs) ys d h = absurd (omega arith)
  get_or-append_right (suc n) i (x ∷ xs) ys d h = get_or-append_right n i xs ys d (omega arith)

  pub get_or-take : (n i : ℕ) (xs : List A) (d : A) → i < n → get_or (take n xs) i d ≡ get_or xs i d
  get_or-take zero i xs d h = absurd (omega arith)
  get_or-take (suc n) i [] d h = refl
  get_or-take (suc n) zero (x ∷ xs) d h = refl
  get_or-take (suc n) (suc i) (x ∷ xs) d h = get_or-take n i xs d (omega arith)

  pub get_or-drop :
      (n i k : ℕ) (xs : List A) (d : A) → k ≡ n + i → get_or (drop n xs) i d ≡ get_or xs k d
  get_or-drop zero i k xs d e = let same : i ≡ k = omega (arith, e) in ap (λ j. get_or xs j d) same
  get_or-drop (suc n) i k [] d e = refl
  get_or-drop (suc n) i zero (x ∷ xs) d e = absurd (omega arith)
  get_or-drop (suc n) i (suc k) (x ∷ xs) d e = get_or-drop n i k xs d (omega arith)

  pub take-append-drop : (n : ℕ) (xs : List A) → take n xs ++ drop n xs ≡ xs
  take-append-drop zero xs = refl
  take-append-drop (suc n) [] = refl
  take-append-drop (suc n) (x ∷ xs) = ap (λ l. x ∷ l) (take-append-drop n xs)

module _ {ℓ} {A : Type ℓ} where
  -- The first `n` elements, cut at the place `i` that is written.
  pub take-set :
      (n i : ℕ) (xs : List A) (v : A)
      → i < n
      → i < length xs
      → take n (set xs i v) ≡ take i xs ++ (v ∷ take (n - suc i) (drop (suc i) xs))
  take-set n i [] v h k = absurd (omega arith)
  take-set zero i (x ∷ xs) v h k = absurd (omega arith)
  take-set (suc n) zero (x ∷ xs) v h k = ap (λ j. v ∷ take j xs) (omega arith)
  take-set (suc n) (suc i) (x ∷ xs) v h k =
      ap (λ l. x ∷ l) (take-set n i xs v (omega arith) (omega arith))
      ∙ ap (λ j. x ∷ (take i xs ++ (v ∷ take j (drop (suc i) xs)))) (omega arith)

  pub take-whole : (n : ℕ) (xs : List A) → length xs ≤ n → take n xs ≡ xs
  take-whole zero [] h = refl
  take-whole zero (x ∷ xs) h = absurd (omega arith)
  take-whole (suc n) [] h = refl
  take-whole (suc n) (x ∷ xs) h = ap (λ l. x ∷ l) (take-whole n xs (omega arith))

  pub set_self : (xs : List A) (i : ℕ) (d : A) → set xs i (get_or xs i d) ≡ xs
  set_self [] i d = refl
  set_self (x ∷ xs) zero d = refl
  set_self (x ∷ xs) (suc i) d = ap (λ l. x ∷ l) (set_self xs i d)

  -- A write behind the first `n` elements leaves them alone.
  pub take-set_ge : (n i : ℕ) (xs : List A) (v : A) → n ≤ i → take n (set xs i v) ≡ take n xs
  take-set_ge zero i xs v h = refl
  take-set_ge (suc n) i [] v h = refl
  take-set_ge (suc n) zero (x ∷ xs) v h = absurd (omega arith)
  take-set_ge (suc n) (suc i) (x ∷ xs) v h = ap (λ l. x ∷ l) (take-set_ge n i xs v (omega arith))

  pub length-reverse : (xs : List A) → length (reverse xs) ≡ length xs
  length-reverse [] = refl
  length-reverse (x ∷ xs) =
      ap length (reverse-append (x ∷ []) xs)
      ∙ length-append (reverse xs) (x ∷ [])
      ∙ omega (arith, length-reverse xs)

pub AllBytes-take : (n : ℕ) (xs : List ℕ) → AllBytes xs → AllBytes (take n xs)
AllBytes-take zero xs h = tt
AllBytes-take (suc n) [] h = tt
AllBytes-take (suc n) (x ∷ xs) h = (h.0, AllBytes-take n xs h.1)

pub AllBytes-drop : (n : ℕ) (xs : List ℕ) → AllBytes xs → AllBytes (drop n xs)
AllBytes-drop zero xs h = h
AllBytes-drop (suc n) [] h = tt
AllBytes-drop (suc n) (x ∷ xs) h = AllBytes-drop n xs h.1

pub get_or-lt : (xs : List ℕ) (i : ℕ) → AllBytes xs → get_or xs i 0 < 256
get_or-lt [] i h = omega arith
get_or-lt (x ∷ xs) zero h = h.0
get_or-lt (x ∷ xs) (suc i) h = get_or-lt xs i h.1
