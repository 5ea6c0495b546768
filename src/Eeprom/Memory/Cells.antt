-- ===== src/Eeprom/Memory/Cells.antt =====
-- What `eeprom_read` of firmware/src/device/eeprom.c gives.
use creature_controller.Common.{
  true, ℕ, zero, suc, ◌+◌, ◌-◌, ◌%◌, ◌≤◌, ◌<◌, ◌≡◌, refl, sym, ap, ◌∙◌, List, [], ◌∷◌, ◌++◌, arith,
  ltb, ◌==◌, if◌then◌else◌, length, take, drop, if_split, Bool-cases, inl, inr, drop-append,
  take-append,
}
use creature_controller.Eeprom.Memory.{
  Chip, IsChip, page_size, total_size, cells_from, read_pages, eeprom_read,
}

pub length-cells_from : (f : ℕ → ℕ) (addr n : ℕ) → length (cells_from f addr n) ≡ n
unfolding cells_from
length-cells_from f addr zero = refl
length-cells_from f addr (suc n) = ap suc (length-cells_from f (addr + 1) n)

pub cells_from-cong :
    (f g : ℕ → ℕ) (addr n : ℕ)
    → ((i : ℕ) → i < n → f (addr + i) ≡ g (addr + i))
    → cells_from f addr n ≡ cells_from g addr n
unfolding cells_from
cells_from-cong f g addr zero h = refl
cells_from-cong f g addr (suc n) h =
    let here : addr + 0 ≡ addr = omega arith in
    let first : f addr ≡ g addr = ap f (sym here) ∙ h 0 (omega arith) ∙ ap g here in
    let rest : cells_from f (addr + 1) n ≡ cells_from g (addr + 1) n =
      cells_from-cong f g (addr + 1) n (λ i l.
        let next : addr + 1 + i ≡ addr + suc i = omega arith in
        ap f next ∙ h (suc i) (omega (arith, l)) ∙ ap g (sym next)) in
    rw (first, rest) refl

cells_from-append :
    (f : ℕ → ℕ) (addr n k : ℕ)
    → cells_from f addr n ++ cells_from f (addr + n) k ≡ cells_from f addr (n + k)
unfolding cells_from
cells_from-append f addr zero k =
    let here : addr + 0 ≡ addr = omega arith in
    let none : 0 + k ≡ k = omega arith in rw (here, none) refl
cells_from-append f addr (suc n) k =
    let next : addr + suc n ≡ addr + 1 + n = omega arith in
    let more : suc n + k ≡ suc (n + k) = omega arith in
    rw (next, more) (ap (λ x. f addr ∷ x) (cells_from-append f (addr + 1) n k))

no_cells : (f : ℕ → ℕ) (addr n : ℕ) → n ≡ 0 → cells_from f addr n ≡ []
unfolding cells_from
no_cells f addr zero e = refl
no_cells f addr (suc n) e = absurd (omega (arith, e))

-- A part of the cells.
pub part_lem :
    (f : ℕ → ℕ) (addr j k n : ℕ)
    → j + k ≤ n
    → take k (drop j (cells_from f addr n)) ≡ cells_from f (addr + j) k
part_lem f addr j k n h =
    ap (λ x. take k (drop j x))
      (sym (cells_from-append f addr j (n - j) ∙ ap (cells_from f addr) front))
    ∙ ap (take k) (
        drop-append j (cells_from f addr j) (cells_from f (addr + j) (n - j))
          (sym (length-cells_from f addr j)))
    ∙ ap (take k)
        (sym (cells_from-append f (addr + j) k (n - j - k) ∙ ap (cells_from f (addr + j)) back))
    ∙ take-append k (cells_from f (addr + j) k) (cells_from f (addr + j + k) (n - j - k))
        (sym (length-cells_from f (addr + j) k))
  where
    front : j + (n - j) ≡ n
    front = omega (arith, h)

    back : k + (n - j - k) ≡ n - j
    back = omega (arith, h)

module _ {M : Type 0} (chip : Chip M) (sheet : IsChip chip) where
  read_pages_lem :
      (left : ℕ) (m : M) (addr len : ℕ)
      → len ≤ left
      → addr + len ≤ total_size
      → chip.ready m ≡ true
      → (read_pages chip left m addr len).0 ≡ cells_from (chip.cell m) addr len
  unfolding read_pages
  read_pages_lem zero m addr len h fits answers =
      let none : len ≡ 0 = omega (arith, h) in rw none (unfold cells_from in refl)
  read_pages_lem (suc left) m addr len h fits answers =
      if_split (λ (x : List ℕ × M). x.0 ≡ cells_from (chip.cell m) addr len) (len == 0) ([], m)
        ((chip.read m addr n).0 ++ rest.0, rest.1)
        (λ none. sym (no_cells (chip.cell m) addr len (ground (arith, none))))
        (λ some.
          ap (λ x. (chip.read m addr n).0 ++ x)
            (read_pages_lem left m' ((addr + n) % 65536) (len - n) (ground (arith, some))
                (ground arith) (sheet.read_ready m addr n ∙ answers)
              ∙ wrapped
              ∙ cells_from-cong (chip.cell m') (chip.cell m) (addr + n) (len - n)
                  (λ i l. sheet.read_keeps m addr n (addr + n + i)))
          ∙ ap (λ x. x ++ cells_from (chip.cell m) (addr + n) (len - n))
              (sheet.reads m addr n answers (ground arith))
          ∙ cells_from-append (chip.cell m) addr n (len - n)
          ∙ ap (cells_from (chip.cell m) addr) all)
    where
      n : ℕ
      n = if ltb page_size len then page_size else len

      m' : M
      m' = (chip.read m addr n).1

      rest : List ℕ × M
      rest = read_pages chip left m' ((addr + n) % 65536) (len - n)

      all : n + (len - n) ≡ len
      all = ground arith

      wrapped :
          cells_from (chip.cell m') ((addr + n) % 65536) (len - n)
          ≡ cells_from (chip.cell m') (addr + n) (len - n)
      wrapped = elim (Bool-cases ((len - n) == 0)) [
        | inl none ↦
            no_cells (chip.cell m') ((addr + n) % 65536) (len - n) (ground (arith, none))
            ∙ sym (no_cells (chip.cell m') (addr + n) (len - n) (ground (arith, none)))
        | inr some ↦
            let same : (addr + n) % 65536 ≡ addr + n = ground (arith, some) in
            ap (λ x. cells_from (chip.cell m') x (len - n)) same
      ]

  -- On a chip that does what its data sheet says, and that answers, a read inside the array gives the cells from its address on.
  pub eeprom_read_lem :
      (m : M) (addr len : ℕ)
      → addr + len ≤ total_size
      → chip.ready m ≡ true
      → (eeprom_read chip m addr len).0 ≡ cells_from (chip.cell m) addr len
  unfolding eeprom_read
  eeprom_read_lem m addr len fits answers = read_pages_lem len m addr len (omega arith) fits answers
