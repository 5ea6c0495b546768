-- ===== src/Eeprom/Memory.antt =====
-- Reading and writing the EEPROM in pages, `eeprom_read` and `eeprom_write` of
-- firmware/src/device/eeprom.c. The chip is a parameter: its transfers over I2C, and what they do to its
-- cells as its data sheet says.
pub mod Cells
use creature_controller.Common.{
  ℕ, zero, suc, ◌+◌, ◌-◌, ◌%◌, ◌≤◌, ◌<◌, ◌≡◌, refl, sym, ap, ◌∙◌, ◌&&◌, Bool, true, false, List, [],
  ◌∷◌, ◌++◌, arith, ltb, leb, ◌==◌, if◌then◌else◌, length, get_or, take, drop, length-take,
  length-drop, get_or-take, get_or-drop, if_split, if_both, Bool-cases, inl, inr,
}

-- `EEPROM_PAGE_SIZE`.
abbrev pub page_size : ℕ
page_size = 64

-- `EEPROM_TOTAL_SIZE`.
abbrev pub total_size : ℕ
total_size = 32768

-- An addressed read of so many bytes, an addressed write, the wait for the write cycle, a restart, and the
-- cells. Does the chip answer, which it does not during a write cycle? And does its write-protect pin allow
-- a write?
pub record Chip (M : Type 0) : Type 0 where
  pub read : M → ℕ → ℕ → List ℕ × M
  pub write : M → ℕ → List ℕ → M
  pub wait_cycle : M → M
  pub power_up : M → M
  pub cell : M → ℕ → ℕ
  pub ready : M → Bool
  pub writable : M → Bool

-- The cells from an address on.
unfoldable pub cells_from : (ℕ → ℕ) → ℕ → ℕ → List ℕ
cells_from f addr zero = []
cells_from f addr (suc n) = f addr ∷ cells_from f (addr + 1) n

-- The data sheet, for addresses inside the array. A read from a chip that answers gives the cells. A write
-- to a chip that answers, and that is not write-protected, of bytes that stay inside a page, writes these
-- bytes from its address on, and no other cell; it begins a write cycle, so nothing is said of whether the
-- chip answers then, until the wait or a restart. A write to a protected chip changes no cell. All else
-- changes no cell, and nothing changes the pin.
pub record IsChip {M : Type 0} (chip : Chip M) : Type 0 where
  pub reads :
      (m : M) (addr n : ℕ)
      → chip.ready m ≡ true
      → addr + n ≤ total_size
      → (chip.read m addr n).0 ≡ cells_from (chip.cell m) addr n
  pub read_keeps : (m : M) (addr n a : ℕ) → chip.cell (chip.read m addr n).1 a ≡ chip.cell m a
  pub read_ready : (m : M) (addr n : ℕ) → chip.ready (chip.read m addr n).1 ≡ chip.ready m
  pub writes :
      (m : M) (addr : ℕ) (bytes : List ℕ) (a : ℕ)
      → chip.ready m ≡ true
      → chip.writable m ≡ true
      → addr % page_size + length bytes ≤ page_size
      → addr + length bytes ≤ total_size
      → a < total_size
      → chip.cell (chip.write m addr bytes) a ≡ (
          if leb addr a && ltb a (addr + length bytes)
          then get_or bytes (a - addr) 0
          else chip.cell m a)
  pub protects :
      (m : M) (addr : ℕ) (bytes : List ℕ) (a : ℕ)
      → chip.writable m ≡ false
      → chip.cell (chip.write m addr bytes) a ≡ chip.cell m a
  pub write_pin :
      (m : M) (addr : ℕ) (bytes : List ℕ)
      → chip.writable (chip.write m addr bytes) ≡ chip.writable m
  pub wait_keeps : (m : M) (a : ℕ) → chip.cell (chip.wait_cycle m) a ≡ chip.cell m a
  pub wait_ready : (m : M) → chip.ready (chip.wait_cycle m) ≡ true
  pub wait_pin : (m : M) → chip.writable (chip.wait_cycle m) ≡ chip.writable m
  pub power_keeps : (m : M) (a : ℕ) → chip.cell (chip.power_up m) a ≡ chip.cell m a
  pub power_ready : (m : M) → chip.ready (chip.power_up m) ≡ true

module _ {M : Type 0} (chip : Chip M) where
  -- `eeprom_read`: each round reads at least one byte, so `len` rounds are enough. The address has 16
  -- bits.
  unfoldable pub read_pages : ℕ → M → ℕ → ℕ → List ℕ × M
  read_pages zero m addr len = ([], m)
  read_pages (suc left) m addr len =
      let read_len = if ltb page_size len then page_size else len in
      let (bytes, m') = chip.read m addr read_len in
      let (rest, m'') = read_pages left m' ((addr + read_len) % 65536) (len - read_len) in
      if len == 0 then ([], m) else (bytes ++ rest, m'')

  unfoldable pub eeprom_read : M → ℕ → ℕ → List ℕ × M
  eeprom_read m addr len = read_pages len m addr len

  -- The bytes that go into the page of the address.
  unfoldable pub write_len : ℕ → ℕ → ℕ
  write_len addr len =
      let page_remaining = page_size - addr % page_size in
      if ltb len page_remaining then len else page_remaining

  -- `eeprom_write`, with so many rounds.
  unfoldable pub write_pages : ℕ → M → ℕ → List ℕ → M
  write_pages zero m addr bytes = m
  write_pages (suc left) m addr bytes =
      let n = write_len addr (length bytes) in
      let m' = chip.write m addr (take n bytes) in
      let rest = drop n bytes in
      let m'' = if ltb 0 (length rest) then chip.wait_cycle m' else m' in
      let done = write_pages left m'' ((addr + n) % 65536) rest in
      if length bytes == 0 then m else done

  unfoldable pub eeprom_write : M → ℕ → List ℕ → M
  eeprom_write m addr bytes = write_pages (length bytes) m addr bytes

  module _ (sheet : IsChip chip) where
    -- The cells after a write of these bytes from an address on.
    abbrev pub written : (ℕ → ℕ) → ℕ → List ℕ → ℕ → ℕ
    written f addr bytes a =
        if leb addr a && ltb a (addr + length bytes) then get_or bytes (a - addr) 0 else f a

    write_len_lem :
        (addr len : ℕ)
        → (write_len addr len ≤ len)
          × (addr % page_size + write_len addr len ≤ page_size)
          × (len ≤ write_len addr len + (len - 1))
    unfolding write_len
    write_len_lem addr len = (ground arith, ground arith, ground arith)

    -- A write in two pieces, one behind the other.
    written-pieces :
        (f : ℕ → ℕ) (addr n : ℕ) (bytes : List ℕ) (a : ℕ)
        → n ≤ length bytes
        → written (written f addr (take n bytes)) (addr + n) (drop n bytes) a
          ≡ written f addr bytes a
    written-pieces f addr n bytes a h = elim (Bool-cases (leb (addr + n) a)) [
      | inl behind ↦ ground (
        arith,
        length-take n bytes,
        length-drop n bytes,
        get_or-drop n (a - (addr + n)) (a - addr) bytes 0 (ground arith),
      )
      | inr front ↦ elim (Bool-cases (leb addr a)) [
        | inl inside ↦ ground (
          arith,
          length-take n bytes,
          length-drop n bytes,
          get_or-take n (a - addr) bytes 0 (ground arith),
        )
        | inr outside ↦ ground (arith, length-take n bytes, length-drop n bytes)
      ]
    ]

    written-empty :
        (f : ℕ → ℕ) (addr : ℕ) (bytes : List ℕ) (a : ℕ)
        → length bytes ≡ 0
        → written f addr bytes a ≡ f a
    written-empty f addr bytes a h = ground arith

    page_written :
        (m : M) (addr : ℕ) (bytes : List ℕ) (a : ℕ)
        → chip.ready m ≡ true
        → chip.writable m ≡ true
        → addr + length bytes ≤ total_size
        → a < total_size
        → chip.cell (chip.write m addr (take (write_len addr (length bytes)) bytes)) a
          ≡ written (chip.cell m) addr (take (write_len addr (length bytes)) bytes) a
    page_written m addr bytes a answers allowed fits inside =
        let n = write_len addr (length bytes) in
        let w = write_len_lem addr (length bytes) in
        sheet.writes m addr (take n bytes) a answers allowed
          (omega (arith, w.0, w.1, length-take n bytes))
          (omega (arith, w.0, length-take n bytes, fits)) inside

    -- The wait behind a page, if there is one, changes no cell, and not the pin.
    maybe_wait :
        (b : Bool) (m : M) (a : ℕ)
        → let m' = if b then chip.wait_cycle m else m in
          (chip.cell m' a ≡ chip.cell m a)
          × (chip.writable m' ≡ chip.writable m)
          × (b ≡ true → chip.ready m' ≡ true)
    maybe_wait true m a = (sheet.wait_keeps m a, sheet.wait_pin m, λ e. sheet.wait_ready m)
    maybe_wait false m a = (refl, refl, λ e. absurd (cc))

    -- What a write of the rest does depends only on the cells before it.
    written-cong :
        (f g : ℕ → ℕ) (addr : ℕ) (bytes : List ℕ) (a : ℕ)
        → f a ≡ g a
        → written f addr bytes a ≡ written g addr bytes a
    written-cong f g addr bytes a e =
        ap (λ x. if leb addr a && ltb a (addr + length bytes) then get_or bytes (a - addr) 0 else x)
          e

    -- The address wraps only where nothing is left to write.
    wrap_unused :
        (f : ℕ → ℕ) (addr : ℕ) (bytes : List ℕ) (a : ℕ)
        → addr + length bytes ≤ 65536
        → written f (addr % 65536) bytes a ≡ written f addr bytes a
    wrap_unused f addr bytes a h = elim (Bool-cases (length bytes == 0)) [
      | inl empty ↦
          written-empty f (addr % 65536) bytes a (ground arith)
          ∙ sym (written-empty f addr bytes a (ground arith))
      | inr some ↦
          let same : addr % 65536 ≡ addr = ground arith in ap (λ x. written f x bytes a) same
    ]

    write_pages_lem :
        (left : ℕ) (m : M) (addr : ℕ) (bytes : List ℕ) (a : ℕ)
        → length bytes ≤ left
        → addr + length bytes ≤ total_size
        → a < total_size
        → chip.writable m ≡ true
        → (ltb 0 (length bytes) ≡ true → chip.ready m ≡ true)
        → chip.cell (write_pages left m addr bytes) a ≡ written (chip.cell m) addr bytes a
    unfolding write_pages
    write_pages_lem zero m addr bytes a h fits inside allowed answers =
        sym (written-empty (chip.cell m) addr bytes a (omega arith))
    write_pages_lem (suc left) m addr bytes a h fits inside allowed answers =
        if_split (λ (x : M). chip.cell x a ≡ written (chip.cell m) addr bytes a) (length bytes == 0)
          m (write_pages left m'' ((addr + n) % 65536) (drop n bytes))
          (λ none. sym (written-empty (chip.cell m) addr bytes a (ground arith)))
          (λ some.
            write_pages_lem left m'' ((addr + n) % 65536) (drop n bytes) a
              (omega (arith, length-drop n bytes, w.2, h)) (lower some) inside
              (waited.1 ∙ sheet.write_pin m addr (take n bytes) ∙ allowed) waited.2
            ∙ wrap_unused (chip.cell m'') (addr + n) (drop n bytes) a
                (omega (arith, length-drop n bytes, w.0))
            ∙ written-cong (chip.cell m'') (written (chip.cell m) addr (take n bytes)) (addr + n)
                (drop n bytes) a
                (waited.0
                  ∙ page_written m addr bytes a (answers (ground (arith, some))) allowed fits
                      inside)
            ∙ written-pieces (chip.cell m) addr n bytes a w.0)
      where
        n : ℕ
        n = write_len addr (length bytes)

        w :
            (n ≤ length bytes)
            × (addr % page_size + n ≤ page_size)
            × (length bytes ≤ n + (length bytes - 1))
        w = write_len_lem addr (length bytes)

        m' : M
        m' = chip.write m addr (take n bytes)

        m'' : M
        m'' = if ltb 0 (length (drop n bytes)) then chip.wait_cycle m' else m'

        waited :
            (chip.cell m'' a ≡ chip.cell m' a)
            × (chip.writable m'' ≡ chip.writable m')
            × (ltb 0 (length (drop n bytes)) ≡ true → chip.ready m'' ≡ true)
        waited = maybe_wait (ltb 0 (length (drop n bytes))) m' a

        lower :
            (length bytes == 0) ≡ false → (addr + n) % 65536 + length (drop n bytes) ≤ total_size
        lower some = ground (arith, length-drop n bytes, w.0)

    -- On a chip that does what its data sheet says, that answers at first, and that is not write-protected,
    -- a write inside the array writes exactly its bytes, whatever pages they lie in, although the chip does
    -- not answer while it writes a page: afterwards the cells from the address on hold the bytes, and every
    -- other cell of the array is as before.
    pub eeprom_write_lem :
        (m : M) (addr : ℕ) (bytes : List ℕ) (a : ℕ)
        → chip.ready m ≡ true
        → chip.writable m ≡ true
        → addr + length bytes ≤ total_size
        → a < total_size
        → chip.cell (eeprom_write m addr bytes) a ≡ written (chip.cell m) addr bytes a
    unfolding eeprom_write
    eeprom_write_lem m addr bytes a answers allowed fits inside =
        write_pages_lem (length bytes) m addr bytes a (omega arith) fits inside allowed
          (λ e. answers)

    write_pages-protected :
        (left : ℕ) (m : M) (addr : ℕ) (bytes : List ℕ) (a : ℕ)
        → chip.writable m ≡ false
        → chip.cell (write_pages left m addr bytes) a ≡ chip.cell m a
    unfolding write_pages
    write_pages-protected zero m addr bytes a closed = refl
    write_pages-protected (suc left) m addr bytes a closed =
        let n = write_len addr (length bytes) in
        let m' = chip.write m addr (take n bytes) in
        let more = ltb 0 (length (drop n bytes)) in
        let m'' = if more then chip.wait_cycle m' else m' in
        let waited = maybe_wait more m' a in
        if_both (λ (x : M). chip.cell x a ≡ chip.cell m a) (length bytes == 0) m
          (write_pages left m'' ((addr + n) % 65536) (drop n bytes)) refl
          (write_pages-protected left m'' ((addr + n) % 65536) (drop n bytes) a
              (waited.1 ∙ sheet.write_pin m addr (take n bytes) ∙ closed)
            ∙ waited.0
            ∙ sheet.protects m addr (take n bytes) a closed)

    -- A write-protected chip keeps all its cells.
    pub eeprom_write-protected :
        (m : M) (addr : ℕ) (bytes : List ℕ) (a : ℕ)
        → chip.writable m ≡ false
        → chip.cell (eeprom_write m addr bytes) a ≡ chip.cell m a
    unfolding eeprom_write
    eeprom_write-protected m addr bytes a closed =
        write_pages-protected (length bytes) m addr bytes a closed

    write_pages-pin :
        (left : ℕ) (m : M) (addr : ℕ) (bytes : List ℕ)
        → chip.writable (write_pages left m addr bytes) ≡ chip.writable m
    unfolding write_pages
    write_pages-pin zero m addr bytes = refl
    write_pages-pin (suc left) m addr bytes =
        let n = write_len addr (length bytes) in
        let m' = chip.write m addr (take n bytes) in
        let more = ltb 0 (length (drop n bytes)) in
        let m'' = if more then chip.wait_cycle m' else m' in
        if_both (λ (x : M). chip.writable x ≡ chip.writable m) (length bytes == 0) m
          (write_pages left m'' ((addr + n) % 65536) (drop n bytes)) refl
          (write_pages-pin left m'' ((addr + n) % 65536) (drop n bytes)
            ∙ (maybe_wait more m' 0).1
            ∙ sheet.write_pin m addr (take n bytes))

    pub eeprom_write-pin :
        (m : M) (addr : ℕ) (bytes : List ℕ)
        → chip.writable (eeprom_write m addr bytes) ≡ chip.writable m
    unfolding eeprom_write
    eeprom_write-pin m addr bytes = write_pages-pin (length bytes) m addr bytes
