-- ===== src/Eeprom/Slots.antt =====
-- The choice of the newest record, `eeprom_hours_select_slot` of firmware/src/device/eeprom_hours.c.
use creature_controller.Common.{
  ℕ, zero, suc, ◌+◌, ◌*◌, ◌/◌, ◌≤◌, ◌<◌, ◌≡◌, refl, sym, inl, inr, Bool, true, List, Option, none,
  some, arith, ltb, if◌then◌else◌, length, take, drop, Bool-cases, subst, ◌==◌, ==_iff, if_split,
}
use creature_controller.Eeprom.Record.{Hours, slot_size, eeprom_hours_deserialize}

-- `EEPROM_HOURS_SLOT_COUNT`.
abbrev pub slot_count : ℕ
slot_count = 16

-- The record in the slot of that number, if it is a valid one.
unfoldable pub read_slot : List ℕ → ℕ → Option Hours
read_slot region i = eeprom_hours_deserialize (take slot_size (drop (i * slot_size) region))

-- The best slot so far, with its record.
pub record Best : Type 0 where
  pub slot : ℕ
  pub hours : Hours

-- Is a record newer than the best one?
unfoldable pub is_newer : Hours → Option Best → Bool
is_newer h none = true
is_newer h (some b) = ltb b.hours.seq h.seq

-- The body of the loop, over what the slot holds.
unfoldable pub consider : ℕ → Option Hours → Option Best → Option Best
consider i none best = best
consider i (some h) best = if is_newer h best then some (record { slot = i; hours = h }) else best

-- The loop, with so many slots left.
unfoldable pub select_from : List ℕ → ℕ → ℕ → Option Best → Option Best
select_from region zero i best = best
select_from region (suc left) i best =
    select_from region left (i + 1) (consider i (read_slot region i) best)

-- How many slots are looked at.
unfoldable pub slots_in : ℕ → ℕ
slots_in region_len =
    let count = region_len / slot_size in if ltb slot_count count then slot_count else count

-- `eeprom_hours_select_slot`: nothing stands for -1.
unfoldable pub eeprom_hours_select_slot : List ℕ → Option Best
eeprom_hours_select_slot region = select_from region (slots_in (length region)) 0 none

-- No slot before `bound` holds a record; or this one holds it, and no record there is newer.
abbrev pub Newest : List ℕ → ℕ → Option Best → Type 0
Newest region bound none = (j : ℕ) → j < bound → read_slot region j ≡ none
Newest region bound (some b) =
    (b.slot < bound)
    × (read_slot region b.slot ≡ some b.hours)
    × ((j : ℕ) (h : Hours) → j < bound → read_slot region j ≡ some h → h.seq ≤ b.hours.seq)

-- What holds below `i` and at `i` holds below `i + 1`.
below_next : (P : ℕ → Type 0) (i j : ℕ) → j < i + 1 → (j < i → P j) → P i → P j
below_next P i j h below at = elim (Bool-cases (j == i)) [
  | inl here ↦ subst P (sym ((==_iff j i).0 here)) at
  | inr other ↦ below (ground arith)
]

-- The record of a slot is the newest up to `limit`, if it is one.
abbrev AtMost : List ℕ → ℕ → ℕ → Type 0
AtMost region limit j = (h : Hours) → read_slot region j ≡ some h → h.seq ≤ limit

absent-AtMost : (region : List ℕ) (limit j : ℕ) → read_slot region j ≡ none → AtMost region limit j
absent-AtMost region limit j e h r = absurd (cc)

present-AtMost :
    (region : List ℕ) (limit j : ℕ) (k : Hours)
    → read_slot region j ≡ some k
    → k.seq ≤ limit
    → AtMost region limit j
present-AtMost region limit j k e l h r = let same : k ≡ h = cc in rw (sym same) l

consider-Newest :
    (region : List ℕ) (i : ℕ) (o : Option Hours)
    → read_slot region i ≡ o
    → (best : Option Best) → Newest region i best
    → Newest region (i + 1) (consider i o best)
unfolding consider is_newer
consider-Newest region i none e none n =
    λ j l. below_next (λ j. read_slot region j ≡ none) i j l (n j) e
consider-Newest region i none e (some b) n = (
  omega (arith, n.0),
  n.1,
  λ j h l r.
      below_next (AtMost region b.hours.seq) i j l (λ m k. n.2 j k m)
        (absent-AtMost region b.hours.seq i e) h r,
)
consider-Newest region i (some h) e none n = (
  omega arith,
  e,
  λ j k l r.
      below_next (AtMost region h.seq) i j l (λ m. absent-AtMost region h.seq j (n j m))
        (present-AtMost region h.seq i h e (omega arith)) k r,
)
consider-Newest region i (some h) e (some b) n =
    if_split (Newest region (i + 1)) (ltb b.hours.seq h.seq) (some (record { slot = i; hours = h }))
      (some b)
      (λ newer. (
        omega arith,
        e,
        λ j k l r.
            below_next (AtMost region h.seq) i j l
              (λ m k' r'. omega (arith, n.2 j k' m r', lt_of newer))
              (present-AtMost region h.seq i h e (omega arith)) k r,
      ))
      (λ older. (
        omega (arith, n.0),
        n.1,
        λ j k l r.
            below_next (AtMost region b.hours.seq) i j l (λ m k'. n.2 j k' m)
              (present-AtMost region b.hours.seq i h e (ground arith)) k r,
      ))
  where
    lt_of : ltb b.hours.seq h.seq ≡ true → b.hours.seq < h.seq
    lt_of e = ground arith

select_from-Newest :
    (region : List ℕ) (left i : ℕ) (best : Option Best)
    → Newest region i best
    → Newest region (i + left) (select_from region left i best)
unfolding select_from
select_from-Newest region zero i best n =
    let same : i ≡ i + 0 = omega arith in subst (λ k. Newest region k best) same n
select_from-Newest region (suc left) i best n =
    let same : i + 1 + left ≡ i + suc left = omega arith in
    subst
      (λ k.
        Newest region k (select_from region left (i + 1) (consider i (read_slot region i) best)))
      same
      (select_from-Newest region left (i + 1) (consider i (read_slot region i) best)
        (consider-Newest region i (read_slot region i) refl best n))

-- The slot chosen holds a valid record, of the highest sequence number among the valid records of all
-- slots that are looked at; and none is chosen only if no such slot holds a valid record.
pub eeprom_hours_select_slot_lem :
    (region : List ℕ) → Newest region (slots_in (length region)) (eeprom_hours_select_slot region)
unfolding eeprom_hours_select_slot
eeprom_hours_select_slot_lem region =
    let all : 0 + slots_in (length region) ≡ slots_in (length region) = omega arith in
    subst (λ k. Newest region k (select_from region (slots_in (length region)) 0 none)) all
      (select_from-Newest region (slots_in (length region)) 0 none (λ j h. absurd (omega arith)))
