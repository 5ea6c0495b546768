-- ===== src/Dynamixel/Driver/Scan.antt =====
-- `find_packet_header` of firmware/src/dynamixel/dynamixel_hal.c, and what it finds.
use creature_controller.Common.{
  ℕ, zero, suc, ◌+◌, ◌-◌, ◌*◌, ◌≤◌, ◌<◌, ◌≡◌, ◌≢◌, refl, ap, ap₂, sym, subst, ◌∙◌, Bool, true,
  false, ◌&&◌, List, [], ◌∷◌, ◌++◌, Option, none, some, arith, leb, ◌==◌, if◌then◌else◌, length,
  get_or, All, get_or-append_right, append_assoc, length-append,
}
use creature_controller.Dynamixel.Packet.{le_at}

-- The four bytes of a header at `pos`.
unfoldable pub has_header : List ℕ → ℕ → Bool
has_header buf pos =
    (get_or buf pos 0 == 0xff)
    && (get_or buf (pos + 1) 0 == 0xff)
    && (get_or buf (pos + 2) 0 == 0xfd)
    && (get_or buf (pos + 3) 0 == 0x00)

-- Where the packet that begins at `pos` ends, by its length field.
unfoldable pub end_at : List ℕ → ℕ → ℕ
end_at buf pos = pos + 7 + le_at buf (pos + 5)

-- Is there a header at `pos` of a packet that ends by `max_end`?
unfoldable pub accepts : List ℕ → ℕ → ℕ → Bool
accepts buf max_end pos = has_header buf pos && leb (end_at buf pos) max_end

-- The loop, with so many rounds left.
unfoldable pub scan_from : List ℕ → ℕ → ℕ → ℕ → Option (ℕ × ℕ)
scan_from buf max_end zero pos = none
scan_from buf max_end (suc left) pos =
    let rest = scan_from buf max_end left (pos + 1) in
    if accepts buf max_end pos then some (pos, end_at buf pos) else rest

-- `find_packet_header` in the `buf_len` bytes of `buf`: the offset and the end of the packet. The loop
-- makes a round for each place where seven bytes fit.
unfoldable pub find_packet_header : List ℕ → ℕ → ℕ → ℕ → Option (ℕ × ℕ)
find_packet_header buf buf_len start_pos max_end =
    scan_from buf max_end (buf_len + 1 - (start_pos + 7)) start_pos

-- What the loop finds: the first place that is accepted.
IsFirst : List ℕ → ℕ → ℕ → ℕ → Option (ℕ × ℕ) → Type 0
IsFirst buf max_end pos bound none = (i : ℕ) → pos ≤ i → i < bound → accepts buf max_end i ≡ false
IsFirst buf max_end pos bound (some (at, end)) =
    (pos ≤ at)
    × (at < bound)
    × (end ≡ end_at buf at)
    × (accepts buf max_end at ≡ true)
    × ((i : ℕ) → pos ≤ i → i < at → accepts buf max_end i ≡ false)

at_or_after :
    (P : ℕ → Bool) (pos i : ℕ) → pos ≤ i → P pos ≡ false → (pos + 1 ≤ i → P i ≡ false) → P i ≡ false
at_or_after P pos i l e later = ground arith

scan_from-IsFirst :
    (buf : List ℕ) (max_end left pos : ℕ)
    → IsFirst buf max_end pos (pos + left) (scan_from buf max_end left pos)
unfolding scan_from IsFirst
scan_from-IsFirst buf max_end zero pos = λ i h k. absurd (omega arith)
scan_from-IsFirst buf max_end (suc left) pos =
    step (accepts buf max_end pos) refl (scan_from buf max_end left (pos + 1))
      (scan_from-IsFirst buf max_end left (pos + 1))
  where
    step :
        (b : Bool)
        → accepts buf max_end pos ≡ b
        → (found : Option (ℕ × ℕ)) → IsFirst buf max_end (pos + 1) (pos + 1 + left) found
        → IsFirst buf max_end pos (pos + suc left) (if b then some (pos, end_at buf pos) else found)
    step true e found h = (omega arith, omega arith, refl, e, λ i l k. absurd (omega arith))
    step false e none h =
        λ i l k. at_or_after (accepts buf max_end) pos i l e (λ n. h i n (omega arith))
    step false e (some (at, end)) h = (
      omega arith,
      omega arith,
      h.2,
      h.3,
      λ i l k. at_or_after (accepts buf max_end) pos i l e (λ n. h.4 i n k),
    )

-- What the code looks for in the `buf_len` bytes.
abbrev pub FirstHeader : List ℕ → ℕ → ℕ → ℕ → Option (ℕ × ℕ) → Type 0
FirstHeader buf buf_len start_pos max_end none =
    (i : ℕ) → start_pos ≤ i → i + 7 ≤ buf_len → accepts buf max_end i ≡ false
FirstHeader buf buf_len start_pos max_end (some (at, end)) =
    (start_pos ≤ at)
    × (at + 7 ≤ buf_len)
    × (end ≡ end_at buf at)
    × (end ≤ max_end)
    × (has_header buf at ≡ true)
    × ((i : ℕ) → start_pos ≤ i → i < at → accepts buf max_end i ≡ false)

-- The scan gives the first place from `start_pos` on where a header stands, with seven bytes inside the
-- buffer and a packet that ends by `max_end`, and that end; and nothing if there is no such place.
pub find_packet_header_lem :
    (buf : List ℕ) (buf_len start_pos max_end : ℕ)
    → FirstHeader buf buf_len start_pos max_end (find_packet_header buf buf_len start_pos max_end)
unfolding find_packet_header
find_packet_header_lem buf buf_len start_pos max_end =
    of_first (scan_from buf max_end (buf_len + 1 - (start_pos + 7)) start_pos)
      (scan_from-IsFirst buf max_end (buf_len + 1 - (start_pos + 7)) start_pos)
  where
    of_first :
        (found : Option (ℕ × ℕ))
        → IsFirst buf max_end start_pos (start_pos + (buf_len + 1 - (start_pos + 7))) found
        → FirstHeader buf buf_len start_pos max_end found
    of_first none h = λ i l k. unfold IsFirst in h i l (omega arith)
    of_first (some (at, end)) h =
        unfold IsFirst accepts in
        (h.0, omega (arith, h.0, h.1), h.2, rw h.2 (ground (arith, h.3)), ground (arith, h.3), h.4)

pub found_header :
    (buf : List ℕ) (buf_len start_pos max_end at end : ℕ)
    → find_packet_header buf buf_len start_pos max_end ≡ some (at, end)
    → FirstHeader buf buf_len start_pos max_end (some (at, end))
found_header buf buf_len start_pos max_end at end e =
    subst (FirstHeader buf buf_len start_pos max_end) e
      (find_packet_header_lem buf buf_len start_pos max_end)

-- No header begins with a byte other than 0xff.
not_at :
    (pre more : List ℕ) (b max_end pos : ℕ)
    → pos ≡ length pre
    → b ≢ 0xff
    → accepts (pre ++ (b ∷ more)) max_end pos ≡ false
unfolding accepts has_header
not_at pre more b max_end pos e h =
    ground (arith, get_or-append_right pos 0 pre (b ∷ more) 0 (omega arith))

-- The bytes that no header begins with are passed over.
noise-skip :
    (noise pre more : List ℕ) (buf : List ℕ) (max_end left n pos : ℕ)
    → buf ≡ pre ++ (noise ++ more)
    → pos ≡ length pre
    → n ≡ length noise + left
    → All (λ b. b ≢ 0xff) noise
    → scan_from buf max_end n pos ≡ scan_from buf max_end left (pos + length noise)
unfolding scan_from
noise-skip [] pre more buf max_end left n pos e p q h =
    ap₂ (λ k j. scan_from buf max_end k j) (omega arith) (omega arith)
noise-skip (b ∷ noise) pre more buf max_end left zero pos e p q h = absurd (omega arith)
noise-skip (b ∷ noise) pre more buf max_end left (suc n) pos e p q h = rw missed (
    noise-skip noise (pre ++ (b ∷ [])) more buf max_end left n (pos + 1)
      (e ∙ sym (append_assoc pre (b ∷ []) (noise ++ more)))
      (omega (arith, length-append pre (b ∷ []))) (omega arith) h.1
    ∙ ap (λ j. scan_from buf max_end left j) (omega arith))
  where
    missed : accepts buf max_end pos ≡ false
    missed = rw e (not_at pre (noise ++ more) b max_end pos p h.0)

-- A packet as it stands on the line, with its length in two bytes.
abbrev pub on_wire : ℕ → ℕ → ℕ → List ℕ → List ℕ
on_wire id lo hi tail = 0xff ∷ 0xff ∷ 0xfd ∷ 0x00 ∷ id ∷ lo ∷ hi ∷ tail

found_at :
    (pre tail : List ℕ) (buf : List ℕ) (id lo hi max_end pos : ℕ)
    → buf ≡ pre ++ on_wire id lo hi tail
    → pos ≡ length pre
    → pos + 7 + (lo + hi * 256) ≤ max_end
    → (accepts buf max_end pos ≡ true) × (end_at buf pos ≡ pos + 7 + (lo + hi * 256))
unfolding accepts has_header end_at le_at
found_at pre tail buf id lo hi max_end pos e p h =
    rw
      (
        e,
        byte 0 pos (omega arith),
        byte 1 (pos + 1) (omega arith),
        byte 2 (pos + 2) (omega arith),
        byte 3 (pos + 3) (omega arith),
        byte 5 (pos + 5) (omega arith),
        byte 6 (pos + 5 + 1) (omega arith),
      )
      (ground arith, refl)
  where
    packet : List ℕ
    packet = on_wire id lo hi tail

    byte : (i n : ℕ) → n ≡ pos + i → get_or (pre ++ packet) n 0 ≡ get_or packet i 0
    byte i n k = get_or-append_right n i pre packet 0 (omega arith)

-- Behind bytes that are used up, and noise without 0xff, the scan finds a packet that ends in time.
pub find-noise :
    (pre noise tail : List ℕ) (id lo hi buf_len max_end : ℕ)
    → All (λ b. b ≢ 0xff) noise
    → length pre + length noise + 7 ≤ buf_len
    → length pre + length noise + 7 + (lo + hi * 256) ≤ max_end
    → find_packet_header (pre ++ (noise ++ on_wire id lo hi tail)) buf_len (length pre) max_end
      ≡ some (length pre + length noise, length pre + length noise + 7 + (lo + hi * 256))
unfolding find_packet_header scan_from
find-noise pre noise tail id lo hi buf_len max_end h inside fits =
    noise-skip noise pre (on_wire id lo hi tail) buf max_end (suc rounds)
      (buf_len + 1 - (length pre + 7)) (length pre) refl refl (omega arith) h
    ∙ rw found.0 (ap (λ k. some (length pre + length noise, k)) found.1)
  where
    buf : List ℕ
    buf = pre ++ (noise ++ on_wire id lo hi tail)

    rounds : ℕ
    rounds = buf_len - (length pre + length noise + 7)

    found :
        (accepts buf max_end (length pre + length noise) ≡ true)
        × (end_at buf (length pre + length noise) ≡ length pre + length noise + 7 + (lo + hi * 256))
    found =
        found_at (pre ++ noise) tail buf id lo hi max_end (length pre + length noise)
          (sym (append_assoc pre noise (on_wire id lo hi tail)))
          (omega (arith, length-append pre noise)) fits
