-- ===== src/Dynamixel/Stuffing/Inverse.antt =====
-- Unstuffing undoes stuffing, and the first pass counts what the second one writes.
use creature_controller.Common.{
  ℕ, suc, ◌+◌, ◌*◌, ◌≤◌, ◌≢◌, ◌≡◌, refl, ap, sym, Bool, false, List, [], ◌∷◌, ◌++◌, reverse, arith,
  length, length-reverse, append-nil, append_assoc, reverse-append, Bool-cases, inl, inr, AllBytes,
  ne→==,
}
use creature_controller.Dynamixel.Stuffing.{
  dxl_max_params, completes_header, stuffed_size, stuff, all, overflow, unstuff,
}

pub length-stuff : (ps rev : List ℕ) → length (stuff rev ps) ≡ stuffed_size rev ps
unfolding stuff stuffed_size
length-stuff [] rev = refl
length-stuff (b ∷ ps) rev = ground (arith, length-stuff ps (b ∷ rev))

pub stuffed_size-le : (ps rev : List ℕ) → stuffed_size rev ps ≤ 2 * length ps
unfolding stuffed_size
stuffed_size-le [] rev = omega arith
stuffed_size-le (b ∷ ps) rev = ground (arith, stuffed_size-le ps (b ∷ rev))

pub stuff-AllBytes : (ps rev : List ℕ) → AllBytes ps → AllBytes (stuff rev ps)
unfolding stuff
stuff-AllBytes [] rev h = tt
stuff-AllBytes (b ∷ ps) rev h = ground (arith, stuff-AllBytes ps (b ∷ rev) h.1)

-- Stuffed parameters that fit come back as they were, behind those already written.
pub unstuff-stuff :
    (ps rev : List ℕ)
    → length rev + length ps ≤ dxl_max_params
    → unstuff rev false (stuff rev ps) ≡ all (reverse rev ++ ps)
unfolding stuff unstuff
unstuff-stuff [] rev h = ap all (sym (append-nil (reverse rev)))
unstuff-stuff (b ∷ ps) rev h = elim (Bool-cases (completes_header (b ∷ rev))) [
  | inl e ↦ ground (
    arith,
    unstuff-stuff ps (b ∷ rev),
    reverse-append (b ∷ []) rev,
    append_assoc (reverse rev) (b ∷ []) ps,
  )
  | inr e ↦ ground (
    arith,
    unstuff-stuff ps (b ∷ rev),
    reverse-append (b ∷ []) rev,
    append_assoc (reverse rev) (b ∷ []) ps,
  )
]

-- A first byte other than FF completes no header, so it does not change the stuffing behind it.
completes_header-append :
    (e : ℕ) (rev : List ℕ) → e ≢ 0xff → completes_header (rev ++ (e ∷ [])) ≡ completes_header rev
unfolding completes_header
completes_header-append e [] h = refl
completes_header-append e (a ∷ []) h = refl
completes_header-append e (a ∷ b ∷ []) h = ground (arith, ne→== e 0xff h)
completes_header-append e (a ∷ b ∷ c ∷ rev) h = ground arith

pub stuff-append : (e : ℕ) (ps rev : List ℕ) → e ≢ 0xff → stuff (rev ++ (e ∷ [])) ps ≡ stuff rev ps
unfolding stuff
stuff-append e [] rev h = refl
stuff-append e (b ∷ ps) rev h =
    ground (arith, completes_header-append e (b ∷ rev) h, stuff-append e ps (b ∷ rev) h)

pub stuff_first : (e : ℕ) (ps : List ℕ) → e ≢ 0xff → stuff [] (e ∷ ps) ≡ e ∷ stuff [] ps
unfolding stuff completes_header
stuff_first e ps h = ap (λ l. e ∷ l) (stuff-append e ps [] h)

-- Never are more than `dxl_max_params` parameters written.
pub unstuff-length :
    (raw rev : List ℕ) (skip : Bool)
    → length rev ≤ dxl_max_params
    → ((ps : List ℕ) → unstuff rev skip raw ≡ all ps → length ps ≤ dxl_max_params)
      × ((ps : List ℕ) → unstuff rev skip raw ≡ overflow ps → length ps ≡ dxl_max_params)
unfolding unstuff
unstuff-length [] rev skip h = (λ ps e. ground (arith, length-reverse rev), λ ps e. ground arith)
unstuff-length (b ∷ raw) rev skip h = (
  λ ps e. ground (
    arith,
    (unstuff-length raw rev false h).0 ps,
    λ (k : suc (length rev) ≤ dxl_max_params).
        (unstuff-length raw (b ∷ rev) (completes_header (b ∷ rev)) k).0 ps,
  ),
  λ ps e. ground (
    arith,
    length-reverse rev,
    (unstuff-length raw rev false h).1 ps,
    λ (k : suc (length rev) ≤ dxl_max_params).
        (unstuff-length raw (b ∷ rev) (completes_header (b ∷ rev)) k).1 ps,
  ),
)
