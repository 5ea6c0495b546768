-- ===== src/Dynamixel/Sync/Matching.antt =====
-- The answers of a Sync Read end up with the servos that sent them.
use creature_controller.Common.{
  ℕ, ◌≤◌, ◌≡◌, refl, ap, ◌∙◌, sym, ◌⊎◌, inl, inr, true, false, not, ◌&&◌, List, [], ◌∷◌, map, arith,
  leb, ◌==◌, if◌then◌else◌, length, Bool-cases, All,
}
use creature_controller.Dynamixel.Packet.{Packet}
use creature_controller.Dynamixel.Sync.{
  SyncResult, no_answer, block_status, sync_read_data_length, store_answer, store_answers,
}

-- A full answer among those received is where the result comes from.
pub data Answered (r : SyncResult) : List Packet → Type 0 where
  here :
      {rx : Packet} {rxs : List Packet}
      → rx.id ≡ r.id
      → sync_read_data_length ≤ length rx.params
      → r.status ≡ block_status rx.params
      → r.servo_error ≡ rx.error
      → Answered r (rx ∷ rxs)
  there : {rx : Packet} {rxs : List Packet} → Answered r rxs → Answered r (rx ∷ rxs)

-- A valid result satisfies `Q`, or has been answered by one of the packets.
abbrev Backed : (SyncResult → Type 0) → List Packet → SyncResult → Type 0
Backed Q rxs r = r.valid ≡ true → Q r ⊎ Answered r rxs

-- Results that stand for the servos, in order.
abbrev pub ids_of : List SyncResult → List ℕ
ids_of [] = []
ids_of (r ∷ rs) = r.id ∷ ids_of rs

weaken :
    (Q : SyncResult → Type 0) (rxs : List Packet) (rs : List SyncResult)
    → All (λ r. r.valid ≡ true → Q r) rs
    → All (Backed Q rxs) rs
weaken Q rxs [] h = tt
weaken Q rxs (r ∷ rs) h = (λ v. inl (h.0 v), weaken Q rxs rs h.1)

-- The result that an answer goes to.
answered_first :
    (Q : SyncResult → Type 0) (rx : Packet) (r : SyncResult)
    → r.id ≡ rx.id
    → r.valid ≡ false
    → Backed Q (rx ∷ []) (
        if leb sync_read_data_length (length rx.params)
        then record r { servo_error = rx.error; status = block_status rx.params; valid = true }
        else record r { servo_error = rx.error })
answered_first Q rx r e new = elim (Bool-cases (leb sync_read_data_length (length rx.params))) [
  | inl full ↦ rw full (λ _. inr (here (sym e) (ground arith) refl refl))
  | inr short ↦ rw short (λ v. absurd (cc))
]

store_answer_lem :
    (Q : SyncResult → Type 0) (rx : Packet) (rs : List SyncResult)
    → All (λ r. r.valid ≡ true → Q r) rs
    → All (Backed Q (rx ∷ [])) (store_answer rx rs)
unfolding store_answer
store_answer_lem Q rx [] h = tt
store_answer_lem Q rx (r ∷ rs) h = elim (Bool-cases ((r.id == rx.id) && not r.valid)) [
  | inl hit ↦
      rw hit (answered_first Q rx r (ground arith) (ground arith), weaken Q (rx ∷ []) rs h.1)
  | inr miss ↦ rw miss (λ v. inl (h.0 v), store_answer_lem Q rx rs h.1)
]

store_answer-ids : (rx : Packet) (rs : List SyncResult) → ids_of (store_answer rx rs) ≡ ids_of rs
unfolding store_answer
store_answer-ids rx [] = refl
store_answer-ids rx (r ∷ rs) = ground (arith, store_answer-ids rx rs)

collect :
    (Q : SyncResult → Type 0) (rx : Packet) (rxs : List Packet) (rs : List SyncResult)
    → All (Backed (λ r. Q r ⊎ Answered r (rx ∷ [])) rxs) rs
    → All (Backed Q (rx ∷ rxs)) rs
collect Q rx rxs [] h = tt
collect Q rx rxs (r ∷ rs) h = (λ v. sort (h.0 v), collect Q rx rxs rs h.1)
  where
    alone : Answered r (rx ∷ []) → Answered r (rx ∷ rxs)
    alone (here a b c d) = here a b c d
    alone (there t) = there (none_left t)
      where
        none_left : Answered r [] → Answered r rxs
        none_left t = elim t [ ]

    sort : (Q r ⊎ Answered r (rx ∷ [])) ⊎ Answered r rxs → Q r ⊎ Answered r (rx ∷ rxs)
    sort (inl (inl q)) = inl q
    sort (inl (inr a)) = inr (alone a)
    sort (inr a) = inr (there a)

store_answers_lem :
    (Q : SyncResult → Type 0) (rxs : List Packet) (rs : List SyncResult)
    → All (λ r. r.valid ≡ true → Q r) rs
    → All (Backed Q rxs) (store_answers rxs rs)
unfolding store_answers
store_answers_lem Q [] rs h = weaken Q [] rs h
store_answers_lem Q (rx ∷ rxs) rs h = collect Q rx rxs (store_answers rxs (store_answer rx rs)) (
    store_answers_lem (λ r. Q r ⊎ Answered r (rx ∷ [])) rxs (store_answer rx rs)
      (store_answer_lem Q rx rs h))

store_answers-ids :
    (rxs : List Packet) (rs : List SyncResult) → ids_of (store_answers rxs rs) ≡ ids_of rs
unfolding store_answers
store_answers-ids [] rs = refl
store_answers-ids (rx ∷ rxs) rs =
    store_answers-ids rxs (store_answer rx rs) ∙ store_answer-ids rx rs

no_answers : (ids : List ℕ) → All (λ r. r.valid ≡ true → ⊥) (map no_answer ids)
no_answers [] = tt
no_answers (id ∷ ids) = (λ v. absurd (cc), no_answers ids)

no_answers-ids : (ids : List ℕ) → ids_of (map no_answer ids) ≡ ids
no_answers-ids [] = refl
no_answers-ids (id ∷ ids) = ap (λ l. id ∷ l) (no_answers-ids ids)

drop_⊥ :
    (rxs : List Packet) (rs : List SyncResult)
    → All (Backed (λ _. ⊥) rxs) rs
    → All (λ r. r.valid ≡ true → Answered r rxs) rs
drop_⊥ rxs [] h = tt
drop_⊥ rxs (r ∷ rs) h = (λ v. side (h.0 v), drop_⊥ rxs rs h.1)
  where
    side : ⊥ ⊎ Answered r rxs → Answered r rxs
    side (inl e) = absurd e
    side (inr a) = a

-- However many answers come, in whatever order, from whatever servos and however often: the results
-- stay one for each id asked, in the order asked, and each result marked valid has the status and the
-- error of an answer received that has its id and at least the 21 bytes read.
pub sync_read_matching :
    (rxs : List Packet) (ids : List ℕ)
    → let rs = store_answers rxs (map no_answer ids) in
      (ids_of rs ≡ ids) × All (λ r. r.valid ≡ true → Answered r rxs) rs
sync_read_matching rxs ids = (
  store_answers-ids rxs (map no_answer ids) ∙ no_answers-ids ids,
  drop_⊥ rxs (store_answers rxs (map no_answer ids))
      (store_answers_lem (λ _. ⊥) rxs (map no_answer ids) (no_answers ids)),
)
