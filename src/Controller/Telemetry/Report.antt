-- ===== src/Controller/Telemetry/Report.antt =====
-- What the sensor report says, and how long it is.
use creature_controller.Common.{
  ℕ, zero, suc, ◌+◌, ◌-◌, ◌≤◌, ◌<◌, ◌≡◌, refl, ap, inl, inr, ◌∙◌, true, false, List, [], ◌∷◌, ◌++◌,
  Option, none, arith, ltb, ◌==◌, length, take, length-take, length-append, Bool-cases, All,
}
use creature_controller.Dynamixel.Sync.{SyncResult, count_valid}
use creature_controller.Controller.Telemetry.{find_reading, dsense, report_loop, sensor_report}

-- No result has this id.
abbrev pub Lacks : ℕ → List SyncResult → Type 0
Lacks id [] = Unit
Lacks id (r ∷ rs) = ((r.id == id) ≡ false) × Lacks id rs

count_valid-le : (rs : List SyncResult) → count_valid rs ≤ length rs
unfolding count_valid
count_valid-le [] = ground arith
count_valid-le (r ∷ rs) = ground (arith, count_valid-le rs)

count_valid-append :
    (rs ss : List SyncResult) → count_valid (rs ++ ss) ≡ count_valid rs + count_valid ss
unfolding count_valid
count_valid-append [] ss = ground arith
count_valid-append (r ∷ rs) ss = ground (arith, count_valid-append rs ss)

find_reading-Lacks :
    (n id : ℕ) (rs : List SyncResult) → Lacks id rs → find_reading id (take n rs) ≡ none
unfolding find_reading
find_reading-Lacks zero id rs h = refl
find_reading-Lacks (suc n) id [] h = refl
find_reading-Lacks (suc n) id (r ∷ rs) h = rw h.0 (find_reading-Lacks n id rs h.1)

take-short :
    (n : ℕ) (rs : List SyncResult) (x : SyncResult)
    → n ≤ length rs
    → take n (rs ++ (x ∷ [])) ≡ take n rs
take-short zero rs x h = refl
take-short (suc n) [] x h = absurd (ground arith)
take-short (suc n) (r ∷ rs) x h = ap (λ l. r ∷ l) (take-short n rs x (ground arith))

-- The report reads only as many results as are valid, but a servo that did not answer keeps its
-- place among them. So if any servo before the last one did not answer, and none of them has the
-- last one's id, the last one is reported without a reading, whether it answered or not.
pub find_reading_last :
    (rs : List SyncResult) (last : SyncResult)
    → count_valid rs < length rs
    → Lacks last.id rs
    → find_reading last.id (take (count_valid (rs ++ (last ∷ []))) (rs ++ (last ∷ []))) ≡ none
find_reading_last rs last silent h =
    ap (find_reading last.id) (take-short (count_valid (rs ++ (last ∷ []))) rs last short)
    ∙ find_reading-Lacks (count_valid (rs ++ (last ∷ []))) last.id rs h
  where
    one : count_valid (last ∷ []) ≤ 1
    one = count_valid-le (last ∷ [])

    short : count_valid (rs ++ (last ∷ [])) ≤ length rs
    short = ground (arith, count_valid-append rs (last ∷ []), one, silent)

take-all : (rs : List SyncResult) → take (length rs) rs ≡ rs
take-all [] = refl
take-all (r ∷ rs) = ap (λ l. r ∷ l) (take-all rs)

count_valid-full :
    (rs : List SyncResult) → All (λ r. r.valid ≡ true) rs → count_valid rs ≡ length rs
unfolding count_valid
count_valid-full [] h = refl
count_valid-full (r ∷ rs) h = ground (arith, count_valid-full rs h.1)

-- If every servo answered, the report reads all of the results.
pub report_complete :
    (id : ℕ) (rs : List SyncResult)
    → All (λ r. r.valid ≡ true) rs
    → find_reading id (take (count_valid rs) rs) ≡ find_reading id rs
report_complete id rs h = rw (count_valid-full rs h) (ap (find_reading id) (take-all rs))

module _ (token : ℕ → Option SyncResult → List ℕ) where
  report_loop-length :
      (ids : List ℕ) (rs : List SyncResult) (offset : ℕ) (text : List ℕ)
      → ((id : ℕ) (r : Option SyncResult) → length (token id r) ≤ 44)
      → length text ≡ offset
      → offset ≤ 382
      → length (report_loop token ids rs offset text) ≤ 382
  unfolding report_loop
  report_loop-length [] rs offset text h e le = ground arith
  report_loop-length (id ∷ ids) rs offset text h e le = elim (Bool-cases (ltb offset 339)) [
    | inr full ↦ rw full (ground arith)
    | inl room ↦ rw room (
        report_loop-length ids rs (offset + length t) (text ++ take (384 - offset - 1) t) h
          (length-append text (take (384 - offset - 1) t)
            ∙ ground (arith, length-take (384 - offset - 1) t, h id (find_reading id rs)))
          (ground (arith, h id (find_reading id rs))))
  ]
    where
      t : List ℕ
      t = token id (find_reading id rs)

  -- If the text of an entry has at most 44 characters, a sensor report, of however many servos, has at
  -- most the 382 characters that `send_to_controller` takes.
  pub sensor_report_fits :
      (ids : List ℕ) (rs : List SyncResult) (count : ℕ)
      → ((id : ℕ) (r : Option SyncResult) → length (token id r) ≤ 44)
      → length (sensor_report token ids rs count) ≤ 382
  unfolding sensor_report
  sensor_report_fits ids rs count h =
      report_loop-length ids (take count rs) 6 dsense h refl (ground arith)
