-- ===== src/Dynamixel/Driver/Idle.antt =====
-- The alarm that notices the end of the answers, `dxl_rxmulti_alarm_callback` of
-- firmware/src/dynamixel/dynamixel_hal.c, with its timing in `dxl_hal_txrx_multi_locked`.
use native.Mathlib.Nat.{lt-div-mul-add, div-mul-le_self}
use creature_controller.Common.{
  ℕ, zero, suc, ◌+◌, ◌-◌, ◌*◌, ◌/◌, ◌≤◌, ◌<◌, ◌≡◌, ◌≢◌, ◌++◌, refl, sym, ap, ◌∙◌, length-replicate,
  Bool, true, false, not, List, [], ◌∷◌, arith, ltb, leb, ◌==◌, if◌then◌else◌, length, replicate,
  All, Bool-cases, inl, inr,
}

-- `struct dxl_alarm_state`, less the semaphore and the channel.
pub record Alarm : Type 0 where
  pub last_seen_bytes : ℕ
  pub idle_count : ℕ
  pub idle_limit : ℕ
  pub rx_buf_size : ℕ
  pub alarm_period_us : ℕ

-- The timing for a baud rate, at the start of the reception.
unfoldable pub byte_time_us : ℕ → ℕ
byte_time_us baud_rate = 10000000 / baud_rate

unfoldable pub alarm_period : ℕ → ℕ
alarm_period baud_rate =
    let period = 3 * byte_time_us baud_rate in
    if ltb period 100 then 100 else if ltb 500 period then 500 else period

unfoldable pub idle_timeout_us : ℕ → ℕ
idle_timeout_us baud_rate = 15 * byte_time_us baud_rate + 1000

unfoldable pub start_alarm : ℕ → ℕ → Alarm
start_alarm baud_rate rx_buf_size = record {
  last_seen_bytes = 0;
  idle_count = 0;
  idle_limit = idle_timeout_us baud_rate / alarm_period baud_rate + 1;
  rx_buf_size = rx_buf_size;
  alarm_period_us = alarm_period baud_rate;
}

-- The count of the callback, for a number of bytes received.
unfoldable pub count_idle : ℕ → Alarm → Alarm
count_idle bytes_received a =
    if not (bytes_received == a.last_seen_bytes)
    then record a { last_seen_bytes = bytes_received; idle_count = 0 }
    else if ltb 0 a.last_seen_bytes
    then record a { idle_count = a.idle_count + 1 }
    else a

-- `dxl_rxmulti_alarm_callback`, for a transfer count: whether it signals and stops.
unfoldable pub alarm_callback : ℕ → Alarm → Alarm × Bool
alarm_callback remaining a =
    let a' = count_idle (a.rx_buf_size - remaining) a in (a', leb a'.idle_limit a'.idle_count)

-- The alarm over the transfer counts that it finds, until it signals.
unfoldable pub run_alarm : List ℕ → Alarm → Alarm × Bool
run_alarm [] a = (a, false)
run_alarm (remaining ∷ more) a =
    let (a', signals) = alarm_callback remaining a in
    let later = run_alarm more a' in if signals then (a', true) else later

alarm_period_lem : (baud_rate : ℕ) → (100 ≤ alarm_period baud_rate) × (alarm_period baud_rate ≤ 500)
unfolding alarm_period
alarm_period_lem baud_rate = (ground arith, ground arith)

-- For any baud rate, the alarm comes every 100 to 500 microseconds, and the silence after which it
-- signals is longer than fifteen bytes and a millisecond, by at most one period.
pub start_alarm_lem :
    (baud_rate size : ℕ)
    → let a = start_alarm baud_rate size in
      (100 ≤ a.alarm_period_us)
      × (a.alarm_period_us ≤ 500)
      × (15 * byte_time_us baud_rate + 1000 < a.idle_limit * a.alarm_period_us)
      × (a.idle_limit * a.alarm_period_us ≤ 15 * byte_time_us baud_rate + 1000 + a.alarm_period_us)
unfolding start_alarm idle_timeout_us
start_alarm_lem baud_rate size =
    let p = alarm_period_lem baud_rate in
    let t : ℕ = 15 * byte_time_us baud_rate + 1000 in
    let above = lt-div-mul-add {a = t} {b = alarm_period baud_rate} (omega (arith, p.0)) in
    let below = div-mul-le_self t (alarm_period baud_rate) in
    (p.0, p.1, omega (arith, above), omega (arith, below))

-- A look raises the count by at most one, and changes nothing else but the bytes seen.
count_idle_lem :
    (n : ℕ) (a : Alarm)
    → let a' = count_idle n a in
      (a'.idle_count ≤ a.idle_count + 1)
      × (a'.idle_limit ≡ a.idle_limit)
      × (a'.rx_buf_size ≡ a.rx_buf_size)
unfolding count_idle
count_idle_lem n a = (ground arith, ground arith, ground arith)

early-silent :
    (looks : List ℕ) (a : Alarm)
    → a.idle_count + length looks < a.idle_limit
    → (run_alarm looks a).1 ≡ false
unfolding run_alarm alarm_callback
early-silent [] a h = refl
early-silent (remaining ∷ more) a h =
    let a' = count_idle (a.rx_buf_size - remaining) a in
    let c = count_idle_lem (a.rx_buf_size - remaining) a in
    ground (arith, c, early-silent more a' (omega (arith, c.0, c.1)))

-- While no byte has come, nothing is counted.
empty-silent :
    (looks : List ℕ) (a : Alarm)
    → a.last_seen_bytes ≡ 0
    → a.idle_count < a.idle_limit
    → All (λ remaining. a.rx_buf_size ≤ remaining) looks
    → (run_alarm looks a).1 ≡ false
unfolding run_alarm alarm_callback count_idle
empty-silent [] a s h k = refl
empty-silent (remaining ∷ more) a s h k = ground (arith, empty-silent more a s h k.1)

-- While the count of bytes stands still, each look counts.
still-signals :
    (n remaining : ℕ) (a : Alarm)
    → a.last_seen_bytes ≡ a.rx_buf_size - remaining
    → 0 < a.last_seen_bytes
    → a.idle_limit ≤ a.idle_count + n
    → 0 < n
    → (run_alarm (replicate n remaining) a).1 ≡ true
unfolding run_alarm alarm_callback count_idle
still-signals zero remaining a s p h k = absurd (omega arith)
still-signals (suc zero) remaining a s p h k = ground arith
still-signals (suc (suc n)) remaining a s p h k = ground (
  arith,
  still-signals (suc n) remaining (record a { idle_count = a.idle_count + 1 }) s p (omega arith)
      (omega arith),
)

-- A look with other bytes starts the count anew.
seen :
    (n remaining : ℕ) (a : Alarm)
    → a.last_seen_bytes ≢ a.rx_buf_size - remaining
    → 0 < a.idle_limit
    → (run_alarm (replicate (suc n) remaining) a).1
      ≡ (run_alarm
          (replicate n remaining)
          (record a { last_seen_bytes = a.rx_buf_size - remaining; idle_count = 0 })).1
unfolding run_alarm alarm_callback count_idle
seen n remaining a other l = ground (arith, other)

run_alarm-append :
    (s t : List ℕ) (a : Alarm)
    → (run_alarm s a).1 ≡ false
    → run_alarm (s ++ t) a ≡ run_alarm t (run_alarm s a).0
unfolding run_alarm
run_alarm-append [] t a quiet = refl
run_alarm-append (r ∷ s) t a quiet = elim (Bool-cases (alarm_callback r a).1) [
  | inl signals ↦ absurd (let no = rw signals at quiet in cc)
  | inr not_yet ↦ rw not_yet (run_alarm-append s t (alarm_callback r a).0 (rw not_yet at quiet))
]

-- What a run leaves alone, and what it has seen last.
run_alarm_keeps :
    (s : List ℕ) (a : Alarm)
    → (run_alarm s a).1 ≡ false
    → ((run_alarm s a).0.idle_limit ≡ a.idle_limit)
      × ((run_alarm s a).0.rx_buf_size ≡ a.rx_buf_size)
unfolding run_alarm alarm_callback
run_alarm_keeps [] a quiet = (refl, refl)
run_alarm_keeps (r ∷ s) a quiet =
    let next = count_idle (a.rx_buf_size - r) a in
    let c = count_idle_lem (a.rx_buf_size - r) a in
    elim (Bool-cases (leb next.idle_limit next.idle_count)) [
      | inl signals ↦ absurd (let no = rw signals at quiet in cc)
      | inr not_yet ↦
          let k = run_alarm_keeps s next (rw not_yet at quiet) in rw not_yet (k.0 ∙ c.1, k.1 ∙ c.2)
    ]

quiet_before :
    (s t : List ℕ) (a : Alarm) → (run_alarm (s ++ t) a).1 ≡ false → (run_alarm s a).1 ≡ false
unfolding run_alarm
quiet_before [] t a quiet = refl
quiet_before (r ∷ s) t a quiet = elim (Bool-cases (alarm_callback r a).1) [
  | inl signals ↦ absurd (let no = rw signals at quiet in cc)
  | inr not_yet ↦ rw not_yet (quiet_before s t (alarm_callback r a).0 (rw not_yet at quiet))
]

last_look :
    (last : ℕ) (a : Alarm) → (run_alarm (last ∷ []) a).0.last_seen_bytes ≡ a.rx_buf_size - last
unfolding run_alarm alarm_callback count_idle
last_look last a = ground arith

-- Wherever the run stands, and whatever it has counted: bytes that have just come, and then no more.
still_lem :
    (a : Alarm) (remaining looks : ℕ)
    → 0 < a.idle_limit
    → remaining < a.rx_buf_size
    → a.last_seen_bytes ≢ a.rx_buf_size - remaining
    → (run_alarm (replicate looks remaining) a).1 ≡ leb (a.idle_limit + 1) looks
still_lem a remaining zero positive h other = unfold run_alarm in ground arith
still_lem a remaining (suc n) positive h other =
    seen n remaining a other positive ∙ rest ∙ ground arith
  where
    still : Alarm
    still = record a { last_seen_bytes = a.rx_buf_size - remaining; idle_count = 0 }

    rest : (run_alarm (replicate n remaining) still).1 ≡ leb a.idle_limit n
    rest = elim (Bool-cases (leb a.idle_limit n)) [
      | inl enough ↦
          let signals : (run_alarm (replicate n remaining) still).1 ≡ true =
            still-signals n remaining still refl (omega arith) (ground arith)
              (ground (arith, positive)) in
          signals ∙ sym enough
      | inr early ↦ ground (
        arith,
        early-silent (replicate n remaining) still (ground (arith, length-replicate n remaining)),
      )
    ]

-- Bytes come over any number of looks at which the alarm does not signal, the last of which finds `last`
-- bytes missing; then more bytes come, and then no more, so that each of the next looks finds `remaining`
-- bytes missing. The alarm signals at look number `idle_limit + 1` of these, and not before, however many
-- idle looks it has counted between the earlier bytes.
pub run_alarm_lem :
    (baud_rate size last remaining looks : ℕ) (earlier : List ℕ)
    → let start = start_alarm baud_rate size in
      (run_alarm (earlier ++ (last ∷ [])) start).1 ≡ false
      → last ≤ size
      → remaining < last
      → (run_alarm ((earlier ++ (last ∷ [])) ++ replicate looks remaining) start).1
        ≡ leb (start.idle_limit + 1) looks
run_alarm_lem baud_rate size last remaining looks earlier quiet l h =
    ap (λ (r : Alarm × Bool). r.1)
      (run_alarm-append (earlier ++ (last ∷ [])) (replicate looks remaining) start quiet)
    ∙ still_lem a1 remaining looks (omega (arith, positive, kept.0))
        (omega (arith, kept.1, whole, l, h)) (λ e. omega (arith, e, kept.1, whole, seen_last, l, h))
    ∙ ap (λ n. leb (n + 1) looks) kept.0
  where
    start : Alarm
    start = start_alarm baud_rate size

    whole : start.rx_buf_size ≡ size
    whole = unfold start_alarm in refl

    positive : 0 < start.idle_limit
    positive = unfold start_alarm in omega arith

    a0 : Alarm
    a0 = (run_alarm earlier start).0

    a1 : Alarm
    a1 = (run_alarm (earlier ++ (last ∷ [])) start).0

    kept : (a1.idle_limit ≡ start.idle_limit) × (a1.rx_buf_size ≡ start.rx_buf_size)
    kept = run_alarm_keeps (earlier ++ (last ∷ [])) start quiet

    quiet_earlier : (run_alarm earlier start).1 ≡ false
    quiet_earlier = quiet_before earlier (last ∷ []) start quiet

    seen_last : a1.last_seen_bytes ≡ size - last
    seen_last =
        ap (λ (r : Alarm × Bool). r.0.last_seen_bytes)
          (run_alarm-append earlier (last ∷ []) start quiet_earlier)
        ∙ last_look last a0
        ∙ ap (λ n. n - last) ((run_alarm_keeps earlier start quiet_earlier).1 ∙ whole)
