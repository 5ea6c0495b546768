-- ===== src/Controller/Motors/Limits.antt =====
-- A motor is only ever asked for a position within its limits.
use creature_controller.Common.{
  ℕ, zero, suc, ◌%◌, ◌≤◌, ◌<◌, ◌≢◌, ◌≡◌, refl, ap, ◌∙◌, ◌⊎◌, inl, inr, true, false, List, [], ◌∷◌,
  map, arith, ltb, length, set, length-set, get_or-set_self, get_or-set_ne, ◌||◌, Bool-cases,
}
use creature_controller.Controller.Motors.{
  Motor, Pwm, motor_map_size, invalid_motor_id, motor_at, get_motor_map_index, initial_motor,
  request_servo_position, configure_servo_min_max, reset_motor, reset_servo_motor_map,
}

-- A character's index is a valid one exactly if it is a digit from 0 to 7.
pub get_motor_map_index_lem :
    (id : List ℕ)
    → (get_motor_map_index id < motor_map_size) ⊎ (get_motor_map_index id ≡ invalid_motor_id)
unfolding get_motor_map_index
get_motor_map_index_lem [] = inr refl
get_motor_map_index_lem (c ∷ id) = ground arith

pub motor_at-set_self :
    (ms : List Motor) (i : ℕ) (m : Motor) → i < length ms → motor_at (set ms i m) i ≡ m
unfolding motor_at
motor_at-set_self ms i m h = get_or-set_self ms i m (initial_motor 0) h

pub motor_at-set_ne :
    (ms : List Motor) (i j : ℕ) (m : Motor) → i ≢ j → motor_at (set ms i m) j ≡ motor_at ms j
unfolding motor_at
motor_at-set_ne ms i j m h = get_or-set_ne ms i j m (initial_motor 0) h

-- The limits are in force: no pulse is requested of the output, or the one that is requested is, in
-- counter ticks, a pulse inside the range.
abbrev pub IsWithinLimits : (ℕ → ℕ → ℕ → ℕ) → Pwm → Motor → Type 0
IsWithinLimits desired_ticks p m =
    ((m.current_microseconds ≡ 0) × (m.requested_position ≡ 0))
    ⊎ ((m.min_microseconds ≤ m.current_microseconds)
        × (m.current_microseconds ≤ m.max_microseconds)
        × (m.requested_position
            ≡ desired_ticks p.pwm_resolution p.frame_length_microseconds m.current_microseconds
              % 65536))

-- The motor map has its eight entries, and every motor is within its limits.
pub record IsSafe (desired_ticks : ℕ → ℕ → ℕ → ℕ) (p : Pwm) : Type 0 where
  pub eight : length p.motor_map ≡ motor_map_size
  pub within :
      (i : ℕ) → i < motor_map_size → IsWithinLimits desired_ticks p (motor_at p.motor_map i)

module _ (desired_ticks : ℕ → ℕ → ℕ → ℕ) where
  -- The motor after a granted request.
  abbrev moved : Pwm → ℕ → ℕ → Motor
  moved p i us = record (motor_at p.motor_map i) {
    current_microseconds = us;
    requested_position = desired_ticks p.pwm_resolution p.frame_length_microseconds us % 65536;
  }

  -- In a map of eight motors a request is granted exactly if the motor exists and the pulse lies
  -- within its limits. Then the position that drives that motor's output is the pulse requested, in
  -- counter ticks of 16 bits, the pulse is noted for the status lights, and no other motor changes; else
  -- nothing changes.
  pub request_servo_position_lem :
      (p : Pwm) (id : List ℕ) (us : ℕ)
      → length p.motor_map ≡ motor_map_size
      → let i = get_motor_map_index id in
        let (p', granted) = request_servo_position desired_ticks p id us in
        ((granted ≡ true)
          × (i < motor_map_size)
          × ((motor_at p.motor_map i).min_microseconds ≤ us)
          × (us ≤ (motor_at p.motor_map i).max_microseconds)
          × ((motor_at p'.motor_map i).current_microseconds ≡ us)
          × ((motor_at p'.motor_map i).requested_position
              ≡ desired_ticks p.pwm_resolution p.frame_length_microseconds us % 65536)
          × ((j : ℕ) → j ≢ i → motor_at p'.motor_map j ≡ motor_at p.motor_map j))
        ⊎ ((granted ≡ false)
            × (p' ≡ p)
            × ((i ≡ invalid_motor_id)
                ⊎ ((us < (motor_at p.motor_map i).min_microseconds)
                    ⊎ ((motor_at p.motor_map i).max_microseconds < us))))
  unfolding request_servo_position
  request_servo_position_lem p id us h = elim (get_motor_map_index_lem id) [
    | inr bad ↦ inr (ground arith, ground arith, inl bad)
    | inl good ↦
        elim (Bool-cases (
          ltb us (motor_at p.motor_map (get_motor_map_index id)).min_microseconds
          || ltb (motor_at p.motor_map (get_motor_map_index id)).max_microseconds us)) [
            | inl out ↦ inr (ground arith, ground arith, inr (ground arith))
            | inr fits ↦ inl (
              ground arith,
              good,
              ground arith,
              ground arith,
              ground (
                arith,
                motor_at-set_self p.motor_map (get_motor_map_index id)
                    (moved p (get_motor_map_index id) us),
              ),
              ground (
                arith,
                motor_at-set_self p.motor_map (get_motor_map_index id)
                    (moved p (get_motor_map_index id) us),
              ),
              λ j ne. ground (
                arith,
                motor_at-set_ne p.motor_map (get_motor_map_index id) j
                    (moved p (get_motor_map_index id) us),
              ),
            )
          ]
  ]

  -- If every motor is within its limits, a request keeps it so, whatever is requested.
  pub request_servo_position-IsSafe :
      (p : Pwm) (id : List ℕ) (us : ℕ)
      → IsSafe desired_ticks p
      → IsSafe desired_ticks (request_servo_position desired_ticks p id us).0
  unfolding request_servo_position
  request_servo_position-IsSafe p id us s = record {
    eight = ground (arith, s.eight, length-set p.motor_map i (moved p i us));
    within = λ j h. ground (
      arith,
      s.eight,
      s.within j h,
      get_motor_map_index_lem id,
      motor_at-set_self p.motor_map i (moved p i us),
      motor_at-set_ne p.motor_map i j (moved p i us),
    );
  }
    where
      i : ℕ
      i = get_motor_map_index id

-- No pulse is requested of any output, and none is noted.
pub record IsAtRest (p : Pwm) : Type 0 where
  pub eight : length p.motor_map ≡ motor_map_size
  pub rest :
      (i : ℕ)
      → i < motor_map_size
      → ((motor_at p.motor_map i).current_microseconds ≡ 0)
        × ((motor_at p.motor_map i).requested_position ≡ 0)

pub IsAtRest→IsSafe :
    (desired_ticks : ℕ → ℕ → ℕ → ℕ) (p : Pwm) → IsAtRest p → IsSafe desired_ticks p
IsAtRest→IsSafe desired_ticks p r = record { eight = r.eight; within = λ i h. inl (r.rest i h) }

configured : Pwm → ℕ → ℕ → ℕ → Motor
configured p i min_us max_us = record (motor_at p.motor_map i) {
  min_microseconds = min_us;
  max_microseconds = max_us;
  is_configured = true;
}

-- Limits are set, and no pulse: a motor at rest stays at rest.
pub configure_servo_min_max-IsAtRest :
    (p : Pwm) (id : List ℕ) (min_us max_us : ℕ)
    → IsAtRest p
    → IsAtRest (configure_servo_min_max p id min_us max_us).0
unfolding configure_servo_min_max configured
configure_servo_min_max-IsAtRest p id min_us max_us r = record {
  eight = ground (arith, r.eight, length-set p.motor_map i (configured p i min_us max_us));
  rest = λ j h. ground (
    arith,
    r.eight,
    r.rest j h,
    r.rest i,
    get_motor_map_index_lem id,
    motor_at-set_self p.motor_map i (configured p i min_us max_us),
    motor_at-set_ne p.motor_map i j (configured p i min_us max_us),
  );
}
  where
    i : ℕ
    i = get_motor_map_index id

pub map-motor_at :
    (ms : List Motor) (i : ℕ)
    → i < length ms
    → motor_at (map reset_motor ms) i ≡ reset_motor (motor_at ms i)
unfolding motor_at
map-motor_at [] i h = absurd (omega arith)
map-motor_at (m ∷ ms) zero h = refl
map-motor_at (m ∷ ms) (suc i) h = map-motor_at ms i (omega arith)

pub length-map : (ms : List Motor) → length (map reset_motor ms) ≡ length ms
length-map [] = refl
length-map (m ∷ ms) = ap suc (length-map ms)

-- The reset puts every motor at rest.
pub reset_servo_motor_map-IsAtRest :
    (p : Pwm) → length p.motor_map ≡ motor_map_size → IsAtRest (reset_servo_motor_map p)
unfolding reset_servo_motor_map
reset_servo_motor_map-IsAtRest p h = record {
  eight = length-map p.motor_map ∙ h;
  rest = λ i k. (
    ap (λ (m : Motor). m.current_microseconds) (map-motor_at p.motor_map i (omega arith)),
    ap (λ (m : Motor). m.requested_position) (map-motor_at p.motor_map i (omega arith)),
  );
}
