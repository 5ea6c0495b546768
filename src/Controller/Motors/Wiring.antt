-- ===== src/Controller/Motors/Wiring.antt =====
-- The wiring of the motor map, which no operation changes.
use creature_controller.Common.{
  ℕ, suc, ◌+◌, ◌-◌, ◌/◌, ◌%◌, ◌<◌, ◌≡◌, refl, ap, ◌∙◌, sym, inl, inr, true, List, [], ◌∷◌, map,
  arith, leb, ◌==◌, if◌then◌else◌, length, set, length-set, Bool-cases, holds_from, holds_from_lem,
  ==_iff, ltb, ◌||◌,
}
use creature_controller.Controller.Motors.{
  Motor, Pwm, motor_map_size, invalid_motor_id, motor_at, get_motor_map_index,
  request_servo_position, configure_servo_min_max, reset_motor, reset_servo_motor_map,
  initial_motor_map, drive_motors, set_level,
}
use creature_controller.Controller.Motors.Limits.{
  motor_at-set_self, motor_at-set_ne, map-motor_at, length-map,
}

-- The map is wired as on the board: eight motors, and motor i is called by its digit and has the
-- power pin 21 - i.
pub record IsWired (ms : List Motor) : Type 0 where
  pub eight : length ms ≡ motor_map_size
  pub named : (i : ℕ) → i < motor_map_size → get_motor_map_index (motor_at ms i).motor_id ≡ i
  pub slices : (i : ℕ) → i < motor_map_size → (motor_at ms i).slice ≡ (13 - i) / 2
  pub channels : (i : ℕ) → i < motor_map_size → (motor_at ms i).channel ≡ (13 - i) % 2
  pub pins : (i : ℕ) → i < motor_map_size → (motor_at ms i).power_pin ≡ 21 - i

module _ (ms : List Motor) where
  -- The motors from the k-th on.
  abbrev pub IsSuffix : ℕ → List Motor → Type 0
  IsSuffix k l =
      (k + length l ≡ motor_map_size)
      × ((i : ℕ) → i < length l → motor_at l i ≡ motor_at ms (k + i))

  pub rest : (k : ℕ) (m : Motor) (l : List Motor) → IsSuffix k (m ∷ l) → IsSuffix (suc k) l
  unfolding motor_at
  rest k m l s =
      (omega (arith, s.0), λ i h. s.1 (suc i) (omega arith) ∙ ap (motor_at ms) (omega arith))

  pub first : (k : ℕ) (m : Motor) (l : List Motor) → IsSuffix k (m ∷ l) → motor_at ms k ≡ m
  unfolding motor_at
  first k m l s = sym (s.1 0 (omega arith) ∙ ap (motor_at ms) (omega arith))

  pub whole : length ms ≡ motor_map_size → IsSuffix 0 ms
  whole h = (omega (arith, h), λ i k. ap (motor_at ms) (omega arith))

at_each :
    (f g : ℕ → ℕ)
    → holds_from 0 8 (λ i. f i == g i) ≡ true
    → (i : ℕ) → i < motor_map_size
    → f i ≡ g i
at_each f g h i k = (==_iff (f i) (g i)).0 (holds_from_lem 8 (λ j. f j == g j) i h k)

-- The boot state is wired.
pub initial_motor_map-IsWired : IsWired initial_motor_map
unfolding motor_at get_motor_map_index holds_from
initial_motor_map-IsWired = record {
  eight = refl;
  named = at_each (λ i. get_motor_map_index (motor_at initial_motor_map i).motor_id) (λ i. i) refl;
  slices = at_each (λ i. (motor_at initial_motor_map i).slice) (λ i. (13 - i) / 2) refl;
  channels = at_each (λ i. (motor_at initial_motor_map i).channel) (λ i. (13 - i) % 2) refl;
  pins = at_each (λ i. (motor_at initial_motor_map i).power_pin) (λ i. 21 - i) refl;
}

-- The hardware side of two motors agrees.
abbrev SameWiring : Motor → Motor → Type 0
SameWiring m n =
    (m.motor_id ≡ n.motor_id)
    × (m.slice ≡ n.slice)
    × (m.channel ≡ n.channel)
    × (m.power_pin ≡ n.power_pin)

SameWiring-IsWired :
    (ms ns : List Motor)
    → length ns ≡ length ms
    → ((i : ℕ) → i < motor_map_size → SameWiring (motor_at ns i) (motor_at ms i))
    → IsWired ms
    → IsWired ns
SameWiring-IsWired ms ns e same w = record {
  eight = e ∙ w.eight;
  named = λ i h. ap get_motor_map_index (same i h).0 ∙ w.named i h;
  slices = λ i h. (same i h).1 ∙ w.slices i h;
  channels = λ i h. (same i h).2 ∙ w.channels i h;
  pins = λ i h. (same i h).3 ∙ w.pins i h;
}

set-IsWired :
    (ms : List Motor) (i : ℕ) (m : Motor)
    → SameWiring m (motor_at ms i)
    → IsWired ms
    → IsWired (set ms i m)
set-IsWired ms i m s w =
    SameWiring-IsWired ms (set ms i m) (length-set ms i m)
      (λ j h. ground (arith, w.eight, motor_at-set_self ms i m, motor_at-set_ne ms i j m)) w

pub request_servo_position-IsWired :
    (ticks : ℕ → ℕ → ℕ → ℕ) (p : Pwm) (id : List ℕ) (us : ℕ)
    → IsWired p.motor_map
    → IsWired (request_servo_position ticks p id us).0.motor_map
unfolding request_servo_position
request_servo_position-IsWired ticks p id us w =
    let moved =
      set-IsWired p.motor_map i
        (record (motor_at p.motor_map i) {
          current_microseconds = us;
          requested_position = ticks p.pwm_resolution p.frame_length_microseconds us % 65536;
        })
        (refl, refl, refl, refl) w in
    elim (Bool-cases (i == invalid_motor_id)) [
      | inl bad ↦ rw bad w
      | inr good ↦
          rw good
            (elim (Bool-cases (
              ltb us (motor_at p.motor_map i).min_microseconds
              || ltb (motor_at p.motor_map i).max_microseconds us)) [
                | inl out ↦ rw out w
                | inr fits ↦ rw fits moved
              ])
    ]
  where
    i : ℕ
    i = get_motor_map_index id

pub configure_servo_min_max-IsWired :
    (p : Pwm) (id : List ℕ) (min_us max_us : ℕ)
    → IsWired p.motor_map
    → IsWired (configure_servo_min_max p id min_us max_us).0.motor_map
unfolding configure_servo_min_max
configure_servo_min_max-IsWired p id min_us max_us w = elim (Bool-cases (i == invalid_motor_id)) [
  | inl bad ↦ rw bad w
  | inr good ↦ rw good (
      set-IsWired p.motor_map i
        (record (motor_at p.motor_map i) {
          min_microseconds = min_us;
          max_microseconds = max_us;
          is_configured = true;
        })
        (refl, refl, refl, refl) w)
]
  where
    i : ℕ
    i = get_motor_map_index id

pub reset_servo_motor_map-IsWired :
    (p : Pwm) → IsWired p.motor_map → IsWired (reset_servo_motor_map p).motor_map
unfolding reset_servo_motor_map
reset_servo_motor_map-IsWired p w =
    SameWiring-IsWired p.motor_map (map reset_motor p.motor_map) (length-map p.motor_map)
      (λ i h. ground (arith, w.eight, map-motor_at p.motor_map i)) w

module _ (ms : List Motor) (w : IsWired ms) where
  -- After the loop over the motors from the k-th on, each of them drives its own output.
  drive_motors_from :
      (l : List Motor) (k i : ℕ) (f : ℕ → ℕ → ℕ)
      → IsSuffix ms k l
      → i < motor_map_size
      → drive_motors l f ((13 - i) / 2) ((13 - i) % 2)
        ≡ (if leb k i then (motor_at ms i).requested_position else f ((13 - i) / 2) ((13 - i) % 2))
  unfolding drive_motors
  drive_motors_from [] k i f s h = ground (arith, s.0)
  drive_motors_from (m ∷ l) k i f s h = ground (
    arith,
    s.0,
    first ms k m l s,
    w.slices k,
    w.channels k,
    drive_motors_from l (suc k) i (set_level f m.slice m.channel m.requested_position)
        (rest ms k m l s) h,
  )

  -- The outputs of distinct motors are distinct, so after the loop motor i's output has the level
  -- that was requested of motor i.
  pub drive_motors_lem :
      (i : ℕ) (f : ℕ → ℕ → ℕ)
      → i < motor_map_size
      → drive_motors ms f ((13 - i) / 2) ((13 - i) % 2) ≡ (motor_at ms i).requested_position
  drive_motors_lem i f h = ground (arith, drive_motors_from ms 0 i f (whole ms w.eight) h)
