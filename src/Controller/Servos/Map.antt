-- ===== src/Controller/Servos/Map.antt =====
-- The Dynamixel motor map stays well formed.
use creature_controller.Common.{
  ℕ, suc, ◌+◌, ◌≤◌, ◌<◌, ◌≡◌, refl, ap, ◌∙◌, inl, inr, Bool, true, false, not, ◌||◌, List, [], ◌∷◌,
  ◌++◌, map, arith, leb, ltb, ◌==◌, if◌then◌else◌, length, Bool-cases, All,
}
use creature_controller.Dynamixel.Bus.{Hal, Bus}
use creature_controller.Dynamixel.Servo.Registers.{max_id}
use creature_controller.Controller.Servos.{
  DxlMotor, Dxl, velocities, unconfirm, new_motor, max_dynamixel_servos, max_profile_velocity,
  has_id, mark_confirmed, mark_velocity_confirmed, request_position, request_dynamixel_position,
  reset_dynamixel_motor_map, apply_profile_velocity, apply_led, apply_settings,
  configure_dynamixel_servo, reinitialize_each, reinitialize_all, set_torque_all,
}

-- One entry: an id that can be addressed, a requested position within the limits, and a velocity
-- within the cap.
abbrev pub IsValidMotor : DxlMotor → Type 0
IsValidMotor m =
    (0 < m.dxl_id)
    × (m.dxl_id ≤ 253)
    × (m.min_position ≤ m.requested_position)
    × (m.requested_position ≤ m.max_position)
    × (m.profile_velocity ≤ 267)

abbrev pub Distinct : List DxlMotor → Type 0
Distinct [] = Unit
Distinct (m ∷ ms) = (has_id m.dxl_id ms ≡ false) × Distinct ms

-- The map: at most 16 entries, all valid, no id twice.
abbrev pub IsValid : Dxl → Type 0
IsValid d = (length d.motors ≤ 16) × All IsValidMotor d.motors × Distinct d.motors

has_id-mark_confirmed :
    (i id : ℕ) (c : Bool) (ms : List DxlMotor) → has_id i (mark_confirmed id c ms) ≡ has_id i ms
unfolding has_id mark_confirmed
has_id-mark_confirmed i id c [] = refl
has_id-mark_confirmed i id c (m ∷ ms) = ground (arith, has_id-mark_confirmed i id c ms)

mark_confirmed-All :
    (id : ℕ) (c : Bool) (ms : List DxlMotor)
    → All IsValidMotor ms
    → All IsValidMotor (mark_confirmed id c ms)
unfolding mark_confirmed
mark_confirmed-All id c [] h = tt
mark_confirmed-All id c (m ∷ ms) h = elim (Bool-cases (m.dxl_id == id)) [
  | inl e ↦ rw e h
  | inr e ↦ rw e (h.0, mark_confirmed-All id c ms h.1)
]

mark_confirmed-Distinct :
    (id : ℕ) (c : Bool) (ms : List DxlMotor) → Distinct ms → Distinct (mark_confirmed id c ms)
unfolding mark_confirmed
mark_confirmed-Distinct id c [] h = tt
mark_confirmed-Distinct id c (m ∷ ms) h = elim (Bool-cases (m.dxl_id == id)) [
  | inl e ↦ rw e h
  | inr e ↦ rw e (has_id-mark_confirmed m.dxl_id id c ms ∙ h.0, mark_confirmed-Distinct id c ms h.1)
]

length-mark_confirmed :
    (id : ℕ) (c : Bool) (ms : List DxlMotor) → length (mark_confirmed id c ms) ≡ length ms
unfolding mark_confirmed
length-mark_confirmed id c [] = refl
length-mark_confirmed id c (m ∷ ms) = ground (arith, length-mark_confirmed id c ms)

mark_velocity_confirmed-IsValid :
    (d : Dxl) (id : ℕ) (c : Bool) → IsValid d → IsValid (mark_velocity_confirmed d id c)
unfolding mark_velocity_confirmed
mark_velocity_confirmed-IsValid d id c (n, h, k) = (
  rw (length-mark_confirmed id c d.motors) n,
  mark_confirmed-All id c d.motors h,
  mark_confirmed-Distinct id c d.motors k,
)

has_id-request_position :
    (i id p : ℕ) (ms : List DxlMotor) → has_id i (request_position id p ms).0 ≡ has_id i ms
unfolding has_id request_position
has_id-request_position i id p [] = refl
has_id-request_position i id p (m ∷ ms) = ground (arith, has_id-request_position i id p ms)

length-request_position :
    (id p : ℕ) (ms : List DxlMotor) → length (request_position id p ms).0 ≡ length ms
unfolding request_position
length-request_position id p [] = refl
length-request_position id p (m ∷ ms) = ground (arith, length-request_position id p ms)

request_position-All :
    (id p : ℕ) (ms : List DxlMotor)
    → All IsValidMotor ms
    → All IsValidMotor (request_position id p ms).0
unfolding request_position
request_position-All id p [] h = tt
request_position-All id p (m ∷ ms) h = elim (Bool-cases (m.dxl_id == id)) [
  | inl e ↦ rw e (elim (Bool-cases (ltb p m.min_position || ltb m.max_position p)) [
    | inl out ↦ rw out h
    | inr within ↦ rw within ((h.0.0, h.0.1, ground arith, ground arith, ground arith), h.1)
  ])
  | inr e ↦ rw e (h.0, request_position-All id p ms h.1)
]

request_position-Distinct :
    (id p : ℕ) (ms : List DxlMotor) → Distinct ms → Distinct (request_position id p ms).0
unfolding request_position
request_position-Distinct id p [] h = tt
request_position-Distinct id p (m ∷ ms) h = elim (Bool-cases (m.dxl_id == id)) [
  | inl e ↦ rw e (elim (Bool-cases (ltb p m.min_position || ltb m.max_position p)) [
    | inl out ↦ rw out h
    | inr within ↦ rw within h
  ])
  | inr e ↦
      rw e (has_id-request_position m.dxl_id id p ms ∙ h.0, request_position-Distinct id p ms h.1)
]

-- A position request keeps a well-formed map well formed, whatever is requested: a position
-- outside the limits of its servo is never stored.
pub request_dynamixel_position-IsValid :
    (d : Dxl) (id p : ℕ) → IsValid d → IsValid (request_dynamixel_position d id p).0
unfolding request_dynamixel_position
request_dynamixel_position-IsValid d id p (n, h, k) = (
  rw (length-request_position id p d.motors) n,
  request_position-All id p d.motors h,
  request_position-Distinct id p d.motors k,
)

has_id-append :
    (i : ℕ) (ms : List DxlMotor) (m : DxlMotor)
    → has_id i (ms ++ (m ∷ [])) ≡ (has_id i ms || (m.dxl_id == i))
unfolding has_id
has_id-append i [] m = ground arith
has_id-append i (x ∷ ms) m = ground (arith, has_id-append i ms m)

length-append : (ms : List DxlMotor) (m : DxlMotor) → length (ms ++ (m ∷ [])) ≡ length ms + 1
length-append [] m = refl
length-append (x ∷ ms) m = ground (arith, length-append ms m)

append-All :
    (ms : List DxlMotor) (m : DxlMotor)
    → All IsValidMotor ms
    → IsValidMotor m
    → All IsValidMotor (ms ++ (m ∷ []))
append-All [] m h k = (k, tt)
append-All (x ∷ ms) m h k = (h.0, append-All ms m h.1 k)

append-Distinct :
    (ms : List DxlMotor) (m : DxlMotor)
    → Distinct ms
    → has_id m.dxl_id ms ≡ false
    → Distinct (ms ++ (m ∷ []))
unfolding has_id
append-Distinct [] m h k = (refl, tt)
append-Distinct (x ∷ ms) m h k =
    (ground (arith, has_id-append x.dxl_id ms m), append-Distinct ms m h.1 (ground arith))

new_motor-IsValid :
    (id lo hi v : ℕ)
    → 0 < id
    → id ≤ 253
    → lo ≤ hi
    → lo + hi < 4294967296
    → v ≤ 267
    → IsValidMotor (new_motor id lo hi v)
new_motor-IsValid id lo hi v a b c d e = (a, b, ground arith, ground arith, e)

module _ {S : Type 0} (hal : Hal S) where
  apply_settings-IsValid :
      (d : Dxl) (b : Bus S) (id v : ℕ) → IsValid d → IsValid (apply_settings hal d b id v).0
  unfolding apply_settings
  apply_settings-IsValid d b id v h = elim (Bool-cases (hal.rail_present b.env)) [
    | inl up ↦ rw up (mark_velocity_confirmed-IsValid d id (apply_profile_velocity hal b id v).0 h)
    | inr down ↦ rw down (mark_velocity_confirmed-IsValid d id false h)
  ]

  -- Configuring a servo in a well-formed map, with limits in their order whose sum is below 2 ^
  -- 32, keeps the map well formed for every id and velocity: a bad or a duplicate id and a full
  -- map are refused, and the velocity is clamped.
  pub configure_dynamixel_servo-IsValid :
      (d : Dxl) (b : Bus S) (id lo hi v : ℕ)
      → IsValid d
      → lo ≤ hi
      → lo + hi < 4294967296
      → IsValid (configure_dynamixel_servo hal d b id lo hi v).1
  unfolding configure_dynamixel_servo
  configure_dynamixel_servo-IsValid d b id lo hi v h le bound = elim (Bool-cases (not d.ready)) [
    | inl c ↦ rw c h
    | inr c ↦ rw c (elim (Bool-cases ((id == 0) || ltb max_id id)) [
      | inl bad ↦ rw bad h
      | inr good ↦ rw good (elim (Bool-cases (leb max_dynamixel_servos (length d.motors))) [
        | inl full ↦ rw full h
        | inr room ↦ rw room (elim (Bool-cases (has_id id d.motors)) [
          | inl there ↦ rw there h
          | inr new ↦ rw new (apply_settings-IsValid added b id clamped (grown good room new))
        ])
      ])
    ])
  ]
    where
      clamped : ℕ
      clamped = if ltb max_profile_velocity v then max_profile_velocity else v

      clamped-le : clamped ≤ 267
      clamped-le = ground arith

      added : Dxl
      added = record d { motors = d.motors ++ (new_motor id lo hi clamped ∷ []) }

      grown :
          ((id == 0) || ltb max_id id) ≡ false
          → leb max_dynamixel_servos (length d.motors) ≡ false
          → has_id id d.motors ≡ false
          → IsValid added
      grown good room new = (
        ground (arith, length-append d.motors (new_motor id lo hi clamped)),
        append-All d.motors (new_motor id lo hi clamped) h.1
            (new_motor-IsValid id lo hi clamped (ground arith) (ground arith) le bound clamped-le),
        append-Distinct d.motors (new_motor id lo hi clamped) h.2 new,
      )

  -- Clearing the map leaves a well-formed, empty one.
  pub reset_dynamixel_motor_map-IsValid :
      (d : Dxl) (b : Bus S) → IsValid (reset_dynamixel_motor_map hal d b).0
  unfolding reset_dynamixel_motor_map
  reset_dynamixel_motor_map-IsValid d b = (ground arith, tt, tt)

  reinitialize_each-IsValid :
      (l : List (ℕ × ℕ)) (d : Dxl) (b : Bus S) → IsValid d → IsValid (reinitialize_each hal l d b).0
  unfolding reinitialize_each
  reinitialize_each-IsValid [] d b h = h
  reinitialize_each-IsValid ((id, v) ∷ l) d b h =
      reinitialize_each-IsValid l (mark_velocity_confirmed d id r.0) (apply_led hal r.1 id r.0).1
        (mark_velocity_confirmed-IsValid d id r.0 h)
    where
      r : Bool × Bus S
      r = apply_profile_velocity hal b id v

has_id-unconfirm : (i : ℕ) (ms : List DxlMotor) → has_id i (map unconfirm ms) ≡ has_id i ms
unfolding has_id
has_id-unconfirm i [] = refl
has_id-unconfirm i (m ∷ ms) = ground (arith, has_id-unconfirm i ms)

unconfirm-IsValid :
    (ms : List DxlMotor)
    → All IsValidMotor ms
    → Distinct ms
    → (length (map unconfirm ms) ≡ length ms)
      × All IsValidMotor (map unconfirm ms)
      × Distinct (map unconfirm ms)
unconfirm-IsValid [] h k = (refl, tt, tt)
unconfirm-IsValid (m ∷ ms) h k =
    let rest = unconfirm-IsValid ms h.1 k.1 in
    (ap suc rest.0, (h.0, rest.1), (has_id-unconfirm m.dxl_id ms ∙ k.0, rest.2))

module _ {S : Type 0} (hal : Hal S) where
  -- The re-initialization keeps a well-formed map well formed, with the emergency stop or
  -- without.
  pub reinitialize_all-IsValid :
      (estop first_frame : Bool) (d : Dxl) (b : Bus S)
      → IsValid d
      → IsValid (reinitialize_all hal estop first_frame d b).0
  unfolding reinitialize_all
  reinitialize_all-IsValid estop first_frame d b h =
      elim (Bool-cases (not d.ready || (length d.motors == 0))) [
        | inl idle ↦ rw idle h
        | inr some ↦ rw some (behind_guard estop first_frame)
      ]
    where
      fresh : Dxl
      fresh = record d { motors = map unconfirm d.motors }

      kept : IsValid fresh
      kept = let u = unconfirm-IsValid d.motors h.1 h.2 in (rw u.0 h.0, u.1, u.2)

      r : Dxl × Bus S
      r = reinitialize_each hal (velocities d.motors) fresh b

      behind_guard :
          (e f : Bool)
          → IsValid (if e then r else if not f then r else (r.0, set_torque_all hal r.0 r.1 true)).0
      behind_guard true f = reinitialize_each-IsValid hal (velocities d.motors) fresh b kept
      behind_guard false false = reinitialize_each-IsValid hal (velocities d.motors) fresh b kept
      behind_guard false true = reinitialize_each-IsValid hal (velocities d.motors) fresh b kept
