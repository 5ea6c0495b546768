-- ===== src/Controller/Task/Safety.antt =====
-- What a pass of the Dynamixel task puts onto the bus.
use creature_controller.Common.{
  ℕ, ◌+◌, ◌%◌, ◌≡◌, refl, ◌∙◌, inl, inr, Bool, true, false, not, ◌&&◌, ◌||◌, List, [], ◌∷◌, Option,
  arith, ltb, ◌==◌, if◌then◌else◌, length, Bool-cases,
}
use creature_controller.Dynamixel.Packet.{DxlResult, Packet}
use creature_controller.Dynamixel.Bus.{Hal, Bus}
use creature_controller.Dynamixel.Servo.{is_ok}
use creature_controller.Dynamixel.Servo.Registers.{max_sync_servos}
use creature_controller.Dynamixel.Sync.{
  SyncPosition, SyncResult, sync_write_packet, sync_read_packet, sync_read_data_length,
  sync_read_timeout, dxl_sync_write_position, dxl_sync_read_status,
}
use creature_controller.Controller.Servos.{DxlMotor, TorqueRequest, Dxl, set_torque_all}
use creature_controller.Controller.Servos.Traffic.{
  Only, Only-refl, Only-one, Only-trans, Only-weaken,
}
use creature_controller.Controller.Servos.Torque.{
  IsQuiet, IsAllowed, is_confirmed, quiet-IsAllowed, set_torque_all_sent,
}
use creature_controller.Controller.Servos.Restore.{reinitialize_all_sent}
use creature_controller.Controller.Lifecycle.{Flags, send_to_controller}
use creature_controller.Controller.Telemetry.{sensor_report, dynamixel_send_sensor_report}
use creature_controller.Controller.Task.{
  Frame, report_interval_frames, sync_positions, sync_ids, serve_torque, report, offline,
  serve_reinit, write_positions, telemetry, operate, task_pass,
}

module _ {S : Type 0} (hal : Hal S) where
  sync_write_sent :
      (b : Bus S) (l : List SyncPosition) → Only IsQuiet b (dxl_sync_write_position hal b l).1
  unfolding dxl_sync_write_position
  sync_write_sent b l = elim (Bool-cases ((length l == 0) || ltb max_sync_servos (length l))) [
    | inl bad ↦ rw bad (Only-refl IsQuiet b b refl)
    | inr good ↦ rw good (elim (Bool-cases (hal.bus_lock b.env).0) [
      | inl locked ↦ rw locked (
          Only-one IsQuiet b
            (record {
              env = hal.bus_unlock (hal.tx (hal.bus_lock b.env).1 (sync_write_packet l)).1;
              sent = sync_write_packet l ∷ b.sent;
            })
            (sync_write_packet l) refl refl)
      | inr busy ↦ rw busy (Only-refl IsQuiet b (record b { env = (hal.bus_lock b.env).1 }) refl)
    ])
  ]

  sync_read_sent :
      (b : Bus S) (l : List ℕ) (old : List SyncResult)
      → Only IsQuiet b (dxl_sync_read_status hal b l old).3
  unfolding dxl_sync_read_status
  sync_read_sent b l old = elim (Bool-cases ((length l == 0) || ltb max_sync_servos (length l))) [
    | inl bad ↦ rw bad (Only-refl IsQuiet b b refl)
    | inr good ↦ rw good (elim (Bool-cases (hal.bus_lock b.env).0) [
      | inr busy ↦ rw busy (Only-refl IsQuiet b (record b { env = (hal.bus_lock b.env).1 }) refl)
      | inl locked ↦ rw locked (elim (Bool-cases (is_ok answer.0)) [
        | inl ok ↦ rw ok (Only-one IsQuiet b read (sync_read_packet l) refl refl)
        | inr failed ↦ rw failed (Only-one IsQuiet b read (sync_read_packet l) refl refl)
      ])
    ])
  ]
    where
      env : S
      env = (hal.bus_lock b.env).1

      answer : DxlResult × List Packet × S
      answer =
          hal.txrx_multi env (sync_read_packet l) sync_read_data_length (length l)
            (sync_read_timeout (length l) (hal.baud_rate env))

      read : Bus S
      read = record { env = hal.bus_unlock answer.2; sent = sync_read_packet l ∷ b.sent }

module _ {S : Type 0} (hal : Hal S) (token : ℕ → Option SyncResult → List ℕ) where
  report-same :
      (ids : List ℕ) (rs : List SyncResult) (n : ℕ) (x : Frame S)
      → ((report hal token ids rs n x).bus ≡ x.bus)
        × ((report hal token ids rs n x).dxl.motors ≡ x.dxl.motors)
  unfolding report dynamixel_send_sensor_report
  report-same ids rs n x =
      elim (Bool-cases (send_to_controller x.outgoing (sensor_report token ids rs n)).1) [
        | inl sent ↦ rw sent (refl, refl)
        | inr lost ↦ rw lost (refl, refl)
      ]

  offline-same :
      (got : Bool) (x : Frame S)
      → ((offline hal token got x).bus ≡ x.bus)
        × ((offline hal token got x).dxl.motors ≡ x.dxl.motors)
  unfolding offline
  offline-same got x = (ground (arith, said.0), ground (arith, said.1))
    where
      said :
          ((report hal token (if got then sync_ids x.dxl.motors else []) [] 0 x).bus ≡ x.bus)
          × ((report hal token (if got then sync_ids x.dxl.motors else []) [] 0 x).dxl.motors
              ≡ x.dxl.motors)
      said = report-same (if got then sync_ids x.dxl.motors else []) [] 0 x

  telemetry_sent :
      (ms : List DxlMotor) (x : Frame S)
      → Only IsQuiet x.bus (telemetry hal token ms x).bus
        × ((telemetry hal token ms x).dxl.motors ≡ x.dxl.motors)
  unfolding telemetry
  telemetry_sent ms x =
      elim (Bool-cases (ltb 0 (length ms) && (x.frame_counter % report_interval_frames == 0))) [
        | inr skip ↦ rw skip (Only-refl IsQuiet x.bus x.bus refl, refl)
        | inl due ↦ rw due (
          rw (report-same (sync_ids ms) r.1 (if is_ok r.0 then r.2 else 0) after).0
              (sync_read_sent hal x.bus (sync_ids ms) x.sync_results),
          (report-same (sync_ids ms) r.1 (if is_ok r.0 then r.2 else 0) after).1 ∙ ground arith,
        )
      ]
    where
      r : DxlResult × List SyncResult × ℕ × Bus S
      r = dxl_sync_read_status hal x.bus (sync_ids ms) x.sync_results

      after : Frame S
      after = record x {
        dxl =
            if not (is_ok r.0) || (r.2 == 0)
            then record x.dxl { dsense_reads_failed = (x.dxl.dsense_reads_failed + 1) % 4294967296 }
            else x.dxl;
        bus = r.3;
        sync_results = r.1;
      }

  write_positions_sent :
      (ms : List DxlMotor) (x : Frame S)
      → Only IsQuiet x.bus (write_positions hal token ms x).bus
        × ((write_positions hal token ms x).dxl.motors ≡ x.dxl.motors)
  unfolding write_positions
  write_positions_sent ms x = elim (Bool-cases (ltb 0 (length ms))) [
    | inl some ↦ rw some (sync_write_sent hal x.bus (sync_positions ms), refl)
    | inr no_motor ↦ rw no_motor (Only-refl IsQuiet x.bus x.bus refl, refl)
  ]

  abbrev taken : Frame S → Dxl
  taken x = record x.dxl { torque_request = TorqueRequest.none }

  abbrev Served : Flags → Frame S → Packet → Type 0
  Served f x = IsAllowed (λ id. not f.estop && is_confirmed x.dxl.motors id)

  serve_torque_sent :
      (t : TorqueRequest) (f : Flags) (x : Frame S)
      → Only
          (IsAllowed (λ id. not f.estop && is_confirmed x.dxl.motors id))
          x.bus
          (serve_torque hal token t f x).bus
        × ((serve_torque hal token t f x).dxl.motors ≡ x.dxl.motors)
  unfolding serve_torque
  serve_torque_sent TorqueRequest.none f x = (Only-refl (Served f x) x.bus x.bus refl, refl)
  serve_torque_sent TorqueRequest.disable f x = (
    Only-weaken (IsAllowed (λ id. false && is_confirmed x.dxl.motors id)) (Served f x) x.bus
        (set_torque_all hal (taken x) x.bus false) (λ p h e. absurd (let k = h e in cc))
        (set_torque_all_sent hal (taken x) x.bus false),
    refl,
  )
  serve_torque_sent TorqueRequest.enable f x = behind_guard f.estop x.dxl.reinit_requested
    where
      left : Frame S
      left = record x { dxl = taken x }

      behind : Frame S
      behind = record x { dxl = taken x; bus = set_torque_all hal (taken x) x.bus true }

      behind_guard :
          (stop pending : Bool)
          → let y : Frame S = if stop then left else if pending then left else behind in
            Only (IsAllowed (λ id. not stop && is_confirmed x.dxl.motors id)) x.bus y.bus
            × (y.dxl.motors ≡ x.dxl.motors)
      behind_guard true pending = (
        Only-refl (IsAllowed (λ id. not true && is_confirmed x.dxl.motors id)) x.bus x.bus refl,
        refl,
      )
      behind_guard false true = (
        Only-refl (IsAllowed (λ id. not false && is_confirmed x.dxl.motors id)) x.bus x.bus refl,
        refl,
      )
      behind_guard false false = (set_torque_all_sent hal (taken x) x.bus true, refl)

  -- Only a re-initialization that ends with the emergency stop off, and a first frame received,
  -- enables torque in this branch.
  operate_sent :
      (got : Bool) (f : Flags) (x : Frame S)
      → Only
          (IsAllowed (λ id.
            not f.estop && f.first_frame && is_confirmed (operate hal token got f x).dxl.motors id))
          x.bus
          (operate hal token got f x).bus
  unfolding operate
  operate_sent got f x = rw kept (
      Only-trans Allowed x.bus x1.bus x3.bus restored (
        Only-weaken IsQuiet Allowed x1.bus x3.bus (quiet-IsAllowed admits) (
          Only-trans IsQuiet x1.bus x2.bus x3.bus (write_positions_sent ms x1).0
            (telemetry_sent ms x2).0)))
    where
      x1 : Frame S
      x1 = serve_reinit hal token f x

      ms : List DxlMotor
      ms = if got then x1.dxl.motors else []

      x2 : Frame S
      x2 = write_positions hal token ms x1

      x3 : Frame S
      x3 = telemetry hal token ms x2

      admits : ℕ → Bool
      admits id = not f.estop && f.first_frame && is_confirmed x1.dxl.motors id

      Allowed : Packet → Type 0
      Allowed = IsAllowed admits

      kept : x3.dxl.motors ≡ x1.dxl.motors
      kept = (telemetry_sent ms x2).1 ∙ (write_positions_sent ms x1).1

      restored : Only Allowed x.bus x1.bus
      restored =
          unfold serve_reinit in
          elim (Bool-cases x.dxl.reinit_requested) [
            | inr none_pending ↦ rw none_pending (
                Only-refl
                  (IsAllowed (λ id. not f.estop && f.first_frame && is_confirmed x.dxl.motors id))
                  x.bus x.bus refl)
            | inl pending ↦ rw pending (
                reinitialize_all_sent hal f.estop f.first_frame
                  (record x.dxl { reinit_requested = false }) x.bus)
          ]

  -- A pass of the task enables torque only with no emergency stop, and only on servos whose velocity
  -- is confirmed: at the start of the pass (on a request of another task), or at its end if a first
  -- frame has come (by a re-initialization).
  pub task_pass_sent :
      (got_offline got_map : Bool) (f : Flags) (x : Frame S)
      → Only
          (IsAllowed (λ id.
            not f.estop
            && (is_confirmed x.dxl.motors id
                || (f.first_frame
                    && is_confirmed (task_pass hal token got_offline got_map f x).dxl.motors id))))
          x.bus
          (task_pass hal token got_offline got_map f x).bus
  unfolding task_pass
  task_pass_sent got_offline got_map f x = elim (Bool-cases (on && hal.rail_present x2.bus.env)) [
    | inr still ↦ rw still (up_to_x2 (λ id. f.first_frame && is_confirmed x2.dxl.motors id))
    | inl up ↦ rw up (
        Only-trans (IsAllowed (either (λ id. f.first_frame && is_confirmed x3.dxl.motors id))) x.bus
          x2.bus x3.bus (up_to_x2 (λ id. f.first_frame && is_confirmed x3.dxl.motors id))
          (Only-weaken
            (IsAllowed (λ id. not f.estop && f.first_frame && is_confirmed x3.dxl.motors id))
            (IsAllowed (either (λ id. f.first_frame && is_confirmed x3.dxl.motors id))) x2.bus
            x3.bus (λ p h e. let k = h e in ground arith) (operate_sent got_map f x2)))
  ]
    where
      x1 : Frame S
      x1 = serve_torque hal token x.dxl.torque_request f x

      on : Bool
      on = f.safe_to_run && ltb 0 (length x1.dxl.motors)

      x2 : Frame S
      x2 = if on && not (hal.rail_present x1.bus.env) then offline hal token got_offline x1 else x1

      x3 : Frame S
      x3 = operate hal token got_map f x2

      either : (ℕ → Bool) → ℕ → Bool
      either late id = not f.estop && (is_confirmed x.dxl.motors id || late id)

      same_bus : x2.bus ≡ x1.bus
      same_bus = elim (Bool-cases (on && not (hal.rail_present x1.bus.env))) [
        | inl down ↦ rw down (offline-same got_offline x1).0
        | inr up ↦ rw up refl
      ]

      up_to_x2 : (late : ℕ → Bool) → Only (IsAllowed (either late)) x.bus x2.bus
      up_to_x2 late = rw same_bus (
          Only-weaken (Served f x) (IsAllowed (either late)) x.bus x1.bus
            (λ p h e. let k = h e in ground arith) (serve_torque_sent x.dxl.torque_request f x).0)
