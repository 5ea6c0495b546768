-- ===== src/Controller/Task.antt =====
-- One pass of the loop of `dynamixel_controller_task`, firmware/src/controller/controller.c. The
-- flags that other tasks write (the emergency stop among them) keep their value for the time of a
-- pass; the power rail is read wherever the code reads it. The two sections that wait at most 5 ms for
-- `dxl_motors_mutex` may find it taken: `got_offline` and `got_map` say whether they got it.
pub mod Safety
pub mod Kept
pub mod Released
use creature_controller.Common.{
  ℕ, ◌+◌, ◌%◌, Bool, true, false, not, ◌&&◌, ◌||◌, List, [], ◌∷◌, Option, map, ltb, ◌==◌,
  if◌then◌else◌, length,
}
use creature_controller.Dynamixel.Bus.{Hal, Bus}
use creature_controller.Dynamixel.Servo.{is_ok}
use creature_controller.Dynamixel.Sync.{
  SyncPosition, SyncResult, dxl_sync_write_position, dxl_sync_read_status,
}
use creature_controller.Controller.Servos.{
  DxlMotor, TorqueRequest, Dxl, set_torque_all, reinitialize_all,
}
use creature_controller.Controller.Lifecycle.{Flags, Outgoing}
use creature_controller.Controller.Telemetry.{dynamixel_send_sensor_report}

-- `DXL_SENSOR_REPORT_OFFLINE_INTERVAL_FRAMES` and `DXL_SENSOR_REPORT_INTERVAL_FRAMES`.
abbrev pub offline_interval_frames : ℕ
offline_interval_frames = 50

abbrev pub report_interval_frames : ℕ
report_interval_frames = 10

-- What a pass works on: the motor map, the outgoing queue, the task's own `frame_counter` and
-- `sync_results`, and the bus.
pub record Frame (S : Type 0) : Type 0 where
  pub dxl : Dxl
  pub outgoing : Outgoing
  pub frame_counter : ℕ
  pub sync_results : List SyncResult
  pub bus : Bus S

-- The copies of the map: `sync_positions` and `sync_ids`.
abbrev pub sync_positions : List DxlMotor → List SyncPosition
sync_positions ms = map (λ m. record { id = m.dxl_id; position = m.requested_position }) ms

abbrev pub sync_ids : List DxlMotor → List ℕ
sync_ids ms = map (λ m. m.dxl_id) ms

module _ {S : Type 0} (hal : Hal S) (token : ℕ → Option SyncResult → List ℕ) where
  -- The torque request of another task is taken and served.
  pub serve_torque : TorqueRequest → Flags → Frame S → Frame S
  serve_torque TorqueRequest.none f x = x
  serve_torque TorqueRequest.enable f x =
      let d = record x.dxl { torque_request = TorqueRequest.none } in
      if f.estop
      then record x { dxl = d }
      else if d.reinit_requested
      then record x { dxl = d }
      else record x { dxl = d; bus = set_torque_all hal d x.bus true }
  serve_torque TorqueRequest.disable f x =
      let d = record x.dxl { torque_request = TorqueRequest.none } in
      record x { dxl = d; bus = set_torque_all hal d x.bus false }

  -- `dynamixel_send_sensor_report` within the pass.
  pub report : List ℕ → List SyncResult → ℕ → Frame S → Frame S
  report ids results count x =
      let (d, o) = dynamixel_send_sensor_report token ids results count x.dxl x.outgoing in
      record x { dxl = d; outgoing = o }

  -- The branch without power: a report of servos that are all offline, every 50 frames.
  pub offline : Bool → Frame S → Frame S
  offline got_offline x =
      let ids = if got_offline then sync_ids x.dxl.motors else [] in
      let reported = if ltb 0 (length ids) then report ids [] 0 x else x in
      let x' = if x.frame_counter % offline_interval_frames == 0 then reported else x in
      record x' { frame_counter = (x.frame_counter + 1) % 4294967296 }

  -- The pending re-initialization; the request is cleared before the work.
  pub serve_reinit : Flags → Frame S → Frame S
  serve_reinit f x =
      let (d, b) =
        reinitialize_all hal f.estop f.first_frame (record x.dxl { reinit_requested = false })
          x.bus in
      if x.dxl.reinit_requested then record x { dxl = d; bus = b } else x

  -- The positions are sent, if the map could be read and has a motor.
  pub write_positions : List DxlMotor → Frame S → Frame S
  write_positions ms x =
      let (_, b) = dxl_sync_write_position hal x.bus (sync_positions ms) in
      if ltb 0 (length ms) then record x { bus = b } else x

  -- The telemetry, every 10 frames.
  pub telemetry : List DxlMotor → Frame S → Frame S
  telemetry ms x =
      let ids = sync_ids ms in
      let (res, results, count, b) = dxl_sync_read_status hal x.bus ids x.sync_results in
      let failed = not (is_ok res) || (count == 0) in
      let d =
        if failed
        then record x.dxl { dsense_reads_failed = (x.dxl.dsense_reads_failed + 1) % 4294967296 }
        else x.dxl in
      let read : Frame S = record x { dxl = d; bus = b; sync_results = results } in
      if ltb 0 (length ms) && (x.frame_counter % report_interval_frames == 0)
      then report ids results (if is_ok res then count else 0) read
      else x

  -- The branch with power.
  pub operate : Bool → Flags → Frame S → Frame S
  operate got_map f x =
      let x1 = serve_reinit f x in
      let ms = if got_map then x1.dxl.motors else [] in
      let x2 = telemetry ms (write_positions ms x1) in
      record x2 { frame_counter = (x2.frame_counter + 1) % 4294967296 }

  -- One pass.
  pub task_pass : Bool → Bool → Flags → Frame S → Frame S
  task_pass got_offline got_map f x =
      let x1 = serve_torque x.dxl.torque_request f x in
      let on = f.safe_to_run && ltb 0 (length x1.dxl.motors) in
      let x2 = if on && not (hal.rail_present x1.bus.env) then offline got_offline x1 else x1 in
      if on && hal.rail_present x2.bus.env then operate got_map f x2 else x2
