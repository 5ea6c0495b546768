-- ===== src/Controller/Task/Kept.antt =====
-- What a pass of the Dynamixel task keeps: the map of the servos well formed, and the outgoing queue
-- within its bounds.
use creature_controller.Common.{
  ℕ, ◌+◌, ◌%◌, Bool, true, false, not, ◌&&◌, ◌||◌, List, [], Option, ltb, ◌==◌, if◌then◌else◌,
  length, if_both,
}
use creature_controller.Dynamixel.Packet.{DxlResult}
use creature_controller.Dynamixel.Bus.{Hal, Bus}
use creature_controller.Dynamixel.Servo.{is_ok}
use creature_controller.Dynamixel.Sync.{SyncResult, dxl_sync_write_position, dxl_sync_read_status}
use creature_controller.Controller.Servos.{
  DxlMotor, TorqueRequest, Dxl, set_torque_all, reinitialize_all,
}
use creature_controller.Controller.Servos.Map.{IsValid, reinitialize_all-IsValid}
use creature_controller.Controller.Lifecycle.{Flags, send_to_controller}
use creature_controller.Controller.Lifecycle.Queue.{IsBounded, send_to_controller-IsBounded}
use creature_controller.Controller.Telemetry.{sensor_report, dynamixel_send_sensor_report}
use creature_controller.Controller.Task.{
  Frame, offline_interval_frames, report_interval_frames, sync_positions, sync_ids, serve_torque,
  report, offline, serve_reinit, write_positions, telemetry, operate, task_pass,
}

module _ {S : Type 0} (hal : Hal S) (token : ℕ → Option SyncResult → List ℕ) where
  abbrev pub IsFit : Frame S → Type 0
  IsFit x = IsValid x.dxl × IsBounded x.outgoing

  serve_torque-IsFit :
      (t : TorqueRequest) (f : Flags) (x : Frame S) → IsFit x → IsFit (serve_torque hal token t f x)
  unfolding serve_torque
  serve_torque-IsFit TorqueRequest.none f x h = h
  serve_torque-IsFit TorqueRequest.enable f x h =
      if_both IsFit f.estop (record x { dxl = d })
        (if x.dxl.reinit_requested
          then record x { dxl = d }
          else record x { dxl = d; bus = set_torque_all hal d x.bus true })
        h
        (if_both IsFit x.dxl.reinit_requested (record x { dxl = d })
          (record x { dxl = d; bus = set_torque_all hal d x.bus true }) h h)
    where
      d : Dxl
      d = record x.dxl { torque_request = TorqueRequest.none }
  serve_torque-IsFit TorqueRequest.disable f x h = h

  report-IsFit :
      (ids : List ℕ) (rs : List SyncResult) (n : ℕ) (x : Frame S)
      → IsFit x
      → IsFit (report hal token ids rs n x)
  unfolding report dynamixel_send_sensor_report
  report-IsFit ids rs n x h = (
    if_both IsValid (send_to_controller x.outgoing text).1
        (record x.dxl { dsense_messages_sent = (x.dxl.dsense_messages_sent + 1) % 4294967296 })
        (record x.dxl { dsense_sends_dropped = (x.dxl.dsense_sends_dropped + 1) % 4294967296 }) h.0
        h.0,
    send_to_controller-IsBounded x.outgoing text h.1,
  )
    where
      text : List ℕ
      text = sensor_report token ids rs n

  offline-IsFit : (got : Bool) (x : Frame S) → IsFit x → IsFit (offline hal token got x)
  unfolding offline
  offline-IsFit got x h =
      if_both IsFit (x.frame_counter % offline_interval_frames == 0) reported x
        (if_both IsFit (ltb 0 (length ids)) (report hal token ids [] 0 x) x
          (report-IsFit ids [] 0 x h) h)
        h
    where
      ids : List ℕ
      ids = if got then sync_ids x.dxl.motors else []

      reported : Frame S
      reported = if ltb 0 (length ids) then report hal token ids [] 0 x else x

  serve_reinit-IsFit : (f : Flags) (x : Frame S) → IsFit x → IsFit (serve_reinit hal token f x)
  unfolding serve_reinit
  serve_reinit-IsFit f x h =
      if_both IsFit x.dxl.reinit_requested (record x { dxl = r.0; bus = r.1 }) x
        (reinitialize_all-IsValid hal f.estop f.first_frame d x.bus h.0, h.1) h
    where
      d : Dxl
      d = record x.dxl { reinit_requested = false }

      r : Dxl × Bus S
      r = reinitialize_all hal f.estop f.first_frame d x.bus

  write_positions-IsFit :
      (ms : List DxlMotor) (x : Frame S) → IsFit x → IsFit (write_positions hal token ms x)
  unfolding write_positions
  write_positions-IsFit ms x h =
      if_both IsFit (ltb 0 (length ms))
        (record x { bus = (dxl_sync_write_position hal x.bus (sync_positions ms)).1 }) x h h

  telemetry-IsFit : (ms : List DxlMotor) (x : Frame S) → IsFit x → IsFit (telemetry hal token ms x)
  unfolding telemetry
  telemetry-IsFit ms x h =
      if_both IsFit (ltb 0 (length ms) && (x.frame_counter % report_interval_frames == 0))
        (report hal token (sync_ids ms) r.1 (if is_ok r.0 then r.2 else 0) read) x
        (report-IsFit (sync_ids ms) r.1 (if is_ok r.0 then r.2 else 0) read (valid, h.1)) h
    where
      r : DxlResult × List SyncResult × ℕ × Bus S
      r = dxl_sync_read_status hal x.bus (sync_ids ms) x.sync_results

      failed : Bool
      failed = not (is_ok r.0) || (r.2 == 0)

      counted : Dxl
      counted = record x.dxl { dsense_reads_failed = (x.dxl.dsense_reads_failed + 1) % 4294967296 }

      read : Frame S
      read = record x { dxl = if failed then counted else x.dxl; bus = r.3; sync_results = r.1 }

      valid : IsValid read.dxl
      valid = if_both IsValid failed counted x.dxl h.0 h.0

  operate-IsFit :
      (got : Bool) (f : Flags) (x : Frame S) → IsFit x → IsFit (operate hal token got f x)
  unfolding operate
  operate-IsFit got f x h =
      telemetry-IsFit ms (write_positions hal token ms x1)
        (write_positions-IsFit ms x1 (serve_reinit-IsFit f x h))
    where
      x1 : Frame S
      x1 = serve_reinit hal token f x

      ms : List DxlMotor
      ms = if got then x1.dxl.motors else []

  -- A pass keeps the map of the servos well formed, and the outgoing queue within its bounds.
  pub task_pass-IsFit :
      (got_offline got_map : Bool) (f : Flags) (x : Frame S)
      → IsFit x
      → IsFit (task_pass hal token got_offline got_map f x)
  unfolding task_pass
  task_pass-IsFit got_offline got_map f x h =
      if_both IsFit (on && hal.rail_present x2.bus.env) (operate hal token got_map f x2) x2
        (operate-IsFit got_map f x2 second) second
    where
      x1 : Frame S
      x1 = serve_torque hal token x.dxl.torque_request f x

      first : IsFit x1
      first = serve_torque-IsFit x.dxl.torque_request f x h

      on : Bool
      on = f.safe_to_run && ltb 0 (length x1.dxl.motors)

      x2 : Frame S
      x2 = if on && not (hal.rail_present x1.bus.env) then offline hal token got_offline x1 else x1

      second : IsFit x2
      second =
          if_both IsFit (on && not (hal.rail_present x1.bus.env)) (offline hal token got_offline x1)
            x1 (offline-IsFit got_offline x1 first) first
