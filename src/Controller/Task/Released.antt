-- ===== src/Controller/Task/Released.antt =====
-- A pending request for torque off reaches every servo in the next pass of
-- `dynamixel_controller_task`, firmware/src/controller/controller.c.
use creature_controller.Common.{
  ℕ, ◌≡◌, refl, subst, sym, Bool, true, false, not, ◌&&◌, ◌||◌, List, Option, All,
}
use creature_controller.Dynamixel.Bus.{Hal}
use creature_controller.Dynamixel.Sync.{SyncResult}
use creature_controller.Controller.Servos.{DxlMotor, TorqueRequest, set_torque_all}
use creature_controller.Controller.Servos.Torque.{IsAllowed, is_confirmed}
use creature_controller.Controller.Servos.Released.{
  torque_off, Puts, Puts-then, All-map, set_torque_all-Puts,
}
use creature_controller.Controller.Lifecycle.{Flags}
use creature_controller.Controller.Task.{Frame, serve_torque, task_pass}
use creature_controller.Controller.Task.Safety.{task_pass_sent}

module _ {S : Type 0} (hal : Hal S) (token : ℕ → Option SyncResult → List ℕ) where
  -- What a pass works on when it has served a request for torque off.
  released : Frame S → Frame S
  released x = record x {
    dxl = record x.dxl { torque_request = TorqueRequest.none };
    bus = set_torque_all hal (record x.dxl { torque_request = TorqueRequest.none }) x.bus false;
  }

  pass_from :
      (got_offline got_map : Bool) (f : Flags) (x : Frame S)
      → x.dxl.torque_request ≡ TorqueRequest.disable
      → task_pass hal token got_offline got_map f x
        ≡ task_pass hal token got_offline got_map f (released x)
  unfolding task_pass serve_torque released
  pass_from got_offline got_map f x asked = rw asked refl

  -- A pass that finds a request for torque off writes 0 to the Torque Enable register of every servo.
  pub task_pass-Puts :
      (got_offline got_map : Bool) (f : Flags) (x : Frame S)
      → ((e : S) → hal.rail_present e ≡ true)
      → x.dxl.ready ≡ true
      → x.dxl.torque_request ≡ TorqueRequest.disable
      → All
          (λ (m : DxlMotor).
            Puts (torque_off m.dxl_id) x.bus (task_pass hal token got_offline got_map f x).bus)
          x.dxl.motors
  unfolding released
  task_pass-Puts got_offline got_map f x up ready asked =
      subst
        (λ (y : Frame S).
          All (λ (m : DxlMotor). Puts (torque_off m.dxl_id) x.bus y.bus) x.dxl.motors)
        (sym (pass_from got_offline got_map f x asked))
        (All-map hal up (λ m. Puts (torque_off m.dxl_id) x.bus (released x).bus)
          (λ m. Puts (torque_off m.dxl_id) x.bus end.bus) x.dxl.motors
          (λ m h.
            Puts-then (torque_off m.dxl_id)
              (IsAllowed (λ id.
                not f.estop
                && (is_confirmed x.dxl.motors id
                    || (f.first_frame && is_confirmed end.dxl.motors id))))
              x.bus (released x).bus end.bus h
              (task_pass_sent hal token got_offline got_map f (released x)))
          (set_torque_all-Puts hal up (released x).dxl x.bus ready))
    where
      end : Frame S
      end = task_pass hal token got_offline got_map f (released x)
