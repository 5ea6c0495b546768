-- ===== src/System/Sound.antt =====
-- What holds of the board in every state that the tasks lead to.
use creature_controller.Common.{
  ℕ, Bool, true, false, not, List, [], ◌∷◌, Option, refl, if◌then◌else◌, if_both,
}
use creature_controller.Dynamixel.Bus.{Hal}
use creature_controller.Dynamixel.Sync.{SyncResult}
use creature_controller.Controller.Isr.{Watchdog, count_wrap, on_pwm_wrap_handler}
use creature_controller.Controller.Motors.{Pwm, drive_motors}
use creature_controller.Controller.Power.Keeps.{same_settings-IsSafe}
use creature_controller.Controller.Servos.{Dxl}
use creature_controller.Controller.Servos.Map.{IsValid}
use creature_controller.Controller.Lifecycle.{
  Flags, configuring, init_message, is_configuring, controller_connected, controller_disconnected,
  controller_reset_request_check, controller_motor_power_sample, send_init_request,
}
use creature_controller.Controller.Lifecycle.Queue.{send_to_controller-IsBounded}
use creature_controller.Controller.Task.Kept.{task_pass-IsFit}
use creature_controller.Messaging.Handlers.Motion.{IsSound}
use creature_controller.Messaging.Handlers.Orderly.{IsGated, IsOrderly}
use creature_controller.Messaging.Processor.Safety.{incoming_messages_safe}
use creature_controller.Messaging.Processor.Orderly.{incoming_messages-IsOrderly}
use creature_controller.Messaging.Outgoing.Delivery.{send_round-IsBounded}
use creature_controller.System.{
  System, Step, receiving, passing, wrapping, beating, connecting, disconnecting, checking_pin,
  asking, sampling, outside, sending, Reach, here, later, receive, pass, wrap, sample, frame_of,
  sender_of, on_board,
}

-- The PWM motors are at rest or within their limits, the Dynamixel map is well formed, the board may
-- move exactly while it runs, the motors are wired as at boot, and the outgoing queue is within its
-- bounds.
pub record IsRegular {S : Type 0} (ticks : ℕ → ℕ → ℕ → ℕ) (x : System S) : Type 0 where
  pub sound : IsSound ticks x.link.board
  pub order : IsOrderly x.link.board

connected-IsGated : (f : Flags) → IsGated (controller_connected f)
unfolding controller_connected
connected-IsGated f = (λ e. absurd (cc), λ e. absurd (cc))

check-IsGated :
    (level : Bool) (f : Flags) → IsGated f → IsGated (controller_reset_request_check level f)
unfolding controller_reset_request_check
check-IsGated level f h =
    if_both IsGated (not level) f (if is_configuring f.state then f else reset) h
      (if_both IsGated (is_configuring f.state) f reset h (λ e. absurd (cc), λ e. absurd (cc)))
  where
    reset : Flags
    reset = record f { safe_to_run = false; state = configuring; init_timer = true }

module _ {S V : Type 0} (hal : Hal S) (ticks : ℕ → ℕ → ℕ → ℕ)
    (token : ℕ → Option SyncResult → List ℕ) (gate : Bool) (lost restored : V → Bool) where
  sample-IsValid :
      (v : V) (rail : Bool) (d : Dxl)
      → IsValid d
      → IsValid (controller_motor_power_sample lost restored v rail d).1
  unfolding controller_motor_power_sample
  sample-IsValid v true d h =
      if_both (λ (r : Bool × Dxl). IsValid r.1) (lost v) (false, d) (true, d) h h
  sample-IsValid v false d h =
      if_both (λ (r : Bool × Dxl). IsValid r.1) (restored v)
        (true, record d { reinit_requested = true }) (false, d) h h

  -- Each step keeps the board regular.
  Step-IsRegular :
      {x y : System S}
      → Step hal ticks token gate lost restored x y
      → IsRegular ticks x
      → IsRegular ticks y
  unfolding receive pass wrap sample on_pwm_wrap_handler controller_disconnected send_init_request
  Step-IsRegular {x = x} (receiving now raw) h = record {
    sound = (incoming_messages_safe hal ticks ((now, raw) ∷ []) x.link h.sound).0;
    order = incoming_messages-IsOrderly hal ticks ((now, raw) ∷ []) x.link h.order;
  }
  Step-IsRegular {x = x} (passing got_offline got_map) h =
      let fit =
        task_pass-IsFit hal token got_offline got_map x.link.board.flags (frame_of x)
          (h.sound.1, h.order.bounded) in
      record {
        sound = (h.sound.0, fit.0);
        order = record { gated = h.order.gated; wired = h.order.wired; bounded = fit.1 };
      }
  Step-IsRegular {x = x} wrapping h =
      if_both
        (λ (p : Pwm).
          IsRegular ticks (on_board (λ c. record c { pwm = p }) (record x { watchdog = w })))
        x.link.board.flags.safe_to_run driven x.link.board.pwm
        (record {
          sound = (same_settings-IsSafe ticks x.link.board.pwm driven refl h.sound.0, h.sound.1);
          order = record {
            gated = h.order.gated;
            wired = h.order.wired;
            bounded = h.order.bounded;
          };
        })
        (record { sound = h.sound; order = h.order })
    where
      w : Watchdog
      w = count_wrap gate x.watchdog

      driven : Pwm
      driven = record x.link.board.pwm {
        level = drive_motors x.link.board.pwm.motor_map x.link.board.pwm.level;
      }
  Step-IsRegular {x = x} beating h = record { sound = h.sound; order = h.order }
  Step-IsRegular {x = x} connecting h = record {
    sound = h.sound;
    order = record {
      gated = connected-IsGated x.link.board.flags;
      wired = h.order.wired;
      bounded = h.order.bounded;
    };
  }
  Step-IsRegular {x = x} disconnecting h = record {
    sound = (h.sound.0, h.sound.1);
    order = record {
      gated = (λ e. absurd (cc), λ e. absurd (cc));
      wired = h.order.wired;
      bounded = h.order.bounded;
    };
  }
  Step-IsRegular {x = x} (checking_pin level) h = record {
    sound = h.sound;
    order = record {
      gated = check-IsGated level x.link.board.flags h.order.gated;
      wired = h.order.wired;
      bounded = h.order.bounded;
    };
  }
  Step-IsRegular {x = x} (asking e) h = record {
    sound = h.sound;
    order = record {
      gated = h.order.gated;
      wired = h.order.wired;
      bounded = send_to_controller-IsBounded x.link.board.outgoing init_message h.order.bounded;
    };
  }
  Step-IsRegular {x = x} (sampling v e r) h = record {
    sound =
        (h.sound.0, sample-IsValid v (hal.rail_present x.link.bus.env) x.link.board.dxl h.sound.1);
    order = record { gated = h.order.gated; wired = h.order.wired; bounded = h.order.bounded };
  }
  Step-IsRegular {x = x} (outside e r) h = record { sound = h.sound; order = h.order }
  Step-IsRegular {x = x} sending h = record {
    sound = h.sound;
    order = record {
      gated = h.order.gated;
      wired = h.order.wired;
      bounded = send_round-IsBounded (sender_of x) h.order.bounded;
    };
  }

  -- From a regular board on, after whatever sequence of operations of the tasks, timers, interrupts and
  -- the outside, each taken as a whole: of every PWM motor, the pulse noted and the position that drives it
  -- are both zero, or the pulse is within the motor's limits and the position is that pulse in counter
  -- ticks of 16 bits; the Dynamixel map is well formed, the board may move exactly if its state is
  -- `running`, the motors stay wired as at boot, and at most 15 messages of at most 382 bytes wait for the
  -- host. Nothing is said of a moment within an operation, where the state and the permission to move are
  -- written one after the other.
  pub Reach-IsRegular :
      {x y : System S}
      → IsRegular ticks x
      → Reach hal ticks token gate lost restored x y
      → IsRegular ticks y
  Reach-IsRegular h here = h
  Reach-IsRegular h (later r s) = Step-IsRegular s (Reach-IsRegular h r)
