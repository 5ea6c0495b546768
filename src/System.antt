-- ===== src/System.antt =====
-- The whole board: the tasks, timers and interrupts of the firmware over the state they share, as a
-- step relation. Each message, each pass of the Dynamixel task and each callback is one step, and the
-- steps come in any order: firmware/src/io/message_processor.c, firmware/src/controller/controller.c,
-- firmware/src/watchdog/watchdog.c.
pub mod Sound
pub mod Stopped
pub mod Released
pub mod Phases
mod Tests
use creature_controller.Common.{ℕ, Bool, true, List, [], ◌∷◌, Option, ◌≡◌}
use creature_controller.Dynamixel.Bus.{Hal, Bus}
use creature_controller.Dynamixel.Sync.{SyncResult}
use creature_controller.Controller.Isr.{Watchdog, heartbeat, on_pwm_wrap_handler}
use creature_controller.Controller.Lifecycle.{
  Flags, Board, Outgoing, controller_connected, controller_disconnected,
  controller_reset_request_check, controller_motor_power_sample, send_init_request,
}
use creature_controller.Controller.Task.{Frame, task_pass}
use creature_controller.Messaging.Processor.{Link, incoming_messages}
use creature_controller.Messaging.Outgoing.{Sender, send_round}

-- The board with what the message task counts, the Dynamixel task's own variables, the watchdog, and
-- the lines for USB.
pub record System (S : Type 0) : Type 0 where
  pub link : Link S
  pub frame_counter : ℕ
  pub sync_results : List SyncResult
  pub watchdog : Watchdog
  pub usb : List (List ℕ)
  pub messages_sent : ℕ

module _ {S : Type 0} where
  -- An operation on the board.
  abbrev pub on_board : (Board → Board) → System S → System S
  on_board f x = record x { link = record x.link { board = f x.link.board } }

  abbrev pub on_flags : (Flags → Flags) → System S → System S
  on_flags f x = on_board (λ c. record c { flags = f c.flags }) x

  -- What the Dynamixel task works on, and where its results go.
  abbrev pub frame_of : System S → Frame S
  frame_of x = record {
    dxl = x.link.board.dxl;
    outgoing = x.link.board.outgoing;
    frame_counter = x.frame_counter;
    sync_results = x.sync_results;
    bus = x.link.bus;
  }

  abbrev pub put_frame : Frame S → System S → System S
  put_frame y x = record x {
    link = record x.link {
      board = record x.link.board { dxl = y.dxl; outgoing = y.outgoing };
      bus = y.bus;
    };
    frame_counter = y.frame_counter;
    sync_results = y.sync_results;
  }

  -- What the outgoing task works on, and where its results go.
  abbrev pub sender_of : System S → Sender
  sender_of x = record {
    outgoing = x.link.board.outgoing;
    usb = x.usb;
    messages_sent = x.messages_sent;
  }

  abbrev pub put_sender : Sender → System S → System S
  put_sender s x = record x {
    link = record x.link { board = record x.link.board { outgoing = s.outgoing } };
    usb = s.usb;
    messages_sent = s.messages_sent;
  }

-- The parameters: the outside, the conversion to ticks, the text of a reading, the build's watchdog
-- gate, and the comparisons of the rail's voltage.
module _ {S V : Type 0} (hal : Hal S) (ticks : ℕ → ℕ → ℕ → ℕ)
    (token : ℕ → Option SyncResult → List ℕ) (health_gate : Bool) (lost restored : V → Bool) where
  -- `incoming_message_processor_task` with the next message.
  unfoldable pub receive : ℕ → List ℕ → System S → System S
  receive now raw x = record x { link = incoming_messages hal ticks ((now, raw) ∷ []) x.link }

  -- `dynamixel_controller_task` with its next pass, as a whole: no other task writes a flag meanwhile.
  unfoldable pub pass : Bool → Bool → System S → System S
  pass got_offline got_map x =
      put_frame (task_pass hal token got_offline got_map x.link.board.flags (frame_of x)) x

  -- The PWM wrap interrupt.
  unfoldable pub wrap : System S → System S
  wrap x =
      let (p, w) =
        on_pwm_wrap_handler health_gate x.link.board.flags.safe_to_run x.link.board.pwm
          x.watchdog in
      on_board (λ c. record c { pwm = p }) (record x { watchdog = w })

  -- The sensor task has measured `v`, and the rail is as the sample says, in the outside `e`.
  unfoldable pub sample : V → S → System S → System S
  sample v e x = record x {
    link = record x.link {
      board = record x.link.board {
        dxl =
            (controller_motor_power_sample lost restored v (hal.rail_present x.link.bus.env)
              x.link.board.dxl).1;
      };
      bus = record x.link.bus { env = e };
    };
  }

  -- One step of some task, timer or interrupt, or of the outside.
  pub data Step (x : System S) : System S → Type 0 where
    receiving : (now : ℕ) (raw : List ℕ) → Step x (receive now raw x)
    passing : (got_offline got_map : Bool) → Step x (pass got_offline got_map x)
    wrapping : Step x (wrap x)
    beating : Step x (record x { watchdog = heartbeat x.watchdog })
    connecting : Step x (on_flags controller_connected x)
    disconnecting : Step x (on_board controller_disconnected x)
    checking_pin : (level : Bool) → Step x (on_flags (controller_reset_request_check level) x)
    asking :
        x.link.board.flags.init_timer ≡ true
        → Step x (on_board (λ c. record c { outgoing = send_init_request c.outgoing }) x)
    sampling :
        (v : V) (e : S)
        → hal.rail_present e
          ≡ (controller_motor_power_sample lost restored v
              (hal.rail_present x.link.bus.env)
              x.link.board.dxl).0
        → Step x (sample v e x)
    outside :
        (e : S)
        → hal.rail_present e ≡ hal.rail_present x.link.bus.env
        → Step x (record x { link = record x.link { bus = record x.link.bus { env = e } } })
    sending : Step x (put_sender (send_round (sender_of x)) x)

  -- The systems that steps lead to from `x`.
  pub data Reach (x : System S) : System S → Type 0 where
    here : Reach x x
    later : {y z : System S} → Reach x y → Step y z → Reach x z
