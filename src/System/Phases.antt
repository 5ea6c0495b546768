-- ===== src/System/Phases.antt =====
-- The life of the board as its users see it: an abstract state machine, and the proof that every step of
-- the board is one of its moves.
use creature_controller.Common.{
  ℕ, ◌≡◌, Bool, true, false, not, ◌&&◌, List, [], ◌∷◌, Option, if◌then◌else◌, if_both, if_split,
  refl,
}
use creature_controller.Dynamixel.Bus.{Hal}
use creature_controller.Dynamixel.Sync.{SyncResult}
use creature_controller.Controller.Lifecycle.{
  Flags, FirmwareState, idle, configuring, running, errored_out, is_configuring,
  controller_connected, controller_disconnected, controller_reset_request_check,
}
use creature_controller.Messaging.Handlers.Flags.{Change, same, configured, framed, stopping}
use creature_controller.Messaging.Handlers.Orderly.{IsGated}
use creature_controller.Messaging.Processor.{incoming_messages}
use creature_controller.Messaging.Processor.Changes.{incoming_message-Change}
use creature_controller.System.Sound.{IsRegular, Reach-IsRegular}
use creature_controller.System.{
  System, Step, receiving, passing, wrapping, beating, connecting, disconnecting, checking_pin,
  asking, sampling, outside, sending, Reach, here, later, receive, pass, wrap, sample,
}

-- What the board is up to: no host; a host that has to configure it; configured, and waiting for the
-- first frame; moving; stopped for good.
pub data Phase : Type 0 where
  unplugged waiting armed moving halted : Phase

-- What makes the board change its phase: a message, the host that comes or goes, the reset pin that is
-- asserted; or nothing that does.
pub data Cause : Type 0 where
  message connect disconnect reset_pin other : Cause

abbrev Live : Phase → Type 0
Live p = ¬ (p ≡ Phase.halted)

-- The abstract machine. A host that comes, a host that goes and the reset pin each lead from any live phase
-- to one phase; all else but a message changes nothing. Only a message arms the board, lets it move, or stops
-- it; it moves at once after a configuration only if it had a host; and nothing leads out of the emergency
-- stop.
pub data Move : Cause → Phase → Phase → Type 0 where
  idling : {p : Phase} → Move Cause.other p p
  final : {c : Cause} → Move c Phase.halted Phase.halted
  unplug : {p : Phase} → Live p → Move Cause.disconnect p Phase.unplugged
  plug : {p : Phase} → Live p → Move Cause.connect p Phase.waiting
  reset : {p : Phase} → Live p → Move Cause.reset_pin p Phase.waiting
  ignored : {p : Phase} → Move Cause.message p p
  arm_unplugged : Move Cause.message Phase.unplugged Phase.armed
  arm : Move Cause.message Phase.waiting Phase.armed
  resume : Move Cause.message Phase.waiting Phase.moving
  start : Move Cause.message Phase.armed Phase.moving
  halt : {p : Phase} → Move Cause.message p Phase.halted

-- The phases that the abstract machine may reach for these causes, the last one first.
pub data Moves (p : Phase) : List Cause → Phase → Type 0 where
  none_yet : Moves p [] p
  then_move :
      {c : Cause} {cs : List Cause} {q r : Phase} → Moves p cs q → Move c q r → Moves p (c ∷ cs) r

abbrev pub live_phase : FirmwareState → Bool → Phase
live_phase idle first = Phase.unplugged
live_phase configuring first = Phase.waiting
live_phase errored_out first = Phase.waiting
live_phase running first = if first then Phase.moving else Phase.armed

abbrev pub phase : FirmwareState → Bool → Bool → Phase
phase s first true = Phase.halted
phase s first false = live_phase s first

abbrev pub phase_of : Flags → Phase
phase_of f = phase f.state f.first_frame f.estop

live_phase-Live : (s : FirmwareState) (first : Bool) → Live (live_phase s first)
live_phase-Live idle first e = absurd (cc)
live_phase-Live configuring first e = absurd (cc)
live_phase-Live errored_out first e = absurd (cc)
live_phase-Live running true e = absurd (cc)
live_phase-Live running false e = absurd (cc)

-- Without a host no first frame has come.
abbrev is_idle : FirmwareState → Bool
is_idle idle = true
is_idle _ = false

abbrev pub IsHostless : Flags → Type 0
IsHostless f = (is_idle f.state && f.first_frame) ≡ false

unplug_from :
    (s : FirmwareState) (a e : Bool) → Move Cause.disconnect (phase s a e) (phase idle false e)
unplug_from s a true = final
unplug_from s a false = unplug (live_phase-Live s a)

plug_from :
    (s : FirmwareState) (a e : Bool) → Move Cause.connect (phase s a e) (phase configuring a e)
plug_from s a true = final
plug_from s a false = plug (live_phase-Live s a)

reset_from :
    (s : FirmwareState) (a e : Bool) → Move Cause.reset_pin (phase s a e) (phase configuring a e)
reset_from s a true = final
reset_from s a false = reset (live_phase-Live s a)

configure_from :
    (s : FirmwareState) (a e : Bool)
    → (is_idle s && a) ≡ false
    → Move Cause.message (phase s a e) (phase running a e)
configure_from s a true h = ignored
configure_from idle true false h = absurd (cc)
configure_from idle false false h = arm_unplugged
configure_from configuring true false h = resume
configure_from configuring false false h = arm
configure_from errored_out true false h = resume
configure_from errored_out false false h = arm
configure_from running a false h = ignored

start_from : (e : Bool) → Move Cause.message (phase running false e) (phase running true e)
start_from true = ignored
start_from false = start

-- A change of the flags by a message is a move of the abstract machine.
Change-Move :
    (f f' : Flags) → IsHostless f → Change f f' → Move Cause.message (phase_of f) (phase_of f')
Change-Move f f' h (same s a e) = rw (s, a, e) ignored
Change-Move f f' h (configured s a e) =
    rw (s, a, e) (configure_from f.state f.first_frame f.estop h)
Change-Move f f' h (framed r s b a e) = rw (s, a, e, b, r) (start_from f.estop)
Change-Move f f' h (stopping s a e) = rw e halt

Change-IsHostless : (f f' : Flags) → IsHostless f → Change f f' → IsHostless f'
Change-IsHostless f f' h (same s a e) = rw (s, a) h
Change-IsHostless f f' h (configured s a e) = rw s refl
Change-IsHostless f f' h (framed r s b a e) = rw (s, r) refl
Change-IsHostless f f' h (stopping s a e) = rw (s, a) h

configuring_lem : (s : FirmwareState) → is_configuring s ≡ true → s ≡ configuring
configuring_lem idle e = absurd (cc)
configuring_lem configuring e = refl
configuring_lem running e = absurd (cc)
configuring_lem errored_out e = absurd (cc)

-- The pin is asserted where its level is high.
abbrev pin_cause : Bool → Cause
pin_cause true = Cause.reset_pin
pin_cause false = Cause.other

check-Move :
    (level : Bool) (f : Flags)
    → Move (pin_cause level) (phase_of f) (phase_of (controller_reset_request_check level f))
unfolding controller_reset_request_check
check-Move false f = idling
check-Move true f =
    if_split K (is_configuring f.state) f restart
      (λ already.
        rw (configuring_lem f.state already) (reset_from configuring f.first_frame f.estop))
      (λ new. reset_from f.state f.first_frame f.estop)
  where
    restart : Flags
    restart = record f { safe_to_run = false; state = configuring; init_timer = true }

    K : Flags → Type 0
    K g = Move Cause.reset_pin (phase_of f) (phase_of g)

check-IsHostless :
    (level : Bool) (f : Flags) → IsHostless f → IsHostless (controller_reset_request_check level f)
unfolding controller_reset_request_check
check-IsHostless level f h =
    if_both IsHostless (not level) f (if is_configuring f.state then f else restart) h
      (if_both IsHostless (is_configuring f.state) f restart h refl)
  where
    restart : Flags
    restart = record f { safe_to_run = false; state = configuring; init_timer = true }

module _ {S V : Type 0} (hal : Hal S) (ticks : ℕ → ℕ → ℕ → ℕ)
    (token : ℕ → Option SyncResult → List ℕ) (gate : Bool) (lost restored : V → Bool) where
  -- Who is behind a step.
  unfoldable pub cause : {x y : System S} → Step hal ticks token gate lost restored x y → Cause
  cause (receiving now raw) = Cause.message
  cause connecting = Cause.connect
  cause disconnecting = Cause.disconnect
  cause (checking_pin level) = pin_cause level
  cause _ = Cause.other

  -- Each step of a regular board on which no first frame has come without a host is a move of the
  -- abstract machine, for the cause of the step; and it keeps to this condition.
  pub Step-Move :
      {x y : System S} (s : Step hal ticks token gate lost restored x y)
      → IsGated x.link.board.flags
      → IsHostless x.link.board.flags
      → Move (cause s) (phase_of x.link.board.flags) (phase_of y.link.board.flags)
        × IsHostless y.link.board.flags
  unfolding cause receive pass wrap sample controller_connected controller_disconnected
  Step-Move {x = x} (receiving now raw) g h =
      let c = incoming_message-Change hal ticks now raw x.link g in
      let f' = (incoming_messages hal ticks ((now, raw) ∷ []) x.link).board.flags in
      (Change-Move x.link.board.flags f' h c, Change-IsHostless x.link.board.flags f' h c)
  Step-Move (passing got_offline got_map) g h = (idling, h)
  Step-Move wrapping g h = (idling, h)
  Step-Move beating g h = (idling, h)
  Step-Move {x = x} connecting g h =
      let f = x.link.board.flags in (plug_from f.state f.first_frame f.estop, refl)
  Step-Move {x = x} disconnecting g h =
      let f = x.link.board.flags in (unplug_from f.state f.first_frame f.estop, refl)
  Step-Move {x = x} (checking_pin level) g h =
      (check-Move level x.link.board.flags, check-IsHostless level x.link.board.flags h)
  Step-Move (asking e) g h = (idling, h)
  Step-Move (sampling v e r) g h = (idling, h)
  Step-Move (outside e r) g h = (idling, h)
  Step-Move sending g h = (idling, h)

  -- The causes of the steps that have led to a state, the last one first.
  unfoldable pub causes :
      {x y : System S} → Reach hal ticks token gate lost restored x y → List Cause
  causes here = []
  causes (later r s) = cause s ∷ causes r

  -- The refinement: from a regular board on which no first frame has come without a host, for whatever
  -- steps of the tasks, timers, interrupts and the outside: the phases of the board are a run of the
  -- abstract machine for exactly the causes of these steps. So between steps of a host, of the pin and of
  -- messages the phase stands still, and each of these leads only where the machine says.
  pub board_refines :
      {x y : System S}
      → IsRegular ticks x
      → IsHostless x.link.board.flags
      → (r : Reach hal ticks token gate lost restored x y)
      → Moves (phase_of x.link.board.flags) (causes r) (phase_of y.link.board.flags)
        × IsHostless y.link.board.flags
  unfolding causes
  board_refines o h here = (none_yet, h)
  board_refines o h (later {y = y} r s) =
      let before = board_refines o h r in
      let regular = Reach-IsRegular hal ticks token gate lost restored o r in
      let one = Step-Move s regular.order.gated before.1 in (then_move before.0 one.0, one.1)
