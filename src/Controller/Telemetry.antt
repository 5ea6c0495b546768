-- ===== src/Controller/Telemetry.antt =====
-- The sensor report of the Dynamixel servos, `dynamixel_send_sensor_report` of
-- firmware/src/controller/controller.c.
pub mod Report
use creature_controller.Common.{
  ℕ, ◌+◌, ◌-◌, ◌%◌, Bool, true, false, not, ◌&&◌, List, [], ◌∷◌, ◌++◌, Option, none, some, ltb,
  ◌==◌, if◌then◌else◌, length, take,
}
use creature_controller.Dynamixel.Sync.{SyncResult}
use creature_controller.Controller.Servos.{Dxl}
use creature_controller.Controller.Lifecycle.{
  Outgoing, outgoing_message_max_length, send_to_controller,
}

-- `DXL_SENSOR_REPORT_TOKEN_MAX`.
abbrev pub token_max : ℕ
token_max = 45

-- The inner loop: the first result of that id that is valid.
pub find_reading : ℕ → List SyncResult → Option SyncResult
find_reading id [] = none
find_reading id (r ∷ rs) =
    let rest = find_reading id rs in if (r.id == id) && r.valid then some r else rest

abbrev pub dsense : List ℕ
dsense = b'D' ∷ b'S' ∷ b'E' ∷ b'N' ∷ b'S' ∷ b'E' ∷ []

-- `token` is the text that `snprintf` prints of an id and its reading, or of a servo without one; it
-- formats a temperature as a floating-point number.
module _ (token : ℕ → Option SyncResult → List ℕ) where
  -- The loop over the ids, with `offset` and the text so far. `snprintf` keeps what fits.
  pub report_loop : List ℕ → List SyncResult → ℕ → List ℕ → List ℕ
  report_loop [] results offset text = text
  report_loop (id ∷ ids) results offset text =
      let t = token id (find_reading id results) in
      let rest =
        report_loop ids results (offset + length t)
          (text ++ take (outgoing_message_max_length - offset - 1) t) in
      if ltb offset (outgoing_message_max_length - token_max) then rest else text

  -- The message for these ids, of the first `count` results.
  pub sensor_report : List ℕ → List SyncResult → ℕ → List ℕ
  sensor_report ids results count = report_loop ids (take count results) 6 dsense

  -- `dynamixel_send_sensor_report`.
  unfoldable pub dynamixel_send_sensor_report :
      List ℕ → List SyncResult → ℕ → Dxl → Outgoing → Dxl × Outgoing
  dynamixel_send_sensor_report ids results count d o =
      let (o', sent) = send_to_controller o (sensor_report ids results count) in
      (
        if sent
            then record d { dsense_messages_sent = (d.dsense_messages_sent + 1) % 4294967296 }
            else record d { dsense_sends_dropped = (d.dsense_sends_dropped + 1) % 4294967296 },
        o',
      )
