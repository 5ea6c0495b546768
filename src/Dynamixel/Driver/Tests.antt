-- ===== src/Dynamixel/Driver/Tests.antt =====
-- The theorems on the bus driver at concrete inputs.
use creature_controller.Common.{
  ℕ, ◌+◌, ◌≤◌, ◌≡◌, ◌⊎◌, refl, Bool, true, false, [], ◌∷◌, ◌++◌, reverse, arith, leb, length,
  replicate, take,
}
use creature_controller.Dynamixel.Stuffing.Inverse.{stuffed_size-le}
use creature_controller.Dynamixel.Packet.Roundtrip.{dxl_build_packet_bounds}
use creature_controller.Dynamixel.Packet.{Packet, dxl_ok, timeout}
use creature_controller.Dynamixel.Driver.{Hardware, Driver, Metrics}
use creature_controller.Dynamixel.Driver.Idle.{
  start_alarm, run_alarm, run_alarm_lem, idle_timeout_us, byte_time_us, alarm_period,
  alarm_callback, count_idle,
}
use creature_controller.Dynamixel.Driver.Answers.{blank, Reader, take_answers}
use creature_controller.Dynamixel.Driver.Answers.Laws.{Ended, take_answers_lem}
use creature_controller.Dynamixel.Driver.Answers.Stream.{
  Answer, IsAnswer, sent_packet, packet_read, wire_of, stream, take_answers-stream,
}
use creature_controller.Dynamixel.Driver.Multi.{dxl_hal_txrx_multi}
use creature_controller.Dynamixel.Driver.Scan.{
  FirstHeader, find_packet_header, find_packet_header_lem,
}
use creature_controller.Dynamixel.Driver.Init.{
  Resource, alarm_pool, acquired, dxl_hal_init, dxl_hal_init_lem,
}
use creature_controller.Dynamixel.Driver.Transfer.{transmit, dxl_hal_tx, dxl_hal_txrx}
use creature_controller.Dynamixel.Driver.Transfer.Reception.{transmit_lem}
use creature_controller.Dynamixel.Driver.Transfer.Released.{IsReleased, transactions_release}

-- A servo that answers with a temperature, behind a byte of noise.
abbrev answer : Answer
answer = record { noise = 7 ∷ []; id = 3; error = 0; values = 41 ∷ [] }

answer-IsAnswer : IsAnswer answer
answer-IsAnswer = record {
  clean = (omega arith, tt);
  flags = omega arith;
  whole = record { params_fit = omega arith };
  fits = omega (arith, stuffed_size-le (0 ∷ 41 ∷ []) []);
}

-- The line on which that answer comes.
abbrev hardware : Hardware Unit
hardware = record {
  turns = λ e. 2;
  tx_full = λ e. (false, e);
  tx_empty = λ e. (true, e);
  put = λ e b. e;
  busy_wait = λ e us. e;
  rx_empty = λ e. true;
  rx_get = λ e. e;
  dma_start = λ e n. e;
  dma_abort = λ e. e;
  received = λ e. answer.noise ++ wire_of answer;
  take_mutex = λ e. (true, e);
  give_mutex = λ e. e;
  add_alarm = λ e us. (true, e);
  cancel_alarm = λ e. e;
  alarm_gap = λ e. e;
  delay_tick = λ e. e;
}

abbrev no_metrics : Metrics
no_metrics = record {
  tx_packets = 0;
  rx_packets = 0;
  servo_errors = 0;
  crc_errors = 0;
  timeouts = 0;
  rx_noise_bytes = 0;
}

abbrev driver : Driver Unit
driver = record {
  env = tt;
  baud_rate = 1000000;
  tx_enabled = false;
  tx_drives = false;
  rx_enabled = false;
  held = 0;
  line = [];
  last_servo_error = 0;
  metrics = no_metrics;
}

abbrev ping : Packet
ping = record { id = 3; instruction = 1; error = 0; params = [] }

answer_fits : length (wire_of answer) ≤ 15
answer_fits = ground (
  arith,
  dxl_build_packet_bounds (sent_packet answer) answer-IsAnswer.whole 256,
  stuffed_size-le (0 ∷ 41 ∷ []) [],
)

-- A line that is slower than the looks at it: its state is the number of bytes received since the DMA
-- channel was started, five more with each wait.
abbrev slow_line : Hardware ℕ
slow_line = record {
  turns = λ e. 20;
  tx_full = λ e. (false, e);
  tx_empty = λ e. (true, e);
  put = λ e b. e;
  busy_wait = λ e us. e + 5;
  rx_empty = λ e. true;
  rx_get = λ e. e;
  dma_start = λ e n. 0;
  dma_abort = λ e. e;
  received = λ e. take e (answer.noise ++ wire_of answer);
  take_mutex = λ e. (true, e);
  give_mutex = λ e. e;
  add_alarm = λ e us. (true, e);
  cancel_alarm = λ e. e;
  alarm_gap = λ e. e;
  delay_tick = λ e. e;
}

abbrev slow_driver : Driver ℕ
slow_driver = record {
  env = 0;
  baud_rate = 1000000;
  tx_enabled = false;
  tx_drives = false;
  rx_enabled = false;
  held = 0;
  line = [];
  last_servo_error = 0;
  metrics = no_metrics;
}

transmit_lem_example :
    let (res, d') = transmit hardware (1 ∷ 2 ∷ []) driver in
    ((res ≡ dxl_ok) × (d'.line ≡ 2 ∷ 1 ∷ []) × (d'.metrics ≡ record no_metrics { tx_packets = 1 }))
    ⊎ ((res ≡ timeout)
        × ((k : ℕ) × (d'.line ≡ reverse (take k (1 ∷ 2 ∷ [])) ++ []))
        × (d'.metrics ≡ no_metrics))
transmit_lem_example = transmit_lem hardware (1 ∷ 2 ∷ []) driver

transactions_release_example :
    let after_tx = (dxl_hal_tx hardware ping driver).1 in
    let after_txrx = (dxl_hal_txrx hardware ping blank driver).2 in
    let after_multi = (dxl_hal_txrx_multi hardware ping 4 1 (blank ∷ []) driver).1 in
    (IsReleased hardware after_tx × (after_tx.held ≡ 0))
    × (IsReleased hardware after_txrx × (after_txrx.held ≡ 0))
    × (IsReleased hardware after_multi × (after_multi.held ≡ 0))
transactions_release_example =
    transactions_release hardware ping blank 4 1 (blank ∷ []) driver (refl, refl, refl)

find_packet_header_lem_example :
    FirstHeader
      (answer.noise ++ wire_of answer)
      16
      0
      256
      (find_packet_header (answer.noise ++ wire_of answer) 16 0 256)
find_packet_header_lem_example = find_packet_header_lem (answer.noise ++ wire_of answer) 16 0 256

-- The array of packets before the answers come.
abbrev fresh : Reader
fresh = record { offset = 0; count = 0; rx_pkts = blank ∷ blank ∷ []; metrics = no_metrics }

take_answers_lem_example : Ended (wire_of answer) 2 fresh (take_answers 15 (wire_of answer) 2 fresh)
take_answers_lem_example =
    take_answers_lem 15 (wire_of answer) 2 fresh (omega (arith, answer_fits)) (omega arith)
      (omega arith)

take_answers-stream_example :
    let r' =
      take_answers
        (length (stream (answer ∷ answer ∷ [])))
        (stream (answer ∷ answer ∷ []))
        2
        fresh in
    (r'.count ≡ 2) × (take 2 r'.rx_pkts ≡ packet_read answer ∷ packet_read answer ∷ [])
take_answers-stream_example =
    take_answers-stream (answer ∷ answer ∷ []) 2 (blank ∷ blank ∷ []) no_metrics
      (answer-IsAnswer, (answer-IsAnswer, tt)) (omega arith) (omega arith)

run_alarm_lem_example :
    (run_alarm ((60 ∷ 50 ∷ 50 ∷ 50 ∷ 48 ∷ []) ++ replicate 20 45) (start_alarm 1000000 60)).1
    ≡ leb ((start_alarm 1000000 60).idle_limit + 1) 20
unfolding run_alarm start_alarm idle_timeout_us byte_time_us alarm_period alarm_callback count_idle
run_alarm_lem_example =
    run_alarm_lem 1000000 60 48 45 20 (60 ∷ 50 ∷ 50 ∷ 50 ∷ []) refl (omega arith) (omega arith)

-- Everything is granted but the alarm pool.
abbrev grants : Resource → Bool
grants alarm_pool = false
grants _ = true

dxl_hal_init_lem_example :
    let (done, held') = dxl_hal_init grants [] in
    ((done ≡ true) × (held' ≡ acquired)) ⊎ ((done ≡ false) × (held' ≡ []))
dxl_hal_init_lem_example = dxl_hal_init_lem grants []
