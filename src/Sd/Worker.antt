-- ===== src/Sd/Worker.antt =====
-- shared/protocol/include/picosd/protocol/sd_spi_target_worker.hpp: `SdSpiTargetWorker`, between the
-- queues of captured and of outgoing bytes and the card engine. The engine that it refers to is a
-- field. The capacities of the queues are the two parameters of the template.
pub mod Transmit
use pico_sdemu.Common.{
  ℕ, zero, suc, ◌+◌, Bool, true, false, Option, none, some, List, [], ◌∷◌, if◌then◌else◌, ltb,
  length,
}
use pico_sdemu.Queue.{Queue, empty_queue, is_empty, clear, available, try_push, try_pop}
use pico_sdemu.Sd.Storage.{BlockBackend}
use pico_sdemu.Sd.Engine.{
  Engine, EngineOutput, push_byte, poll_pending_io, next_multi_read_block, chip_select_released,
}

pub record WorkerCounters : Type 0 where
  pub received_bytes : ℕ
  pub transmitted_bytes : ℕ
  pub receive_overflows : ℕ
  pub transmit_overflows : ℕ
  pub transmit_underruns : ℕ
  pub timeouts : ℕ

pub record Worker (S : Type 0) : Type 0 where
  pub engine : Engine S
  pub received : Queue ℕ
  pub transmit : Queue ℕ
  pub counters : WorkerCounters

abbrev pub no_counts : WorkerCounters
no_counts = record {
  received_bytes = 0;
  transmitted_bytes = 0;
  receive_overflows = 0;
  transmit_overflows = 0;
  transmit_underruns = 0;
  timeouts = 0;
}

-- The loop of `enqueue_output`.
pub push_all : ℕ → Queue ℕ → List ℕ → Queue ℕ × Bool
push_all capacity q [] = (q, true)
push_all capacity q (byte ∷ bytes) =
    let (q', pushed) = try_push capacity q byte in
    let rest = push_all capacity q' bytes in if pushed then rest else (q', false)

module _ {S : Type 0} where
  pub chip_select_released_worker : Worker S → Worker S
  chip_select_released_worker w = record w {
    received = clear w.received;
    transmit = clear w.transmit;
    engine = chip_select_released w.engine;
  }

  pub transaction_timed_out : Worker S → Worker S
  transaction_timed_out w =
      chip_select_released_worker
        (record w { counters = record w.counters { timeouts = w.counters.timeouts + 1 } })

module _ {S : Type 0} (receive_capacity transmit_capacity : ℕ) where
  pub new_worker : Engine S → Worker S
  new_worker engine = record {
    engine = engine;
    received = empty_queue 0 receive_capacity;
    transmit = empty_queue 0 transmit_capacity;
    counters = no_counts;
  }

  pub capture_byte : Worker S → ℕ → Worker S × Bool
  capture_byte w byte =
      let (received, pushed) = try_push receive_capacity w.received byte in
      let c = w.counters in
      if pushed
      then (
        record w {
          received = received;
          counters = record c { received_bytes = c.received_bytes + 1 };
        },
        true,
      )
      else (
        record w {
          received = received;
          counters = record c { receive_overflows = c.receive_overflows + 1 };
        },
        false,
      )

  pub enqueue_output : Worker S → EngineOutput → Worker S × Bool
  enqueue_output w output =
      let c = w.counters in
      let (transmit, pushed) = push_all transmit_capacity w.transmit output.bytes in
      if ltb (available transmit_capacity w.transmit) (length output.bytes)
      then (
        record w { counters = record c { transmit_overflows = c.transmit_overflows + 1 } },
        false,
      )
      else (record w { transmit = transmit }, pushed)

  abbrev pub enqueue_if_any : Worker S → Option EngineOutput → Worker S
  enqueue_if_any w none = w
  enqueue_if_any w (some output) = (enqueue_output w output).0

module _ {S : Type 0} (B : BlockBackend S) (receive_capacity transmit_capacity : ℕ) where
  -- The loop of `process`: at most `max_bytes` rounds.
  pub process_bytes : ℕ → Worker S → Worker S
  process_bytes zero w = w
  process_bytes (suc max_bytes) w =
      let (received, popped) = try_pop receive_capacity w.received in
      elim popped [
        | none ↦ record w { received = received }
        | some byte ↦
            let (engine, output) = push_byte B w.engine byte in
            process_bytes max_bytes (
              enqueue_if_any receive_capacity transmit_capacity
                (record w { received = received; engine = engine }) output)
      ]

  pub process : Worker S → ℕ → Worker S
  process w max_bytes =
      let w' = process_bytes max_bytes w in
      let (engine, output) = poll_pending_io B w'.engine in
      if is_empty w'.transmit
      then enqueue_if_any receive_capacity transmit_capacity (record w' { engine = engine }) output
      else w'

  pub queue_next_multi_read_block : Worker S → Worker S × Bool
  queue_next_multi_read_block w =
      let (engine, output) = next_multi_read_block B w.engine in
      let w' = record w { engine = engine } in
      elim output [
        | none ↦ (w', false)
        | some o ↦ enqueue_output receive_capacity transmit_capacity w' o
      ]

  pub dequeue_transmit_byte : Worker S → Worker S × Option ℕ
  dequeue_transmit_byte w =
      let (transmit, popped) = try_pop transmit_capacity w.transmit in
      let c = w.counters in
      elim popped [
        | none ↦ (
          record w {
            transmit = transmit;
            counters = record c { transmit_underruns = c.transmit_underruns + 1 };
          },
          none,
        )
        | some byte ↦
            let w' = record w {
              transmit = transmit;
              counters = record c { transmitted_bytes = c.transmitted_bytes + 1 };
            } in
            if is_empty transmit
            then ((queue_next_multi_read_block w').0, some byte)
            else (w', some byte)
      ]
