-- ===== src/Pipeline/Worker.antt =====
-- internal/pipeline/worker.go, Run: the loop that reads the stream, processes and confirms.
pub mod History
pub mod Order
pub mod Confirming
pub mod Draining
pub mod Totals
pub mod Losses
pub mod Published
pub mod Delivery
pub mod Resubmitted
use trade_journal.Prelude.{ℕ, zero, suc, ◌+◌, ◌*◌, String, List, [], ◌∷◌, Result, ok, err}
use trade_journal.Prelude.Time.{second}
use trade_journal.Platform.{Platform, Message}
use trade_journal.Store.World.{World, Call, ◌>>=◌}
use trade_journal.Cache.Stream.{Streams, create_group, read_group, ack}
use trade_journal.Pipeline.{process_message}

abbrev pub stream_name : String
stream_name = "trades:events"

abbrev pub group_name : String
group_name = "nevup-analytics"

abbrev pub consumer_name : String
consumer_name = "worker-1"

module _ {p : Platform} where
  abbrev pub read : Call p Streams
  read = read_group group_name consumer_name stream_name 10 5000

  -- Errors of both are logged only: a message is confirmed, however its processing went.
  unfoldable pub handle : Message → World p → World p
  handle m w = (ack stream_name group_name m.id (process_message m.values w)).1

  unfoldable pub handle_all : List Message → World p → World p
  handle_all [] w = w
  handle_all (m ∷ ms) w = handle_all ms (handle m w)

  unfoldable pub handle_streams : Streams → World p → World p
  handle_streams [] w = w
  handle_streams ((name, ms) ∷ streams) w = handle_streams streams (handle_all ms w)

  abbrev after_read : (World p → World p) → (World p → World p) → Result Streams × World p → World p
  after_read next retry (ok streams, w) = next (handle_streams streams w)
  after_read next retry (err e, w) = retry w

  -- `time.Sleep`
  abbrev pub pause : World p → World p
  pause w = record w { now = w.now + second }

  -- A context is the number of tests that still find it alive; once cancelled it stays so. The loop
  -- tests it at its start, and once more when a read has failed.
  unfoldable pub loop : ℕ → World p → World p
  loop zero w = w
  loop (suc zero) w = after_read (λ v. v) (λ v. v) (read w)
  loop (suc (suc n)) w = after_read (loop (suc n)) (λ v. loop n (pause v)) (read w)

  unfoldable pub run : ℕ → Call p (Unit {0})
  run n = create_group stream_name group_name "0" >>= λ _ w. (ok tt, loop n w)
