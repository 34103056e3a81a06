-- ===== src/Pipeline/Adherence.antt =====
-- The rolling plan adherence that the worker writes.
use trade_journal.Prelude.{String, ◌≡◌}
use trade_journal.Prelude.Time.{Time}
use trade_journal.Platform.{Platform}
use trade_journal.Store.Metrics.Averages.{average_at}
use trade_journal.Store.World.{World}

module _ {p : Platform} (u : String) (b : Time) where
  abbrev IsKept : World p → World p → Type 0
  IsKept v v' = average_at u b v'.db.behavioral_metrics ≡ average_at u b v.db.behavioral_metrics
