-- ===== src/Pipeline/Worker/Resubmitted.antt =====
-- What a resubmission of a recorded trade does to the counts.
use trade_journal.Prelude.{
  ◌+◌, String, ◌≡◌, refl, Bool, some, List, [], ◌∷◌, ◌++◌, ok, if◌then◌else◌, ℕ, suc, subst, sym,
}
use trade_journal.Prelude.Time.{Time, hour, truncate}
use trade_journal.Platform.{Platform}
use trade_journal.Platform.Laws.{GroupLaws, TextLaws}
use trade_journal.Domain.Trade.{Trade, TradeInput}
use trade_journal.Store.Columns.{trade_row}
use trade_journal.Store.Metrics.Counter.{Counter}
use trade_journal.Store.Metrics.Sums.{counted_in}
use trade_journal.Store.Trades.{trade_of}
use trade_journal.Store.World.{World}
use trade_journal.Cache.Stream.{arg_texts}
use trade_journal.Api.Response.{trade, respond_json}
use trade_journal.Api.TradeHandler.{
  Task, Answer, decoded, create, event_data, side_effects, publish, run_task,
}
use trade_journal.Api.TradeHandler.Submission.{prepared}
use trade_journal.Api.TradeHandler.Tenancy.{IsAdmissible}
use trade_journal.Api.TradeHandler.Resubmission.{create_taken}
use trade_journal.Pipeline.{count_event}
use trade_journal.Pipeline.Worker.{loop}
use trade_journal.Pipeline.Worker.Order.{unread_of}
use trade_journal.Pipeline.Worker.Published.{counts_for}
use trade_journal.Pipeline.Worker.Delivery.{loop_counts}

module _ {p : Platform} where
  -- The goroutines of a row publish it.
  side_effects-publish :
      (row : Trade p)
      → (before after : List Task) × (side_effects row ≡ before ++ publish (event_data row) ∷ after)
  unfolding side_effects
  side_effects-publish row = (_, _, refl)

  -- An answer with the recorded row, a goroutine that publishes it, and the counts after that
  -- goroutine has run and the worker has read what was published.
  abbrev pub CountsAgain :
      Counter → (Time → String → Bool) → ℕ → ℕ → Trade p → World p → Answer p → Type 0
  CountsAgain c q n more row w (response, tasks, v) =
      (response ≡ respond_json 200 (trade row))
      × (v.db ≡ w.db)
      × ((before after : List Task) × (tasks ≡ before ++ publish (event_data row) ∷ after))
      × (counted_in c q (loop (suc n) (run_task (publish (event_data row)) v)).db
          ≡ counted_in c q w.db + more)

  -- A closed trade that is recorded is submitted once more, with every call answered and to a group
  -- that has been given all before: the tables are as before and the recorded row is the answer,
  -- but a goroutine publishes the row again, and once it has run the worker counts the trade once
  -- more, as a trade, as a win or a loss, and as a revenge trade if it is flagged, for the user and
  -- the hour of the recorded row, provided that the statement that counts it is accepted.
  pub resubmission_counts :
      (groups : GroupLaws p) (texts : TextLaws p) (c : Counter) (q : Time → String → Bool)
      (sub trace u : String) (input : TradeInput p) (new row : Trade p) (n : ℕ) (w : World p)
      → IsAdmissible sub (decoded input)
      → w.schedule ≡ []
      → trade_row w.now (prepared input w).0 ≡ some new
      → trade_of new.trade_id w.db.trades ≡ some row
      → unread_of groups w ≡ []
      → row.status ≡ "closed"
      → p.uuid row.user_id ≡ some u
      → (count_event (arg_texts p (event_data row)) (truncate row.entry_at hour) w).0 ≡ ok tt
      → CountsAgain c q n
          (if q (p.timestamp (truncate row.entry_at hour)) u then counts_for row c else 0)
          row
          w
          (create sub trace (decoded input) w)
  resubmission_counts groups texts c q sub trace u input new row n w good quiet made taken given
        closed known accepted =
      subst
        (CountsAgain c q n
          (if q (p.timestamp (truncate row.entry_at hour)) u then counts_for row c else 0) row w)
        (sym (create_taken sub trace input new row w good quiet made taken))
        (
          refl,
          refl,
          side_effects-publish row,
          loop_counts groups texts row c q u n w quiet given closed known accepted,
        )
