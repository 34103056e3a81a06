-- ===== src/Tests/StoreTests.antt =====
-- Packages store and cache at concrete inputs.
use trade_journal.Prelude.{
  List, ℕ, ◌-◌, none, select, length, ◌==◌, ◌≡◌, refl, some, [], ◌∷◌, String, ok, err, unavailable,
}
use trade_journal.Prelude.Int.{pos}
use trade_journal.Store.Analytics.{select_tilt, tilt_counts, lag_outcomes}
use trade_journal.Store.Analytics.Tilt.{AreTiltCounts, select_tilt-AreTiltCounts}
use trade_journal.Store.MetricsQueries.{total, range_buckets}
use trade_journal.Store.MetricsQueries.Sums.{range_buckets_totals}
use trade_journal.Store.Tables.{MetricsRow, Db}
use trade_journal.Domain.Trade.{Trade}
use trade_journal.Store.Columns.{trade_row, ◌>>=◌}
use trade_journal.Store.Scan.{scan_one, scan_all}
use trade_journal.Store.Scan.Laws.{scan_trades_lem}
use trade_journal.Store.Trades.{trade_of, insert_trade, insert_row, upsert}
use trade_journal.Store.Trades.Laws.{upsert_keeps}
use trade_journal.Store.Trades.Progress.{upsert-put_absent}
use trade_journal.Store.World.{World, call, refused, lost}
use trade_journal.Tests.Machine.{sort, insert_by, machine}
use trade_journal.Tests.MachineLaws.{orders}
use trade_journal.Tests.Fixtures.{
  tables, monday, losing_trade, copied_trade, world_of, fresh, recorded,
}

-- The parameters fit the columns.
losing_row : trade_row {p = machine} monday losing_trade ≡ some losing_trade
unfolding trade_row ◌>>=◌
losing_row = refl

-- A user that is not known is a foreign key that dangles.
upsert_dangling :
    upsert (record losing_trade { user_id = "nobody" }) fresh ≡ (err unavailable, fresh)
unfolding upsert call trade_journal.Store.World.call_with insert_trade insert_row trade_row ◌>>=◌
upsert_dangling = refl

-- A reply that is lost leaves the row behind.
upsert_lost : upsert losing_trade (world_of [] (lost ∷ [])) ≡ (err unavailable, recorded)
unfolding upsert call trade_journal.Store.World.call_with insert_trade insert_row trade_row ◌>>=◌
upsert_lost = refl

scan_trades_lem_example :
    (scan_one (some losing_trade) ≡ ok (some losing_trade))
    × (scan_all (losing_trade ∷ copied_trade ∷ []) ≡ ok (losing_trade ∷ copied_trade ∷ []))
scan_trades_lem_example = scan_trades_lem (some losing_trade) (losing_trade ∷ copied_trade ∷ [])

upsert-put_absent_example : upsert losing_trade fresh ≡ (ok losing_trade, recorded)
upsert-put_absent_example =
    upsert-put_absent losing_trade losing_trade fresh refl losing_row refl refl

upsert_keeps_example :
    trade_of "t1"
      (upsert copied_trade (world_of (losing_trade ∷ []) (lost ∷ refused ∷ []))).1.db.trades
    ≡ some losing_trade
upsert_keeps_example =
    upsert_keeps copied_trade "t1" losing_trade (world_of (losing_trade ∷ []) (lost ∷ refused ∷ []))
      refl

-- Two losses in a row: one trade has a predecessor, which lost.
abbrev two_losses : Db machine
two_losses = tables (losing_trade ∷ losing_trade ∷ [])

two_losses_tilt : select_tilt "s1" two_losses ≡ ok (pos 1, pos 1)
unfolding select_tilt tilt_counts lag_outcomes sort insert_by
two_losses_tilt = refl

select_tilt-AreTiltCounts_example :
    (u : String) × (machine.uuid "s1" ≡ some u)
    × AreTiltCounts
        (length (select (λ (t : Trade machine). t.session_id == u) two_losses.trades))
        (pos 1, pos 1)
select_tilt-AreTiltCounts_example =
    select_tilt-AreTiltCounts orders "s1" two_losses (pos 1, pos 1) two_losses_tilt

-- Two hours of Sam's, one of them twice.
abbrev hour_row : ℕ → ℕ → MetricsRow machine
hour_row bucket trades = record {
  bucket = bucket;
  user_id = "sam";
  trade_count = trades;
  win_count = 1;
  loss_count = trades - 1;
  total_pnl = pos 3;
  avg_plan_adherence = none;
  session_tilt_index = none;
  revenge_count = 1;
  overtrading_events = 0;
}

abbrev hours : List (MetricsRow machine)
hours = hour_row 7 2 ∷ hour_row 3 4 ∷ hour_row 7 5 ∷ []

range_buckets_totals_example :
    (total (λ b. b.trade_count) (range_buckets "1 hour" hours) ≡ 11)
    × (total (λ b. b.win_count) (range_buckets "1 hour" hours) ≡ 3)
    × (total (λ b. b.loss_count) (range_buckets "1 hour" hours) ≡ 8)
    × (total (λ b. b.revenge_count) (range_buckets "1 hour" hours) ≡ 3)
range_buckets_totals_example = range_buckets_totals orders "1 hour" hours
