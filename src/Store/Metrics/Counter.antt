-- ===== src/Store/Metrics/Counter.antt =====
-- The four counters of a bucket, and what a statement of `UpsertBucket` adds to each.
use trade_journal.Prelude.{ℕ, ◌+◌, String, ◌≡◌, Option, some}
use trade_journal.Prelude.Time.{Time}
use trade_journal.Platform.{Platform}
use trade_journal.Store.Metrics.{bucket_row}
use trade_journal.Store.Metrics.Counts.{Merges, HasCounts, bucket_row-HasCounts}
use trade_journal.Store.Tables.{MetricsRow}

pub data Counter : Type 0 where
  trades wins losses revenges : Counter

abbrev pub choose : Counter → ℕ → ℕ → ℕ → ℕ → ℕ
choose trades t w l r = t
choose wins t w l r = w
choose losses t w l r = l
choose revenges t w l r = r

module _ {p : Platform} where
  abbrev pub column : Counter → MetricsRow p → ℕ
  column c row = choose c row.trade_count row.win_count row.loss_count row.revenge_count

  pub column-Merges :
      (c : Counter) {old new row : MetricsRow p}
      → Merges old new row
      → column c row ≡ column c old + column c new
  column-Merges trades m = m.trade_count
  column-Merges wins m = m.win_count
  column-Merges losses m = m.loss_count
  column-Merges revenges m = m.revenge_count

  pub column-bucket_row :
      (c : Counter) (user : String) (bucket : Time) (n w l : ℕ) (pnl : p.Decimal)
      (avg tilt : Option p.Float) (r e : ℕ) (row : MetricsRow p)
      → bucket_row user bucket n w l pnl avg tilt r e ≡ some row
      → column c row ≡ choose c n w l r
  column-bucket_row c user bucket n w l pnl avg tilt r e row made =
      by_counter c (bucket_row-HasCounts user bucket n w l pnl avg tilt r e row made)
    where
      by_counter : (c : Counter) → HasCounts n w l r e row → column c row ≡ choose c n w l r
      by_counter trades h = h.trade_count
      by_counter wins h = h.win_count
      by_counter losses h = h.loss_count
      by_counter revenges h = h.revenge_count
