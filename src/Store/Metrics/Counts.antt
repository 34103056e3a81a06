-- ===== src/Store/Metrics/Counts.antt =====
-- What the statements of `UpsertBucket` do to the counts of behavioral_metrics.
use mathlib.Core.Option.{some-injective}
use trade_journal.Prelude.{
  ℕ, ◌+◌, ◌≤◌, String, ◌≡◌, refl, ap, ◌∙◌, sym, subst, inl, inr, Option, none, some, List, [], ◌∷◌,
  arith, All, Bool-cases,
}
use trade_journal.Prelude.Time.{Time}
use trade_journal.Platform.{Platform}
use trade_journal.Store.Columns.Laws.{>>=_each}
use trade_journal.Store.Tables.{Db, MetricsRow}
use trade_journal.Store.World.{World}
use trade_journal.Store.World.Frames.{statement_keeps}
use trade_journal.Store.Metrics.{
  int4, coalesce, bucket_row, merge_bucket, same_bucket, put_bucket, outcome_of, write_bucket,
  upsert_bucket,
}

int4-eq-some : (n m : ℕ) → int4 n ≡ some m → m ≡ n
int4-eq-some n m e = ground arith

-- A statement keeps what each of its results has and the tables had.
pub outcome_of_keeps :
    {A : Type 0} (Q : A → Type 0) (d : A) (o : Option A)
    → Q d
    → ((d' : A) → o ≡ some d' → Q d')
    → Q (outcome_of d o).1
outcome_of_keeps Q d none h k = h
outcome_of_keeps Q d (some d') h k = k d' refl

module _ {p : Platform} where
  -- Every trade of a bucket is a win or a loss, and revenge trades are among them; the column
  -- overtrading_events holds 0.
  pub record IsBalanced (row : MetricsRow p) : Type 0 where
    pub counted : row.trade_count ≡ row.win_count + row.loss_count
    pub revenge : row.revenge_count ≤ row.trade_count
    pub events : row.overtrading_events ≡ 0

  -- The counts of a merged row are the sums, and its key is the old one.
  pub record Merges (old new row : MetricsRow p) : Type 0 where
    pub bucket : row.bucket ≡ old.bucket
    pub user_id : row.user_id ≡ old.user_id
    pub trade_count : row.trade_count ≡ old.trade_count + new.trade_count
    pub win_count : row.win_count ≡ old.win_count + new.win_count
    pub loss_count : row.loss_count ≡ old.loss_count + new.loss_count
    pub revenge_count : row.revenge_count ≡ old.revenge_count + new.revenge_count
    pub overtrading_events :
        row.overtrading_events ≡ old.overtrading_events + new.overtrading_events
    pub avg_plan_adherence :
        row.avg_plan_adherence ≡ coalesce new.avg_plan_adherence old.avg_plan_adherence

  pub merge_bucket-Merges :
      (old new row : MetricsRow p) → merge_bucket old new ≡ some row → Merges old new row
  unfolding merge_bucket
  merge_bucket-Merges old new = >>=_each (Merges old new) _ _ (λ t et.
      >>=_each (Merges old new) _ _ (λ w ew. >>=_each (Merges old new) _ _ (λ l el.
        >>=_each (Merges old new) _ _ (λ _ _. >>=_each (Merges old new) _ _ (λ r er.
          >>=_each (Merges old new) _ _ (λ o eo row same.
            let kept = sym (some-injective _ _ same) in
            record {
              bucket = ap (λ (x : MetricsRow p). x.bucket) kept;
              user_id = ap (λ (x : MetricsRow p). x.user_id) kept;
              trade_count = ap (λ (x : MetricsRow p). x.trade_count) kept ∙ int4-eq-some _ t et;
              win_count = ap (λ (x : MetricsRow p). x.win_count) kept ∙ int4-eq-some _ w ew;
              loss_count = ap (λ (x : MetricsRow p). x.loss_count) kept ∙ int4-eq-some _ l el;
              revenge_count = ap (λ (x : MetricsRow p). x.revenge_count) kept ∙ int4-eq-some _ r er;
              overtrading_events =
                  ap (λ (x : MetricsRow p). x.overtrading_events) kept ∙ int4-eq-some _ o eo;
              avg_plan_adherence = ap (λ (x : MetricsRow p). x.avg_plan_adherence) kept;
            }))))))

  Merges-IsBalanced :
      {old new row : MetricsRow p}
      → Merges old new row
      → IsBalanced old
      → IsBalanced new
      → IsBalanced row
  Merges-IsBalanced m a b = record {
    counted = omega (arith, m.trade_count, m.win_count, m.loss_count, a.counted, b.counted);
    revenge = omega (arith, m.trade_count, m.revenge_count, a.revenge, b.revenge);
    events = omega (arith, m.overtrading_events, a.events, b.events);
  }

  put_bucket-IsBalanced :
      (new : MetricsRow p) (rows rows' : List (MetricsRow p))
      → IsBalanced new
      → All IsBalanced rows
      → put_bucket new rows ≡ some rows'
      → All IsBalanced rows'
  unfolding put_bucket
  put_bucket-IsBalanced new [] rows' b h e = rw (sym (some-injective _ _ e)) (b, tt)
  put_bucket-IsBalanced new (old ∷ rows) rows' b h e = elim (Bool-cases (same_bucket old new)) [
    | inl same ↦
        >>=_each (All IsBalanced) (merge_bucket old new) (λ row. some (row ∷ rows))
          (λ row made rows'' e'.
            rw (sym (some-injective _ _ e'))
              (Merges-IsBalanced (merge_bucket-Merges old new row made) h.0 b, h.1))
          rows' (rw (same, put_bucket) at e)
    | inr other ↦
        >>=_each (All IsBalanced) (put_bucket new rows) (λ rest. some (old ∷ rest))
          (λ rest made rows'' e'.
            rw (sym (some-injective _ _ e')) (h.0, put_bucket-IsBalanced new rows rest b h.1 made))
          rows' (rw (other, put_bucket) at e)
  ]

  abbrev pub AreBalanced : Db p → Type 0
  AreBalanced d = All IsBalanced d.behavioral_metrics

  -- A statement keeps the buckets balanced, if the row of its parameters is.
  pub write_bucket-IsBalanced :
      (made : Option (MetricsRow p)) (d : Db p)
      → ((new : MetricsRow p) → made ≡ some new → IsBalanced new)
      → AreBalanced d
      → AreBalanced (write_bucket made d).1
  write_bucket-IsBalanced made d good h = outcome_of_keeps AreBalanced d _ h (
      >>=_each AreBalanced made _ (λ new e.
        >>=_each AreBalanced (put_bucket new d.behavioral_metrics) _ (λ rows e' d' e''.
          subst AreBalanced (some-injective _ _ e'')
            (put_bucket-IsBalanced new d.behavioral_metrics rows (good new e) h e'))))

  -- The counts of a row are the parameters of the statement.
  pub record HasCounts (trades wins losses revenge events : ℕ) (row : MetricsRow p) : Type 0 where
    pub trade_count : row.trade_count ≡ trades
    pub win_count : row.win_count ≡ wins
    pub loss_count : row.loss_count ≡ losses
    pub revenge_count : row.revenge_count ≡ revenge
    pub overtrading_events : row.overtrading_events ≡ events

  pub bucket_row-HasCounts :
      (user : String) (bucket : Time) (n w l : ℕ) (pnl : p.Decimal) (avg tilt : Option p.Float)
      (r e : ℕ) (row : MetricsRow p)
      → bucket_row user bucket n w l pnl avg tilt r e ≡ some row
      → HasCounts n w l r e row
  unfolding bucket_row
  bucket_row-HasCounts user bucket n w l pnl avg tilt r e =
      >>=_each (HasCounts n w l r e) _ _ (λ _ _. >>=_each (HasCounts n w l r e) _ _ (λ _ _.
        >>=_each (HasCounts n w l r e) _ _ (λ _ _.
          >>=_each (HasCounts n w l r e) _ _ (λ _ _ row same.
            let kept = sym (some-injective _ _ same) in
            record {
              trade_count = ap (λ (x : MetricsRow p). x.trade_count) kept;
              win_count = ap (λ (x : MetricsRow p). x.win_count) kept;
              loss_count = ap (λ (x : MetricsRow p). x.loss_count) kept;
              revenge_count = ap (λ (x : MetricsRow p). x.revenge_count) kept;
              overtrading_events = ap (λ (x : MetricsRow p). x.overtrading_events) kept;
            }))))

  HasCounts-IsBalanced :
      {n w l r : ℕ} {row : MetricsRow p}
      → HasCounts n w l r 0 row
      → n ≡ w + l
      → r ≤ n
      → IsBalanced row
  HasCounts-IsBalanced c sum some_of = record {
    counted = omega (arith, c.trade_count, c.win_count, c.loss_count);
    revenge = omega (arith, c.trade_count, c.revenge_count);
    events = c.overtrading_events;
  }

  -- `UpsertBucket` keeps every bucket balanced, whatever call fails, if its own counts are.
  pub upsert_bucket-IsBalanced :
      (user : String) (bucket : Time) (n w l : ℕ) (pnl : p.Decimal) (avg tilt : Option p.Float)
      (r : ℕ) (v : World p)
      → n ≡ w + l
      → r ≤ n
      → AreBalanced v.db
      → AreBalanced (upsert_bucket user bucket n w l pnl avg tilt r 0 v).1.db
  unfolding upsert_bucket
  upsert_bucket-IsBalanced user bucket n w l pnl avg tilt r v sum some_of h =
      statement_keeps AreBalanced _
        (λ t d.
          write_bucket-IsBalanced (bucket_row user bucket n w l pnl avg tilt r 0) d (λ row made.
            HasCounts-IsBalanced (bucket_row-HasCounts user bucket n w l pnl avg tilt r 0 row made)
              sum some_of))
        v h
