-- ===== src/Store/Metrics/Sums.antt =====
-- The counters of behavioral_metrics, summed over the rows of some keys.
use mathlib.Core.Option.{some-injective}
use trade_journal.Prelude.{
  Bool, true, false, ◌&&◌, eqb, eq_iff, if◌then◌else◌, ℕ, ◌+◌, String, ◌≡◌, sym, subst, Bool-cases,
  some, List, [], ◌∷◌, arith, inl, inr,
}
use trade_journal.Prelude.Time.{Time}
use trade_journal.Platform.{Platform}
use trade_journal.Store.Columns.Laws.{>>=_each}
use trade_journal.Store.Tables.{Db, MetricsRow}
use trade_journal.Store.Metrics.{merge_bucket, same_bucket, put_bucket}
use trade_journal.Store.Metrics.Counter.{Counter, trades, column, column-Merges}
use trade_journal.Store.Metrics.Counts.{Merges, merge_bucket-Merges}

module _ {p : Platform} where
  abbrev pub share : Counter → (Time → String → Bool) → MetricsRow p → ℕ
  share c q row = if q row.bucket row.user_id then column c row else 0

  -- The sum of a counter over the rows of some keys; a test picks the keys by bucket and user.
  abbrev pub sum_in : Counter → (Time → String → Bool) → List (MetricsRow p) → ℕ
  sum_in c q [] = 0
  sum_in c q (row ∷ rows) = share c q row + sum_in c q rows

  abbrev pub counted_in : Counter → (Time → String → Bool) → Db p → ℕ
  counted_in c q d = sum_in c q d.behavioral_metrics

  -- All trades that are counted.
  abbrev pub counted : Db p → ℕ
  counted d = counted_in trades (λ _ _. true) d

  same_share :
      (c : Counter) (q : Time → String → Bool) (old new row : MetricsRow p)
      → same_bucket old new ≡ true
      → Merges old new row
      → share c q row ≡ share c q old + share c q new
  same_share c q old new row same merged =
      let user : old.user_id ≡ new.user_id =
        (eq_iff old.user_id new.user_id).0 (and_right (eqb old.bucket new.bucket) _ same) in
      let bucket : old.bucket ≡ new.bucket = ground (arith, same) in
      rw (merged.bucket, merged.user_id, column-Merges c merged, sym user, sym bucket)
        (split_share (q old.bucket old.user_id) (column c old) (column c new))
    where
      and_right : (a b : Bool) → (a && b) ≡ true → b ≡ true
      and_right true b h = h
      and_right false b h = cc

      split_share :
          (b : Bool) (m n : ℕ)
          → (if b then m + n else 0) ≡ (if b then m else 0) + (if b then n else 0)
      split_share true m n = omega arith
      split_share false m n = omega arith

  pub put_bucket_sums :
      (c : Counter) (q : Time → String → Bool) (new : MetricsRow p)
      (rows rows' : List (MetricsRow p))
      → put_bucket new rows ≡ some rows'
      → sum_in c q rows' ≡ sum_in c q rows + share c q new
  unfolding put_bucket
  put_bucket_sums c q new [] rows' e = rw (sym (some-injective _ _ e)) (omega arith)
  put_bucket_sums c q new (old ∷ rows) rows' e = elim (Bool-cases (same_bucket old new)) [
    | inl same ↦
        >>=_each Counted (merge_bucket old new) (λ row. some (row ∷ rows))
          (λ row made rows'' e'.
            let shares = same_share c q old new row same (merge_bucket-Merges old new row made) in
            subst Counted (some-injective _ _ e') (omega (arith, shares)))
          rows' (rw (same, put_bucket) at e)
    | inr other ↦
        >>=_each Counted (put_bucket new rows) (λ rest. some (old ∷ rest))
          (λ rest made rows'' e'.
            let shares = put_bucket_sums c q new rows rest made in
            subst Counted (some-injective _ _ e') (omega (arith, shares)))
          rows' (rw (other, put_bucket) at e)
  ]
    where
      Counted : List (MetricsRow p) → Type 0
      Counted xs = sum_in c q xs ≡ share c q old + sum_in c q rows + share c q new
