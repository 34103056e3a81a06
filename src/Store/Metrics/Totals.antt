-- ===== src/Store/Metrics/Totals.antt =====
-- What the statements of `UpsertBucket` add to the counters of behavioral_metrics.
use mathlib.Core.Option.{some-injective}
use trade_journal.Prelude.{
  ap, ◌∙◌, Bool, if◌then◌else◌, refl, Result, ok, err, unavailable, ◌⊎◌, ℕ, ◌+◌, ◌≤◌, String, ◌≡◌,
  none, sym, Option, some, List, [], arith, inl, inr,
}
use trade_journal.Prelude.Time.{Time}
use trade_journal.Platform.{Platform}
use trade_journal.Store.Columns.{◌>>=◌}
use trade_journal.Store.Columns.Laws.{>>=_each}
use trade_journal.Store.Tables.{Db, MetricsRow}
use trade_journal.Store.World.{World}
use trade_journal.Store.World.Frames.{statement_post, statement_same}
use trade_journal.Store.Metrics.{bucket_row, put_bucket, outcome_of, write_bucket, upsert_bucket}
use trade_journal.Store.Metrics.Counter.{Counter, choose, column, column-bucket_row}
use trade_journal.Store.Metrics.Sums.{share, counted_in, put_bucket_sums}

module _ {p : Platform} where
  -- What a statement writes, for the row of its parameters.
  abbrev pub Writes :
      Counter
      → (Time → String → Bool)
      → Option (MetricsRow p)
      → Db p
      → Result (Unit {0})
      → Db p
      → Type 0
  Writes c q made d r d' =
      ((r ≡ err unavailable) × (d' ≡ d))
      ⊎ ((new : MetricsRow p) × (made ≡ some new)
          × (r ≡ ok tt)
          × (counted_in c q d' ≡ counted_in c q d + share c q new))

  write_bucket-Writes :
      (c : Counter) (q : Time → String → Bool) (made : Option (MetricsRow p)) (d : Db p)
      → let (r, d') = write_bucket made d in Writes c q made d r d'
  unfolding ◌>>=◌
  write_bucket-Writes c q none d = inl (refl, refl)
  write_bucket-Writes c q (some new) d = by_rows (put_bucket new d.behavioral_metrics) refl
    where
      by_rows :
          (o : Option (List (MetricsRow p)))
          → put_bucket new d.behavioral_metrics ≡ o
          → let (r, d') =
              outcome_of d (o >>= λ rows. some (record d { behavioral_metrics = rows })) in
            Writes c q (some new) d r d'
      by_rows none e = inl (refl, refl)
      by_rows (some rows) e =
          inr (new, refl, refl, put_bucket_sums c q new d.behavioral_metrics rows e)

  -- At most `n` more, and none less.
  abbrev pub Adds : Counter → (Time → String → Bool) → ℕ → Db p → Db p → Type 0
  Adds c q n d d' =
      (counted_in c q d ≤ counted_in c q d') × (counted_in c q d' ≤ counted_in c q d + n)

  share-le :
      (c : Counter) (q : Time → String → Bool) (row : MetricsRow p) → share c q row ≤ column c row
  share-le c q row = ground arith

  Writes-Adds :
      (c : Counter) (q : Time → String → Bool) (n : ℕ) (made : Option (MetricsRow p)) (d d' : Db p)
      (r : Result (Unit {0}))
      → ((new : MetricsRow p) → made ≡ some new → column c new ≡ n)
      → Writes c q made d r d'
      → Adds c q n d d'
  Writes-Adds c q n made d d' r known (inl (failed, same)) = rw same (omega arith, omega arith)
  Writes-Adds c q n made d d' r known (inr (new, is_new, done, sum)) =
      let few = share-le c q new in (omega (arith, sum), omega (arith, sum, known new is_new, few))

  pub upsert_bucket-Adds :
      (c : Counter) (q : Time → String → Bool) (user : String) (bucket : Time) (n wins losses : ℕ)
      (pnl : p.Decimal) (avg index : Option p.Float) (revenge events : ℕ) (w : World p)
      → Adds c q
          (choose c n wins losses revenge)
          w.db
          (upsert_bucket user bucket n wins losses pnl avg index revenge events w).1.db
  unfolding upsert_bucket
  upsert_bucket-Adds c q user bucket n wins losses pnl avg index revenge events w =
      let made = bucket_row user bucket n wins losses pnl avg index revenge events in
      let (r, d) = write_bucket made w.db in
      let added =
        Writes-Adds c q (choose c n wins losses revenge) made w.db d r
          (column-bucket_row c user bucket n wins losses pnl avg index revenge events)
          (write_bucket-Writes c q made w.db) in
      statement_post (λ _ d. Adds c q (choose c n wins losses revenge) w.db d)
        (λ _ d. write_bucket made d) w added (omega arith, omega arith) added

  -- The key of a row that a statement makes.
  record HasKey (name : String) (start : Time) (row : MetricsRow p) : Type 0 where
    pub bucket : row.bucket ≡ p.timestamp start
    pub user : p.uuid name ≡ some row.user_id

  bucket_row-HasKey :
      (user : String) (bucket : Time) (n wins losses : ℕ) (pnl : p.Decimal)
      (avg index : Option p.Float) (revenge events : ℕ) (row : MetricsRow p)
      → bucket_row user bucket n wins losses pnl avg index revenge events ≡ some row
      → HasKey user bucket row
  unfolding bucket_row
  bucket_row-HasKey user bucket n wins losses pnl avg index revenge events =
      >>=_each (HasKey user bucket) _ _ (λ u known. >>=_each (HasKey user bucket) _ _ (λ _ _.
        >>=_each (HasKey user bucket) _ _ (λ _ _. >>=_each (HasKey user bucket) _ _ (λ _ _ row same.
          let kept = some-injective _ _ same in
          record {
            bucket = sym (ap (λ (x : MetricsRow p). x.bucket) kept);
            user = known ∙ ap (λ (x : MetricsRow p). some x.user_id) kept;
          }))))

  -- A statement that is carried out adds its trades to the rows of its key, and to no other.
  pub upsert_bucket_counts :
      (c : Counter) (q : Time → String → Bool) (user u : String) (bucket : Time) (n wins losses : ℕ)
      (pnl : p.Decimal) (avg index : Option p.Float) (revenge events : ℕ) (w : World p)
      → p.uuid user ≡ some u
      → (upsert_bucket user bucket n wins losses pnl avg index revenge events w).0 ≡ ok tt
      → counted_in c q (upsert_bucket user bucket n wins losses pnl avg index revenge events w).1.db
        ≡ counted_in c q w.db
          + (if q (p.timestamp bucket) u then choose c n wins losses revenge else 0)
  unfolding upsert_bucket
  upsert_bucket_counts c q user u bucket n wins losses pnl avg index revenge events w known =
      let made = bucket_row user bucket n wins losses pnl avg index revenge events in
      statement_post
        (λ r d.
          r ≡ ok tt
          → counted_in c q d
            ≡ counted_in c q w.db
              + (if q (p.timestamp bucket) u then choose c n wins losses revenge else 0))
        (λ _ d. write_bucket made d) w (by_write _ _ (write_bucket-Writes c q made w.db)) (λ e. cc)
        (λ e. cc)
    where
      by_write :
          (r : Result (Unit {0})) (d : Db p)
          → Writes c q (bucket_row user bucket n wins losses pnl avg index revenge events) w.db r d
          → r ≡ ok tt
          → counted_in c q d
            ≡ counted_in c q w.db
              + (if q (p.timestamp bucket) u then choose c n wins losses revenge else 0)
      by_write r d (inl (failed, same)) e = cc
      by_write r d (inr (new, is_new, done, sum)) e =
          let counts =
            column-bucket_row c user bucket n wins losses pnl avg index revenge events new is_new in
          let key =
            bucket_row-HasKey user bucket n wins losses pnl avg index revenge events new is_new in
          let owner : new.user_id ≡ u = some-injective _ _ (sym key.user ∙ known) in
          let shares : share c q new
              ≡ (if q (p.timestamp bucket) u then choose c n wins losses revenge else 0) =
            rw (key.bucket, owner, counts) refl in
          sum ∙ ap (λ k. counted_in c q w.db + k) shares

  pub upsert_bucket_same :
      (user : String) (bucket : Time) (n wins losses : ℕ) (pnl : p.Decimal)
      (avg index : Option p.Float) (revenge events : ℕ) (v w : World p)
      → v.schedule ≡ []
      → w.schedule ≡ []
      → v.db ≡ w.db
      → (upsert_bucket user bucket n wins losses pnl avg index revenge events v).0
        ≡ (upsert_bucket user bucket n wins losses pnl avg index revenge events w).0
  unfolding upsert_bucket
  upsert_bucket_same user bucket n wins losses pnl avg index revenge events =
      statement_same
        (write_bucket (bucket_row user bucket n wins losses pnl avg index revenge events))
