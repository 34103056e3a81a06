-- ===== src/Store/MetricsQueries/Sums.antt =====
-- The buckets of a range lose and repeat no row.
use trade_journal.Prelude.{
  ℕ, ◌+◌, ◌≤◌, String, ◌≡◌, refl, ap, ◌∙◌, List, [], ◌∷◌, arith, select, leb, eqb, if◌then◌else◌,
  All, Bool-cases, inl, inr,
}
use trade_journal.Prelude.Time.{Time}
use trade_journal.Platform.{Platform}
use trade_journal.Platform.Laws.{OrderLaws, tally}
use trade_journal.Store.Tables.{MetricsRow}
use trade_journal.Store.MetricsQueries.{
  MetricsBucket, total, keys_of, aggregate, aggregates, range_buckets,
}

abbrev times : ℕ → List ℕ → ℕ
times k ks = tally (λ b. eqb b k) ks

module _ {A : Type 0} (key : A → ℕ) where
  abbrev keys : List A → List ℕ
  keys xs = keys_of eqb key xs

  keys-le : (k : ℕ) (xs : List A) → times k (keys xs) ≤ 1
  unfolding keys_of
  keys-le k [] = omega arith
  keys-le k (x ∷ xs) = ground (arith, keys-le k xs, same_times (key x) k (keys xs))
    where
      same_times : (j k : ℕ) (ks : List ℕ) → j ≡ k → times j ks ≡ times k ks
      same_times j k ks e = ap (λ i. times i ks) e

  first_once : (x : A) (xs : List A) → times (key x) (keys (x ∷ xs)) ≡ 1
  unfolding keys_of
  first_once x xs = ground (arith, keys-le (key x) xs)

  still_once : (k : ℕ) (x : A) (xs : List A) → times k (keys xs) ≡ 1 → times k (keys (x ∷ xs)) ≡ 1
  unfolding keys_of
  still_once k x xs h = ground (arith, h, same_times (key x) k (keys xs))
    where
      same_times : (j k : ℕ) (ks : List ℕ) → j ≡ k → times j ks ≡ times k ks
      same_times j k ks e = ap (λ i. times i ks) e

  All-still :
      (x : A) (xs ys : List A)
      → All (λ y. times (key y) (keys xs) ≡ 1) ys
      → All (λ y. times (key y) (keys (x ∷ xs)) ≡ 1) ys
  All-still x xs [] h = tt
  All-still x xs (y ∷ ys) (h, hs) = (still_once (key y) x xs h, All-still x xs ys hs)

  -- A key that a row has stands among the keys once.
  keys_once : (xs : List A) → All (λ x. times (key x) (keys xs) ≡ 1) xs
  keys_once [] = tt
  keys_once (x ∷ xs) = (first_once x xs, All-still x xs xs (keys_once xs))

  -- The sums of the groups.
  abbrev grouped : (A → ℕ) → List A → List ℕ → ℕ
  grouped f rows ks = total (λ k. total f (select (λ r. eqb k (key r)) rows)) ks

  -- A number that is counted at one key.
  at_key : (n k : ℕ) (ks : List ℕ) → times k ks ≡ 0 → total (λ b. if eqb b k then n else 0) ks ≡ 0
  at_key n k [] h = refl
  at_key n k (b ∷ ks) h = ground (arith, h, at_key n k ks)

  at_one_key :
      (n k : ℕ) (ks : List ℕ) → times k ks ≡ 1 → total (λ b. if eqb b k then n else 0) ks ≡ n
  at_one_key n k [] h = ground (arith, h)
  at_one_key n k (b ∷ ks) h = elim (Bool-cases (eqb b k)) [
    | inl here ↦
        let none_left : times k ks ≡ 0 = ground (arith, h, here) in
        ground (arith, here, at_key n k ks none_left)
    | inr there ↦
        let later : times k ks ≡ 1 = ground (arith, h, there) in
        ground (arith, there, at_one_key n k ks later)
  ]

  grouped_step :
      (f : A → ℕ) (x : A) (rows : List A) (ks : List ℕ)
      → grouped f (x ∷ rows) ks
        ≡ total (λ b. if eqb b (key x) then f x else 0) ks + grouped f rows ks
  grouped_step f x rows [] = omega arith
  grouped_step f x rows (k ∷ ks) = ground (arith, grouped_step f x rows ks)

  grouped_none : (f : A → ℕ) (ks : List ℕ) → grouped f [] ks ≡ 0
  grouped_none f [] = refl
  grouped_none f (k ∷ ks) = ground (arith, grouped_none f ks)

  grouped-All :
      (f : A → ℕ) (rows : List A) (ks : List ℕ)
      → All (λ r. times (key r) ks ≡ 1) rows
      → grouped f rows ks ≡ total f rows
  grouped-All f [] ks h = grouped_none f ks
  grouped-All f (x ∷ rows) ks (h, hs) =
      omega
        (arith, grouped_step f x rows ks, at_one_key (f x) (key x) ks h, grouped-All f rows ks hs)

module _ {p : Platform} (laws : OrderLaws p) (interval : String) where
  abbrev bucket_of : MetricsRow p → Time
  bucket_of r = p.time_bucket interval r.bucket

  total-aggregates :
      (g : MetricsBucket p → ℕ) (f : MetricsRow p → ℕ)
      → ((b : Time) (group : List (MetricsRow p)) → g (aggregate b group) ≡ total f group)
      → (rows : List (MetricsRow p)) (ks : List Time)
      → total g (aggregates interval rows ks) ≡ grouped bucket_of f rows ks
  unfolding aggregates
  total-aggregates g f same rows [] = refl
  total-aggregates g f same rows (k ∷ ks) =
      omega
        (arith, same k (select (λ r. eqb k (bucket_of r)) rows), total-aggregates g f same rows ks)

  sorted_once :
      (rows ys : List (MetricsRow p))
      → All (λ r. times (bucket_of r) (keys bucket_of rows) ≡ 1) ys
      → All (λ r. times (bucket_of r) (p.order_by Time leb (keys bucket_of rows)) ≡ 1) ys
  sorted_once rows [] h = tt
  sorted_once rows (y ∷ ys) (h, hs) = (
    laws.order_tally Time leb (λ b. eqb b (bucket_of y)) (keys bucket_of rows) ∙ h,
    sorted_once rows ys hs,
  )

  range_total :
      (g : MetricsBucket p → ℕ) (f : MetricsRow p → ℕ)
      → ((b : Time) (group : List (MetricsRow p)) → g (aggregate b group) ≡ total f group)
      → (rows : List (MetricsRow p)) → total g (range_buckets interval rows) ≡ total f rows
  unfolding range_buckets
  range_total g f same rows =
      total-aggregates g f same rows (p.order_by Time leb (keys bucket_of rows))
      ∙ grouped-All bucket_of f rows _ (sorted_once rows rows (keys_once bucket_of rows))

  -- However the rows of a range fall into buckets, the buckets' counts add up to those of the
  -- rows: no trade, win, loss or revenge trade is lost or counted twice.
  pub range_buckets_totals :
      (rows : List (MetricsRow p))
      → let buckets = range_buckets interval rows in
        (total (λ b. b.trade_count) buckets ≡ total (λ r. r.trade_count) rows)
        × (total (λ b. b.win_count) buckets ≡ total (λ r. r.win_count) rows)
        × (total (λ b. b.loss_count) buckets ≡ total (λ r. r.loss_count) rows)
        × (total (λ b. b.revenge_count) buckets ≡ total (λ r. r.revenge_count) rows)
  unfolding aggregate
  range_buckets_totals rows = (
    range_total (λ b. b.trade_count) (λ r. r.trade_count) (λ b g. refl) rows,
    range_total (λ b. b.win_count) (λ r. r.win_count) (λ b g. refl) rows,
    range_total (λ b. b.loss_count) (λ r. r.loss_count) (λ b g. refl) rows,
    range_total (λ b. b.revenge_count) (λ r. r.revenge_count) (λ b g. refl) rows,
  )
