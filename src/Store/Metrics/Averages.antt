-- ===== src/Store/Metrics/Averages.antt =====
-- The column avg_plan_adherence, as `UpsertBucket` writes it.
use mathlib.Core.Option.{some-injective}
use trade_journal.Prelude.{
  ℕ, String, Bool, true, false, ◌&&◌, Option, none, some, List, [], ◌∷◌, eqb, ◌==◌, eq_refl,
  if◌then◌else◌, Result, ok, ◌≡◌, refl, sym, ap, subst, ◌∙◌, inl, inr, Bool-cases, arith,
}
use trade_journal.Prelude.Time.{Time}
use trade_journal.Platform.{Platform}
use trade_journal.Store.Columns.{◌>>=◌, nullable}
use trade_journal.Store.Columns.Laws.{>>=_each}
use trade_journal.Store.Tables.{Db, MetricsRow}
use trade_journal.Store.World.{World}
use trade_journal.Store.World.Frames.{statement_keeps, statement_post}
use trade_journal.Store.Metrics.{
  coalesce, outcome_of, bucket_row, merge_bucket, same_bucket, put_bucket, write_bucket,
  upsert_bucket,
}
use trade_journal.Store.Metrics.Counts.{merge_bucket-Merges, outcome_of_keeps}

coalesce-none : {A : Type 0} (o : Option A) → o ≡ coalesce o none
coalesce-none none = refl
coalesce-none (some x) = refl

none_either_way : {A : Type 0} (b : Bool) {o : Option A} → o ≡ none → (if b then o else none) ≡ none
none_either_way true e = e
none_either_way false e = refl

module _ {p : Platform} where
  -- The average in the row of a user and a bucket, if there is such a row and it has one.
  abbrev pub average_at : String → Time → List (MetricsRow p) → Option p.Float
  average_at user bucket [] = none
  average_at user bucket (row ∷ rows) =
      if eqb row.bucket bucket && row.user_id == user
      then row.avg_plan_adherence
      else average_at user bucket rows

  same_bucket_refl : (row : MetricsRow p) → same_bucket row row ≡ true
  same_bucket_refl row = rw (eq_refl row.user_id) (ground arith)

  -- A row is put into the table: its average replaces that of its key, if it has one.
  put_bucket-average :
      (new : MetricsRow p) (rows rows' : List (MetricsRow p))
      → put_bucket new rows ≡ some rows'
      → average_at new.user_id new.bucket rows'
        ≡ coalesce new.avg_plan_adherence (average_at new.user_id new.bucket rows)
  unfolding put_bucket
  put_bucket-average new [] rows' e =
      subst (λ xs. average_at new.user_id new.bucket xs ≡ coalesce new.avg_plan_adherence none)
        (some-injective _ _ e) (rw (same_bucket_refl new) (coalesce-none new.avg_plan_adherence))
  put_bucket-average new (old ∷ rows) rows' e = elim (Bool-cases (same_bucket old new)) [
    | inl same ↦
        >>=_each Averages (merge_bucket old new) (λ row. some (row ∷ rows))
          (λ row made rows'' e'.
            let m = merge_bucket-Merges old new row made in
            subst Averages (some-injective _ _ e')
              (rw (m.bucket, m.user_id, same, m.avg_plan_adherence) refl))
          rows' (rw (same, put_bucket) at e)
    | inr other ↦
        >>=_each Averages (put_bucket new rows) (λ rest. some (old ∷ rest))
          (λ rest made rows'' e'.
            subst Averages (some-injective _ _ e')
              (rw other (put_bucket-average new rows rest made)))
          rows' (rw (other, put_bucket) at e)
  ]
    where
      Averages : List (MetricsRow p) → Type 0
      Averages xs =
          average_at new.user_id new.bucket xs
          ≡ coalesce new.avg_plan_adherence (average_at new.user_id new.bucket (old ∷ rows))

  -- A row with no average leaves every average as it is.
  put_bucket-no_average :
      (u : String) (b : Time) (new : MetricsRow p) (rows rows' : List (MetricsRow p))
      → new.avg_plan_adherence ≡ none
      → put_bucket new rows ≡ some rows'
      → average_at u b rows' ≡ average_at u b rows
  unfolding put_bucket
  put_bucket-no_average u b new [] rows' empty e =
      subst (λ xs. average_at u b xs ≡ none) (some-injective _ _ e)
        (none_either_way (eqb new.bucket b && new.user_id == u) empty)
  put_bucket-no_average u b new (old ∷ rows) rows' empty e =
      elim (Bool-cases (same_bucket old new)) [
        | inl same ↦
            >>=_each Averages (merge_bucket old new) (λ row. some (row ∷ rows))
              (λ row made rows'' e'.
                let m = merge_bucket-Merges old new row made in
                subst Averages (some-injective _ _ e')
                  (rw (m.bucket, m.user_id, m.avg_plan_adherence, empty) refl))
              rows' (rw (same, put_bucket) at e)
        | inr other ↦
            >>=_each Averages (put_bucket new rows) (λ rest. some (old ∷ rest))
              (λ rest made rows'' e'. subst Averages (some-injective _ _ e') (
                ap (λ o. if eqb old.bucket b && old.user_id == u then old.avg_plan_adherence else o)
                  (put_bucket-no_average u b new rows rest empty made)))
              rows' (rw (other, put_bucket) at e)
      ]
    where
      Averages : List (MetricsRow p) → Type 0
      Averages xs = average_at u b xs ≡ average_at u b (old ∷ rows)

  -- What the parameters of a statement make a row of.
  record Holds (user : String) (bucket : Time) (average : Option p.Float) (row : MetricsRow p)
      : Type 0 where
    pub user_id : p.uuid user ≡ some row.user_id
    pub bucket_at : row.bucket ≡ p.timestamp bucket
    pub held : nullable p.ratio average ≡ some row.avg_plan_adherence

  bucket_row-Holds :
      (user : String) (bucket : Time) (n w l : ℕ) (pnl : p.Decimal) (avg tilt : Option p.Float)
      (r e : ℕ) (row : MetricsRow p)
      → bucket_row user bucket n w l pnl avg tilt r e ≡ some row
      → Holds user bucket avg row
  unfolding bucket_row
  bucket_row-Holds user bucket n w l pnl avg tilt r e =
      let Q = Holds user bucket avg in
      >>=_each Q _ _ (λ u is_uuid. >>=_each Q _ _ (λ _ _. >>=_each Q _ _ (λ a is_ratio.
        >>=_each Q _ _ (λ _ _ row same.
          let kept = sym (some-injective _ _ same) in
          record {
            user_id = rw kept is_uuid;
            bucket_at = ap (λ (x : MetricsRow p). x.bucket) kept;
            held = rw kept is_ratio;
          }))))

  -- A statement that is accepted has left the average.
  abbrev pub IsWritten : String → Time → p.Float → Result (Unit {0}) → Db p → Type 0
  IsWritten u b a r d = r ≡ ok tt → average_at u b d.behavioral_metrics ≡ some a

  module _ (user u : String) (bucket : Time) (x : p.Float) {a : p.Float}
      (is_uuid : p.uuid user ≡ some u) (is_ratio : p.ratio x ≡ some a) where
    write_bucket-IsWritten :
        (made : Option (MetricsRow p)) (d : Db p)
        → ((new : MetricsRow p) → made ≡ some new → Holds user bucket (some x) new)
        → let (r, d') = write_bucket made d in IsWritten u (p.timestamp bucket) a r d'
    unfolding ◌>>=◌
    write_bucket-IsWritten none d holds = λ e. cc
    write_bucket-IsWritten (some new) d holds = by_rows (put_bucket new d.behavioral_metrics) refl
      where
        new_average :
            (rows : List (MetricsRow p))
            → put_bucket new d.behavioral_metrics ≡ some rows
            → average_at u (p.timestamp bucket) rows ≡ some a
        new_average rows e =
            let h = holds new refl in
            let same_user : u ≡ new.user_id = some-injective _ _ (sym is_uuid ∙ h.user_id) in
            let average : new.avg_plan_adherence ≡ some a =
              sym
                (some-injective _ _ (ap (λ o. o >>= λ b. some (some b)) (sym is_ratio) ∙ h.held)) in
            ap (λ v. average_at v (p.timestamp bucket) rows) same_user
            ∙ ap (λ b. average_at new.user_id b rows) (sym h.bucket_at)
            ∙ put_bucket-average new d.behavioral_metrics rows e
            ∙ ap (λ o. coalesce o (average_at new.user_id new.bucket d.behavioral_metrics)) average

        by_rows :
            (o : Option (List (MetricsRow p)))
            → put_bucket new d.behavioral_metrics ≡ o
            → let (r, d') =
                outcome_of d (o >>= λ rows. some (record d { behavioral_metrics = rows })) in
              IsWritten u (p.timestamp bucket) a r d'
        by_rows none e refused = cc
        by_rows (some rows) e accepted = new_average rows e

    -- A statement that is accepted leaves its average in the row of the user and the bucket.
    pub upsert_bucket-average :
        (n w l : ℕ) (pnl : p.Decimal) (tilt : Option p.Float) (r e : ℕ) (v : World p)
        → let (done, v') = upsert_bucket user bucket n w l pnl (some x) tilt r e v in
          IsWritten u (p.timestamp bucket) a done v'.db
    unfolding upsert_bucket
    upsert_bucket-average n w l pnl tilt r e v =
        let made = bucket_row user bucket n w l pnl (some x) tilt r e in
        statement_post (IsWritten u (p.timestamp bucket) a) (λ _ d. write_bucket made d) v
          (write_bucket-IsWritten made v.db
            (bucket_row-Holds user bucket n w l pnl (some x) tilt r e))
          (λ refused. cc) (λ refused. cc)

  -- A statement without an average keeps all of them, whatever call fails.
  pub upsert_bucket-keeps_average :
      (u : String) (b : Time) (user : String) (bucket : Time) (n w l : ℕ) (pnl : p.Decimal)
      (tilt : Option p.Float) (r e : ℕ) (v : World p)
      → average_at u b (upsert_bucket user bucket n w l pnl none tilt r e v).1.db.behavioral_metrics
        ≡ average_at u b v.db.behavioral_metrics
  unfolding upsert_bucket
  upsert_bucket-keeps_average u b user bucket n w l pnl tilt r e v =
      let Kept : Db p → Type 0 =
        λ d. average_at u b d.behavioral_metrics ≡ average_at u b v.db.behavioral_metrics in
      let made = bucket_row user bucket n w l pnl none tilt r e in
      statement_keeps Kept (λ _ d. write_bucket made d)
        (λ _ d h. outcome_of_keeps Kept d _ h (
          >>=_each Kept made _ (λ new is_made.
            >>=_each Kept (put_bucket new d.behavioral_metrics) _ (λ rows put d' same.
              subst Kept (some-injective _ _ same) (
                put_bucket-no_average u b new d.behavioral_metrics rows
                  (sym (some-injective _ _ (bucket_row-Holds _ _ _ _ _ _ _ _ _ _ new is_made).held))
                  put
                ∙ h)))))
        v refl
