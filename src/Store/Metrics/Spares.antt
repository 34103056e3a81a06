-- ===== src/Store/Metrics/Spares.antt =====
-- What the statements on metrics, emotions and overtrading events leave of the other tables.
use mathlib.Core.Option.{some-injective}
use trade_journal.Prelude.{
  ℕ, ◌≤◌, leb, String, true, Option, some, List, [], ◌∷◌, ◌++◌, Result, ◌≡◌, refl, sym, ap, subst,
  ◌∙◌, arith,
}
use trade_journal.Prelude.Time.{Time}
use trade_journal.Platform.{Platform}
use trade_journal.Store.Columns.{◌>>=◌}
use trade_journal.Store.Columns.Laws.{>>=_each}
use trade_journal.Store.Metrics.{
  outcome_of, write_bucket, upsert_bucket, write_emotion, upsert_emotion_win_rate, write_event,
  insert_overtrading_event,
}
use trade_journal.Store.Metrics.Counts.{outcome_of_keeps}
use trade_journal.Store.Tables.{Db, MetricsRow}
use trade_journal.Store.Trades.{has_user}
use trade_journal.Store.World.{World, call, statement}
use trade_journal.Store.World.Frames.{call_answered, statement_keeps}

module _ {p : Platform} where
  -- The tables that the detection reads and writes.
  abbrev pub Spares : Db p → Db p → Type 0
  Spares d d' =
      (d'.users ≡ d.users) × (d'.overtrading_events ≡ d.overtrading_events) × (d'.trades ≡ d.trades)

  write_bucket-Spares : (made : Option (MetricsRow p)) (d : Db p) → Spares d (write_bucket made d).1
  write_bucket-Spares made d =
      outcome_of_keeps (Spares d) d _ (refl, refl, refl)
        (>>=_each (Spares d) _ _ (λ _ _.
          >>=_each (Spares d) _ _
            (λ _ _ d' e. subst (Spares d) (some-injective _ _ e) (refl, refl, refl))))

  write_emotion-Spares :
      (user emotion : String) (date : Time) (won lost : ℕ) (d d' : Db p)
      → write_emotion user emotion date won lost d ≡ some d'
      → Spares d d'
  unfolding write_emotion
  write_emotion-Spares user emotion date won lost d = >>=_each (Spares d) _ _ (λ _ _.
      >>=_each (Spares d) _ _ (λ _ _. >>=_each (Spares d) _ _ (λ _ _.
        >>=_each (Spares d) _ _
          (λ _ _ d' e. subst (Spares d) (some-injective _ _ e) (refl, refl, refl)))))

  -- What the detection reads and writes is as before, and no fault is ahead.
  pub record IsSame (w v : World p) : Type 0 where
    pub quiet : v.schedule ≡ []
    pub redis : v.redis ≡ w.redis
    pub now : v.now ≡ w.now
    pub tables : Spares w.db v.db

  module _ {w : World p} where
    pub statement-IsSame :
        {A : Type 0} (f : Time → Db p → Result A × Db p) (v : World p)
        → ((now : Time) (d : Db p) → Spares d (f now d).1)
        → IsSame w v
        → IsSame w (call (statement f) v).1
    statement-IsSame f v keeps h =
        let (users, events, trades) = keeps v.now v.db in
        subst (λ x. IsSame w x.1) (sym (call_answered (statement f) v h.quiet))
          (record {
            quiet = h.quiet;
            redis = h.redis;
            now = h.now;
            tables = (users ∙ h.tables.0, events ∙ h.tables.1, trades ∙ h.tables.2);
          })

    pub upsert_bucket-IsSame :
        (user : String) (bucket : Time) (n won lost : ℕ) (pnl : p.Decimal)
        (avg index : Option p.Float) (revenge events : ℕ) (v : World p)
        → IsSame w v
        → IsSame w (upsert_bucket user bucket n won lost pnl avg index revenge events v).1
    unfolding upsert_bucket
    upsert_bucket-IsSame user bucket n won lost pnl avg index revenge events v =
        statement-IsSame _ v (λ _ d. write_bucket-Spares _ d)

    pub upsert_emotion-IsSame :
        (user emotion : String) (date : Time) (won lost : ℕ) (v : World p)
        → IsSame w v
        → IsSame w (upsert_emotion_win_rate user emotion date won lost v).1
    unfolding upsert_emotion_win_rate
    upsert_emotion-IsSame user emotion date won lost v = statement-IsSame _ v (λ _ d.
        outcome_of_keeps (Spares d) d _ (refl, refl, refl) (write_emotion-Spares _ _ _ _ _ d))

  -- An overtrading event of a known user is inserted, and nothing else changes in its table.
  pub event_inserted :
      (user u : String) (start : Time) (n : ℕ) (w : World p)
      → w.schedule ≡ []
      → p.uuid user ≡ some u
      → has_user w.db u ≡ true
      → n ≤ 2_147_483_647
      → (insert_overtrading_event user start n w).1.db.overtrading_events
        ≡ w.db.overtrading_events
          ++ record {
            user_id = u;
            window_start = p.timestamp start;
            trade_count = n;
            emitted_at = p.timestamp w.now;
          }
            ∷ []
  unfolding insert_overtrading_event write_event ◌>>=◌
  event_inserted user u start n w quiet is_uuid known fits =
      let small : leb n 2_147_483_647 ≡ true = ground arith in
      ap (λ x. x.1.db.overtrading_events)
        (call_answered (statement (λ now d. outcome_of d (write_event user start n now d))) w quiet)
      ∙ rw (is_uuid, known, small)

  -- The other statements of the store leave the table behavioral_metrics alone.
  abbrev HasMetrics : List (MetricsRow p) → Db p → Type 0
  HasMetrics rows d = d.behavioral_metrics ≡ rows

  write_emotion-HasMetrics :
      (user emotion : String) (date : Time) (wins losses : ℕ) (d d' : Db p)
      → write_emotion user emotion date wins losses d ≡ some d'
      → HasMetrics d.behavioral_metrics d'
  unfolding write_emotion
  write_emotion-HasMetrics user emotion date wins losses d =
      let Q = HasMetrics d.behavioral_metrics in
      >>=_each Q _ _ (λ _ _. >>=_each Q _ _ (λ _ _.
        >>=_each Q _ _ (λ _ _. >>=_each Q _ _ (λ _ _ d' e. subst Q (some-injective _ _ e) refl))))

  write_event-HasMetrics :
      (user : String) (start : Time) (count : ℕ) (now : Time) (d d' : Db p)
      → write_event user start count now d ≡ some d'
      → HasMetrics d.behavioral_metrics d'
  unfolding write_event
  write_event-HasMetrics user start count now d =
      let Q = HasMetrics d.behavioral_metrics in
      >>=_each Q _ _ (λ _ _.
        >>=_each Q _ _ (λ _ _. >>=_each Q _ _ (λ _ _ d' e. subst Q (some-injective _ _ e) refl)))

  pub upsert_emotion_win_rate_frame :
      (user emotion : String) (date : Time) (wins losses : ℕ) (w : World p)
      → (upsert_emotion_win_rate user emotion date wins losses w).1.db.behavioral_metrics
        ≡ w.db.behavioral_metrics
  unfolding upsert_emotion_win_rate
  upsert_emotion_win_rate_frame user emotion date wins losses w =
      statement_keeps (HasMetrics w.db.behavioral_metrics) _
        (λ _ d h.
          outcome_of_keeps (HasMetrics w.db.behavioral_metrics) d _ h
            (λ d' e. write_emotion-HasMetrics user emotion date wins losses d d' e ∙ h))
        w refl

  pub insert_overtrading_event_frame :
      (user : String) (start : Time) (count : ℕ) (w : World p)
      → (insert_overtrading_event user start count w).1.db.behavioral_metrics
        ≡ w.db.behavioral_metrics
  unfolding insert_overtrading_event
  insert_overtrading_event_frame user start count w =
      statement_keeps (HasMetrics w.db.behavioral_metrics) _
        (λ now d h.
          outcome_of_keeps (HasMetrics w.db.behavioral_metrics) d _ h
            (λ d' e. write_event-HasMetrics user start count now d d' e ∙ h))
        w refl
