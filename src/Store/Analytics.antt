-- ===== src/Store/Analytics.antt =====
-- internal/store/trade_store.go, the queries of the worker: GetLastPlanAdherenceRatings and
-- GetSessionTiltData.
pub mod Tilt
use trade_journal.Prelude.{
  ℕ, String, Bool, true, false, ◌&&◌, Option, none, some, List, [], ◌∷◌, leb, select, take, is_some,
  ◌==◌, Result, ok, err,
}
use trade_journal.Prelude.Int.{ℤ, pos}
use trade_journal.Prelude.Time.{Time}
use trade_journal.Platform.{Platform}
use trade_journal.Platform.Laws.{tally}
use trade_journal.Domain.Enums.{status_closed, outcome_loss}
use trade_journal.Domain.Trade.{Trade}
use trade_journal.Store.Columns.{uuid_param}
use trade_journal.Store.Tables.{Db}
use trade_journal.Store.World.{Call, query}

-- `exit_at DESC`; NULL comes first.
abbrev exit_desc : Option Time → Option Time → Bool
exit_desc none b = true
exit_desc (some a) none = false
exit_desc (some a) (some b) = leb b a

abbrev is_loss : Option String → Bool
is_loss none = false
is_loss (some o) = o == outcome_loss

module _ {p : Platform} where
  abbrev pub by_entry : Trade p → Trade p → Bool
  by_entry a b = leb a.entry_at b.entry_at

  abbrev by_latest_exit : Trade p → Trade p → Bool
  by_latest_exit a b = exit_desc a.exit_at b.exit_at

  -- The column plan_adherence of rows in which it is not NULL.
  adherences : List (Trade p) → List ℤ
  adherences [] = []
  adherences (t ∷ ts) = elim t.plan_adherence [ none ↦ adherences ts | some a ↦ a ∷ adherences ts ]

  unfoldable pub select_ratings : String → ℕ → Db p → Result (List ℤ)
  unfolding adherences
  select_ratings user_id limit d = elim (uuid_param p user_id) [
    | err e ↦ err e
    | ok u ↦ ok (
        adherences (
          take limit (
            p.order_by (Trade p) by_latest_exit (
              select
                (λ t. t.user_id == u && (t.status == status_closed && is_some t.plan_adherence))
                d.trades))))
  ]

  unfoldable pub get_last_plan_adherence_ratings : String → ℕ → Call p (List ℤ)
  get_last_plan_adherence_ratings user_id limit = query (select_ratings user_id limit)

  -- `LAG(outcome) OVER (…)`: each row's column prev_outcome, NULL for the first row.
  unfoldable pub lag_outcomes : Option String → List (Trade p) → List (Option String)
  lag_outcomes prev [] = []
  lag_outcomes prev (t ∷ ts) = prev ∷ lag_outcomes t.outcome ts

  -- `COUNT(*) FILTER (WHERE prev_outcome = 'loss')` and `COUNT(*)`, where it is not NULL.
  unfoldable pub tilt_counts : List (Trade p) → ℤ × ℤ
  tilt_counts trades =
      let prevs = select is_some (lag_outcomes none trades) in
      (pos (tally is_loss prevs), pos (tally (λ _. true) prevs))

  unfoldable pub select_tilt : String → Db p → Result (ℤ × ℤ)
  select_tilt session_id d = elim (uuid_param p session_id) [
    | err e ↦ err e
    | ok u ↦
        ok (tilt_counts (p.order_by (Trade p) by_entry (select (λ t. t.session_id == u) d.trades)))
  ]

  unfoldable pub get_session_tilt_data : String → Call p (ℤ × ℤ)
  get_session_tilt_data session_id = query (select_tilt session_id)
