-- ===== src/Store/Evidence.antt =====
-- internal/store/trade_store.go, GetEvidenceForPathology.
pub mod Laws
use trade_journal.Prelude.{
  ℕ, ◌+◌, ◌*◌, String, Bool, true, false, ◌&&◌, ◌||◌, Option, none, some, List, [], ◌∷◌, select,
  take, contains, ltb, leb, holds_text, ◌==◌, if◌then◌else◌, Result, ok, err,
}
use trade_journal.Prelude.Int.{pos, leb_ℤ}
use trade_journal.Prelude.Time.{Time, second}
use trade_journal.Platform.{Platform}
use trade_journal.Platform.Laws.{tally}
use trade_journal.Domain.Trade.{Trade}
use trade_journal.Store.Columns.{uuid_param}
use trade_journal.Store.Tables.{Db}
use trade_journal.Store.World.{Call, query}

-- `EvidenceResult`
pub record EvidenceResult : Type 0 where
  pub trade_ids : List String
  pub session_ids : List String

-- `EXTRACT(EPOCH FROM (exit_at - entry_at)) < 1800`, for an exit that is not NULL.
abbrev is_early : Time → Option Time → Bool
is_early entry_at none = false
is_early entry_at (some exit_at) = ltb exit_at (entry_at + 1800 * second)

module _ {p : Platform} where
  abbrev is_lax : Trade p → Bool
  is_lax t = elim t.plan_adherence [ none ↦ false | some n ↦ leb_ℤ n (pos 2) ]

  abbrev is_large_loss : Trade p → Bool
  is_large_loss t =
      holds_text t.outcome "loss" && elim t.pnl [ none ↦ false | some x ↦ p.abs_exceeds x 100 ]

  abbrev quantities : List (Trade p) → List p.Decimal
  quantities [] = []
  quantities (t ∷ ts) = t.quantity ∷ quantities ts

  -- The clause that is added for a pathology, for the user's trades `own` and one of them: NULL is
  -- not true.
  unfoldable pub where_clause : String → List (Trade p) → Trade p → Bool
  where_clause pathology own t =
      if pathology == "revenge_trading"
      then t.revenge_flag
      else if pathology == "overtrading"
      then ltb 8 (tally (λ o. o.session_id == t.session_id) own)
      else if pathology == "fomo_entries"
      then holds_text t.emotional_state "greedy"
      else if pathology == "plan_non_adherence"
      then is_lax t
      else if pathology == "premature_exit"
      then t.status == "closed" && is_early t.entry_at t.exit_at
      else if pathology == "loss_running"
      then is_large_loss t
      else if pathology == "session_tilt"
      then ltb 0 (tally (λ o. o.session_id == t.session_id && holds_text o.outcome "loss") own)
      else if pathology == "time_of_day_bias"
      then ltb (p.hour_of t.entry_at) 9 || ltb 15 (p.hour_of t.entry_at)
      else if pathology == "position_sizing_inconsistency"
      then p.exceeds_average t.quantity (quantities own)
      else true

  -- `ORDER BY entry_at DESC`
  abbrev pub by_latest_entry : Trade p → Trade p → Bool
  by_latest_entry a b = leb b.entry_at a.entry_at

  unfoldable pub evidence_rows : String → String → List (Trade p) → List (Trade p)
  evidence_rows user pathology trades =
      let own = select (λ t. t.user_id == user) trades in
      take 10 (p.order_by (Trade p) by_latest_entry (select (where_clause pathology own) own))

  -- The loop over the rows: every trade id, and every session id once, where it is met first.
  unfoldable pub trade_ids_of : List (Trade p) → List String
  trade_ids_of [] = []
  trade_ids_of (t ∷ ts) = t.trade_id ∷ trade_ids_of ts

  unfoldable pub session_ids_of : List String → List (Trade p) → List String
  session_ids_of seen [] = []
  session_ids_of seen (t ∷ ts) = elim (contains t.session_id seen) [
    | true ↦ session_ids_of seen ts
    | false ↦ t.session_id ∷ session_ids_of (t.session_id ∷ seen) ts
  ]

  abbrev pub evidence_of : List (Trade p) → EvidenceResult
  evidence_of rows = record { trade_ids = trade_ids_of rows; session_ids = session_ids_of [] rows }

  unfoldable pub select_evidence : String → String → Db p → Result EvidenceResult
  select_evidence user_id pathology d = elim (uuid_param p user_id) [
    | err e ↦ err e
    | ok u ↦ ok (evidence_of (evidence_rows u pathology d.trades))
  ]

  unfoldable pub get_evidence_for_pathology : String → String → Call p EvidenceResult
  get_evidence_for_pathology user_id pathology = query (select_evidence user_id pathology)
