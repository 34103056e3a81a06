-- ===== src/Store/Sessions.antt =====
-- internal/store/session_store.go, and ListBySession of trade_store.go.
pub mod Laws
use trade_journal.Prelude.{
  ℕ, ◌+◌, String, Bool, Option, none, some, List, [], ◌∷◌, ◌++◌, find, select, ◌==◌, is_some, eqb,
  if◌then◌else◌, length, holds_text, Error, Result, ok, err, unavailable,
}
use trade_journal.Prelude.Int.{ℤ, pos}
use trade_journal.Prelude.Time.{Time}
use trade_journal.Platform.{Platform}
use trade_journal.Domain.Enums.{outcome_win, valid_emotions}
use trade_journal.Domain.Trade.{Trade}
use trade_journal.Store.Analytics.{by_entry}
use trade_journal.Store.Columns.{◌>>=◌, nullable, enum, rating, uuid_param}
use trade_journal.Store.Scan.{scan_all}
use trade_journal.Store.Tables.{Db, Session, Debrief}
use trade_journal.Store.Trades.{has_session}
use trade_journal.Store.World
use trade_journal.Store.World.{Call, call, statement, query, returning, lookup}

-- `SessionSummary`
pub record SessionSummary (p : Platform) : Type 0 where
  pub session_id : String
  pub user_id : String
  pub date : Time
  pub notes : Option String
  pub trade_count : ℕ
  pub win_rate : p.Float
  pub total_pnl : p.Decimal
  pub trades : List (Trade p)

-- The fields of a `Debrief` that the statement returns.
pub record Receipt : Type 0 where
  pub debrief_id : String
  pub session_id : String
  pub saved_at : Time

-- The fields of a `Debrief` that the handler gives.
pub record DebriefValues : Type 0 where
  pub overall_mood : String
  pub key_mistake : Option String
  pub key_lesson : Option String
  pub plan_adherence_rating : Option ℤ
  pub will_review_tomorrow : Bool

-- `WHERE session_id = …`; session_id is the primary key.
abbrev pub session_of : String → List Session → Option Session
session_of id = find (λ s. s.session_id == id)

abbrev receipt_of : Debrief → Receipt
receipt_of row = record {
  debrief_id = row.debrief_id;
  session_id = row.session_id;
  saved_at = row.saved_at;
}

abbrev add_pnl : (p : Platform) → p.Decimal → Option p.Decimal → p.Decimal
add_pnl p total none = total
add_pnl p total (some pnl) = p.dec_add total pnl

abbrev win_rate_of : (p : Platform) → ℕ → ℕ → p.Float
win_rate_of p wins count =
    if eqb count 0
    then p.to_float (pos 0)
    else p.float_div (p.to_float (pos wins)) (p.to_float (pos count))

-- The row that the INSERT makes of its parameters; debrief_id and saved_at are the defaults.
unfoldable pub debrief_row : (p : Platform) → String → DebriefValues → Time → ℕ → Option Debrief
debrief_row p id v now n = do
  u ← p.uuid id
  mood ← enum valid_emotions v.overall_mood
  key_mistake ← nullable p.text v.key_mistake
  key_lesson ← nullable p.text v.key_lesson
  plan_adherence_rating ← nullable rating v.plan_adherence_rating
  some (record {
    debrief_id = p.gen_uuid n;
    session_id = u;
    overall_mood = mood;
    key_mistake = key_mistake;
    key_lesson = key_lesson;
    plan_adherence_rating = plan_adherence_rating;
    will_review_tomorrow = v.will_review_tomorrow;
    saved_at = p.timestamp now;
  })

module _ {p : Platform} where
  unfoldable pub select_session : String → Db p → Result (Option Session)
  select_session id d = elim (uuid_param p id) [
    | err e ↦ err e
    | ok u ↦ ok (session_of u d.sessions)
  ]

  unfoldable pub get_session : String → Call p Session
  get_session id = lookup (select_session id)

  unfoldable pub session_rows : String → Db p → Result (List (Trade p))
  session_rows id d = elim (uuid_param p id) [
    | err e ↦ err e
    | ok u ↦ scan_all (p.order_by (Trade p) by_entry (select (λ t. t.session_id == u) d.trades))
  ]

  unfoldable pub list_by_session : String → Call p (List (Trade p))
  list_by_session id = query (session_rows id)

  -- The loop over the trades: the total profit and the wins so far.
  unfoldable pub sum_trades : p.Decimal → ℕ → List (Trade p) → p.Decimal × ℕ
  sum_trades total wins [] = (total, wins)
  sum_trades total wins (t ∷ ts) =
      sum_trades (add_pnl p total t.pnl)
        (if holds_text t.outcome outcome_win then wins + 1 else wins) ts

  unfoldable pub summarize : Session → List (Trade p) → SessionSummary p
  summarize s trades =
      let (total, wins) = sum_trades p.dec_zero 0 trades in
      record {
        session_id = s.session_id;
        user_id = s.user_id;
        date = s.started_at;
        notes = s.notes;
        trade_count = length trades;
        win_rate = win_rate_of p wins (length trades);
        total_pnl = total;
        trades = trades;
      }

  unfoldable pub get_with_trades : String → Call p (SessionSummary p)
  get_with_trades id =
      World.◌>>=◌ (get_session id)
        (λ s. World.◌>>=◌ (list_by_session id) (λ trades. returning (ok (summarize s trades))))

  -- The session must be there: a foreign key.
  unfoldable pub store_debrief : Option Debrief → Db p → Result Receipt × Db p
  store_debrief none d = (err unavailable, d)
  store_debrief (some row) d =
      if has_session d row.session_id
      then (ok (receipt_of row), record d { debriefs = d.debriefs ++ row ∷ [] })
      else (err unavailable, d)

  unfoldable pub insert_debrief : String → DebriefValues → Call p Receipt
  insert_debrief id v =
      call (statement (λ now d. store_debrief (debrief_row p id v now (length d.debriefs)) d))
