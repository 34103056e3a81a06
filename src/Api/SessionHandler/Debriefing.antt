-- ===== src/Api/SessionHandler/Debriefing.antt =====
-- Who writes a debrief, and of which session.
use trade_journal.Prelude.{
  String, ◌≡◌, refl, ◌≢◌, ◌⊎◌, inl, inr, Option, none, some, [], ◌∷◌, ◌++◌, length, arith, ◌==◌,
  eq_iff, Bool-cases, Error, Result, ok, err, duplicate, not_found, forbidden, unauthorized,
  bad_request, unavailable, busy_group, subst,
}
use trade_journal.Prelude.Time.{Time}
use trade_journal.Platform.{Platform}
use trade_journal.Store.Tables.{Db, Session, Debrief}
use trade_journal.Store.World.{World}
use trade_journal.Store.World.Frames.{statement_post}
use trade_journal.Domain.Enums.{is_valid_emotional_state}
use trade_journal.Store.Trades.{has_session}
use trade_journal.Store.Sessions.{
  Receipt, DebriefValues, session_of, get_session, debrief_row, store_debrief, insert_debrief,
}
use trade_journal.Store.Sessions.Laws.{get_session_ok, get_session_frame}
use trade_journal.Api.Response.{Response}
use trade_journal.Api.TradeHandler.{Decoded, malformed, decoded}
use trade_journal.Api.SessionHandler.{
  DebriefInput, values_of, answer_debrief, debrief_body, debrief_of, debrief, fetch_failed,
}

fetch_failed_status :
    (p : Platform) (trace : String) (e : Error) → (fetch_failed {p = p} trace e).status ≢ 201
fetch_failed_status p trace not_found h = ground arith
fetch_failed_status p trace duplicate h = ground arith
fetch_failed_status p trace forbidden h = ground arith
fetch_failed_status p trace unauthorized h = ground arith
fetch_failed_status p trace (bad_request m) h = ground arith
fetch_failed_status p trace busy_group h = ground arith
fetch_failed_status p trace unavailable h = ground arith

module _ {p : Platform} where
  -- What a saved debrief adds: one row for a recorded session of the token's user.
  pub data Debriefs (sub id : String) (body : Decoded DebriefInput) (d : Db p)
      (response : Response p) (d' : Db p) : Type 0 where
    keeps : response.status ≢ 201 → d' ≡ d → Debriefs sub id body d response d'
    saves :
        (u : String) (s : Session) (input : DebriefInput) (now : Time) (row : Debrief)
        → p.uuid id ≡ some u
        → session_of u d.sessions ≡ some s
        → s.user_id ≡ sub
        → body ≡ decoded input
        → debrief_row p id (values_of input) now (length d.debriefs) ≡ some row
        → d' ≡ record d { debriefs = d.debriefs ++ row ∷ [] }
        → Debriefs sub id body d response d'

  -- The statement fails and changes nothing, or appends the row that it makes; the reply of the
  -- latter can be lost.
  abbrev Saves : String → DebriefValues → Time → Db p → Result Receipt → Db p → Type 0
  Saves id v now d r d' =
      ((r ≡ err unavailable) × (d' ≡ d))
      ⊎ ((row : Debrief) × (debrief_row p id v now (length d.debriefs) ≡ some row)
          × (d' ≡ record d { debriefs = d.debriefs ++ row ∷ [] }))

  store_debrief-Saves :
      (id : String) (v : DebriefValues) (now : Time) (d : Db p) (made : Option Debrief)
      → debrief_row p id v now (length d.debriefs) ≡ made
      → Saves id v now d (store_debrief made d).0 (store_debrief made d).1
  unfolding store_debrief
  store_debrief-Saves id v now d none e = inl (refl, refl)
  store_debrief-Saves id v now d (some row) e = elim (Bool-cases (has_session d row.session_id)) [
    | inl known ↦ rw known (inr (row, e, refl))
    | inr dangling ↦ rw dangling (inl (refl, refl))
  ]

  lose_reply :
      (id : String) (v : DebriefValues) (now : Time) (d d' : Db p) (r : Result Receipt)
      → Saves id v now d r d'
      → Saves id v now d (err unavailable) d'
  lose_reply id v now d d' r (inl (e, same)) = inl (refl, same)
  lose_reply id v now d d' r (inr saved) = inr saved

  insert_debrief-Saves :
      (id : String) (v : DebriefValues) (w : World p)
      → Saves id v w.now w.db (insert_debrief id v w).0 (insert_debrief id v w).1.db
  unfolding insert_debrief
  insert_debrief-Saves id v w =
      let body = store_debrief-Saves id v w.now w.db _ refl in
      statement_post (Saves id v w.now w.db)
        (λ now d. store_debrief (debrief_row p id v now (length d.debriefs)) d) w body
        (inl (refl, refl)) (lose_reply id v w.now w.db _ _ body)

  answer_debrief-Debriefs :
      (sub trace id u : String) (s : Session) (input : DebriefInput) (now : Time) (d : Db p)
      (x : Result Receipt × World p)
      → p.uuid id ≡ some u
      → session_of u d.sessions ≡ some s
      → s.user_id ≡ sub
      → Saves id (values_of input) now d x.0 x.1.db
      → Debriefs sub id (decoded input) d (answer_debrief trace x).0 (answer_debrief trace x).1.db
  answer_debrief-Debriefs sub trace id u s input now d (err e, v) key held owner (inl (bad, same)) =
      keeps (λ h. ground arith) same
  answer_debrief-Debriefs sub trace id u s input now d (ok r, v) key held owner (inl (bad, same)) =
      cc
  answer_debrief-Debriefs sub trace id u s input now d (err e, v) key held owner
        (inr (row, made, more)) =
      saves u s input now row key held owner refl made more
  answer_debrief-Debriefs sub trace id u s input now d (ok r, v) key held owner
        (inr (row, made, more)) =
      saves u s input now row key held owner refl made more

  debrief_body-Debriefs :
      (sub trace id u : String) (s : Session) (body : Decoded DebriefInput) (w : World p)
      → p.uuid id ≡ some u
      → session_of u w.db.sessions ≡ some s
      → s.user_id ≡ sub
      → Debriefs sub id body w.db
          (debrief_body trace id body w).0
          (debrief_body trace id body w).1.db
  debrief_body-Debriefs sub trace id u s (malformed m) w key held owner =
      keeps (λ h. ground arith) refl
  debrief_body-Debriefs sub trace id u s (decoded input) w key held owner =
      elim (Bool-cases (is_valid_emotional_state input.overall_mood)) [
        | inl mood ↦ rw mood (
            answer_debrief-Debriefs sub trace id u s input w.now w.db
              (insert_debrief id (values_of input) w) key held owner
              (insert_debrief-Saves id (values_of input) w))
        | inr bad ↦ rw bad (keeps (λ h. ground arith) refl)
      ]

  debrief_of-Debriefs :
      (sub trace id : String) (body : Decoded DebriefInput) (d : Db p)
      (x : Result Session × World p)
      → x.1.db ≡ d
      → ((s : Session)
          → x.0 ≡ ok s
          → (u : String) × (p.uuid id ≡ some u) × (session_of u d.sessions ≡ some s))
      → Debriefs sub id body d
          (debrief_of sub trace id body x).0
          (debrief_of sub trace id body x).1.db
  debrief_of-Debriefs sub trace id body d (err e, v) same found =
      keeps (fetch_failed_status p trace e) same
  debrief_of-Debriefs sub trace id body d (ok s, v) same found =
      let (u, key, held) = found s refl in
      elim (Bool-cases (s.user_id == sub)) [
        | inl own ↦
            subst
              (λ d'.
                Debriefs sub id body d' (debrief_of sub trace id body (ok s, v)).0
                  (debrief_of sub trace id body (ok s, v)).1.db)
              same
              (rw own (
                debrief_body-Debriefs sub trace id u s body v key (rw same held)
                  ((eq_iff _ _).0 own)))
        | inr other ↦ rw other (keeps (λ h. ground arith) same)
      ]

  pub debrief-Debriefs :
      (sub trace id : String) (body : Decoded DebriefInput) (w : World p)
      → Debriefs sub id body w.db (debrief sub trace id body w).0 (debrief sub trace id body w).1.db
  unfolding debrief
  debrief-Debriefs sub trace id body w =
      debrief_of-Debriefs sub trace id body w.db (get_session id w) (get_session_frame id w)
        (λ s. get_session_ok id w s)
