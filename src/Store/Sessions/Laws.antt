-- ===== src/Store/Sessions/Laws.antt =====
-- What the session store reads and sums up.
use trade_journal.Prelude.{
  ℕ, ◌+◌, ◌≤◌, String, ◌≡◌, refl, Option, none, some, List, [], ◌∷◌, arith, inl, inr, ◌≢◌, Result,
  ok, err, not_found, holds_text, if◌then◌else◌, Option-cases, ap, length, eqb,
}
use trade_journal.Prelude.Int.{pos}
use trade_journal.Platform.{Platform}
use trade_journal.Platform.Laws.{tally}
use trade_journal.Domain.Trade.{Trade}
use trade_journal.Store.Tables.{Db, Session}
use trade_journal.Store.World.{World}
use trade_journal.Store.World.Frames.{lookup_frame, lookup_ok, lookup_missing}
use trade_journal.Store.Sessions.{
  select_session, get_session, session_of, sum_trades, add_pnl, summarize, win_rate_of,
}

module _ {p : Platform} where
  select_session_ok :
      (id : String) (d : Db p) (o : Option Session)
      → select_session id d ≡ ok o
      → (u : String) × (p.uuid id ≡ some u) × (session_of u d.sessions ≡ o)
  unfolding select_session
  select_session_ok id d o e = elim (Option-cases (p.uuid id)) [
    | inl bad ↦ let impossible = rw (bad, select_session) at e in cc
    | inr (u, good) ↦ (u, good, ground arith)
  ]

  select_session-ne-missing : (id : String) (d : Db p) → select_session id d ≢ err not_found
  unfolding select_session
  select_session-ne-missing id d e = elim (Option-cases (p.uuid id)) [
    | inl bad ↦ ground arith
    | inr (u, good) ↦ ground arith
  ]

  pub get_session_frame : (id : String) (w : World p) → (get_session id w).1.db ≡ w.db
  unfolding get_session
  get_session_frame id w = lookup_frame (select_session id) w

  pub get_session_ok :
      (id : String) (w : World p) (s : Session)
      → (get_session id w).0 ≡ ok s
      → (u : String) × (p.uuid id ≡ some u) × (session_of u w.db.sessions ≡ some s)
  unfolding get_session
  get_session_ok id w s e = select_session_ok id w.db (some s) (lookup_ok (select_session id) w e)

  pub get_session_missing :
      (id : String) (w : World p)
      → (get_session id w).0 ≡ err not_found
      → (u : String) × (p.uuid id ≡ some u) × (session_of u w.db.sessions ≡ none)
  unfolding get_session
  get_session_missing id w e =
      select_session_ok id w.db none
        (lookup_missing (select_session id) w (select_session-ne-missing id w.db) e)

  abbrev pub is_win : Trade p → trade_journal.Prelude.Bool
  is_win t = holds_text t.outcome "win"

  -- The loop counts the wins.
  pub sum_trades_wins :
      (total : p.Decimal) (wins : ℕ) (ts : List (Trade p))
      → (sum_trades total wins ts).1 ≡ wins + tally is_win ts
  unfolding sum_trades
  sum_trades_wins total wins [] = omega arith
  sum_trades_wins total wins (t ∷ ts) =
      let rest = sum_trades_wins (add_pnl p total t.pnl) (if is_win t then wins + 1 else wins) ts in
      ground (arith, rest)

  tally-le-length :
      (q : Trade p → trade_journal.Prelude.Bool) (ts : List (Trade p)) → tally q ts ≤ length ts
  tally-le-length q [] = omega arith
  tally-le-length q (t ∷ ts) = ground (arith, tally-le-length q ts)

  wins_from_zero : (ts : List (Trade p)) → (sum_trades {p = p} p.dec_zero 0 ts).1 ≡ tally is_win ts
  wins_from_zero ts = omega (arith, sum_trades_wins p.dec_zero 0 ts)

  -- A summary counts all trades that it lists; its win rate is the number of those with the
  -- outcome win, which is at most all of them, over their number, and 0 where there are none.
  pub summarize_wins :
      (s : Session) (ts : List (Trade p))
      → ((summarize s ts).trade_count ≡ length ts)
        × (tally is_win ts ≤ length ts)
        × ((summarize s ts).win_rate ≡ (
            if eqb (length ts) 0
            then p.to_float (pos 0)
            else p.float_div (p.to_float (pos (tally is_win ts))) (p.to_float (pos (length ts)))))
  unfolding summarize
  summarize_wins s ts = (
    refl,
    tally-le-length is_win ts,
    ap (λ (n : ℕ). win_rate_of p n (length ts)) (wins_from_zero ts),
  )
