-- ===== src/Api/SessionHandler/Access.antt =====
-- Who reads a session.
use trade_journal.Prelude.{String, ◌≡◌, ◌≢◌, some, List, ok}
use trade_journal.Platform.{Platform}
use trade_journal.Domain.Trade.{Trade}
use trade_journal.Store.Tables.{Db, Session}
use trade_journal.Store.World.{World}
use trade_journal.Store.Sessions.{session_of, session_rows, summarize}
use trade_journal.Api.Response.{Response, summary}

module _ {p : Platform} where
  -- What an answer of GET /sessions/{sessionId} says of the tables.
  pub record SessionGuards (sub id : String) (d : Db p) (response : Response p) : Type 0 where
    pub owned :
        response.status ≡ 200
        → (u : String) × (s : Session) × (rows : List (Trade p)) × (p.uuid id ≡ some u)
          × (session_of u d.sessions ≡ some s)
          × (s.user_id ≡ sub)
          × (session_rows id d ≡ ok rows)
          × (response.body ≡ summary (summarize s rows))
    pub foreign :
        response.status ≡ 403
        → (u : String) × (s : Session) × (p.uuid id ≡ some u)
          × (session_of u d.sessions ≡ some s)
          × (s.user_id ≢ sub)
