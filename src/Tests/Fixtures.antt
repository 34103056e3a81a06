-- ===== src/Tests/Fixtures.antt =====
-- Two users, a session of each, a submitted trade, and the trade as it is recorded.
use trade_journal.Prelude.{◌+◌, ◌*◌, none, some, List, [], ◌∷◌, false}
use trade_journal.Prelude.Int.{pos, negsuc}
use trade_journal.Prelude.Time.{Time, second}
use trade_journal.Domain.Trade.{Trade, TradeInput}
use trade_journal.Store.Tables.{Db, User, Session}
use trade_journal.Store.World.{World, Fault}
use trade_journal.Tests.Machine.{machine, Server}

-- 6 January 2025, 09:30 in UTC.
abbrev pub monday : Time
monday = 63871752600 * second

abbrev pub sam : User
sam = record { user_id = "sam"; name = "Sam"; role = "trader"; pathology = none }

abbrev pub kim : User
kim = record { user_id = "kim"; name = "Kim"; role = "trader"; pathology = some "overtrading" }

abbrev pub morning : Session
morning = record { session_id = "s1"; user_id = "sam"; started_at = monday; notes = none }

abbrev pub losing_input : TradeInput machine
losing_input = record {
  trade_id = "t1";
  user_id = "sam";
  session_id = "s1";
  asset = "AAPL";
  asset_class = "equity";
  direction = "long";
  entry_price = pos 10;
  exit_price = some (pos 7);
  quantity = pos 2;
  entry_at = monday;
  exit_at = some (monday + 60 * second);
  status = "closed";
  plan_adherence = some (pos 4);
  emotional_state = some "anxious";
  entry_rationale = none;
}

-- The trade as another user submits it under the same id.
abbrev pub copied_input : TradeInput machine
copied_input = record losing_input { user_id = "kim" }

abbrev pub losing_trade : Trade machine
losing_trade = record {
  trade_id = "t1";
  user_id = "sam";
  session_id = "s1";
  asset = "AAPL";
  asset_class = "equity";
  direction = "long";
  entry_price = pos 10;
  exit_price = some (pos 7);
  quantity = pos 2;
  entry_at = monday;
  exit_at = some (monday + 60 * second);
  status = "closed";
  plan_adherence = some (pos 4);
  emotional_state = some "anxious";
  entry_rationale = none;
  outcome = some "loss";
  pnl = some (negsuc 5);
  revenge_flag = false;
  created_at = monday;
  updated_at = monday;
}

abbrev pub copied_trade : Trade machine
copied_trade = record losing_trade { user_id = "kim" }

abbrev pub server : Server
server = record { strings = []; zsets = λ key. []; entries = 0; unread = []; pending = [] }

abbrev pub tables : List (Trade machine) → Db machine
tables trades = record {
  users = sam ∷ kim ∷ [];
  sessions = morning ∷ [];
  trades = trades;
  debriefs = [];
  behavioral_metrics = [];
  emotion_win_rates = [];
  overtrading_events = [];
}

abbrev pub world_of : List (Trade machine) → List Fault → World machine
world_of trades schedule = record {
  db = tables trades;
  redis = server;
  now = monday;
  schedule = schedule;
}

-- Nothing is recorded; the trade is; every call is answered.
abbrev pub fresh : World machine
fresh = world_of [] []

abbrev pub recorded : World machine
recorded = world_of (losing_trade ∷ []) []
