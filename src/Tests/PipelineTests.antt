-- ===== src/Tests/PipelineTests.antt =====
-- The worker at concrete events.
use trade_journal.Prelude.{[], ◌∷◌}
use trade_journal.Prelude.{◌≡◌, refl, Bool, String, eqb, ◌&&◌, ◌==◌, ok}
use trade_journal.Prelude.Time.{Time, hour, truncate}
use trade_journal.Pipeline.{count_event, field, pnl_of}
use trade_journal.Pipeline.Worker.{loop}
use trade_journal.Pipeline.Worker.Delivery.{loop_counts}
use trade_journal.Platform.Laws.{GroupLaws}
use trade_journal.Tests.StreamMachine.{groups}
use trade_journal.Cache.Stream.{arg_texts}
use trade_journal.Api.TradeHandler.{
  decoded, create, event_data, run_task, publish, price, check_revenge,
}
use trade_journal.Store.Columns.{◌>>=◌}
use trade_journal.Store.Metrics.{upsert_bucket, bucket_row, put_bucket}
use trade_journal.Store.Metrics.Counter.{losses, revenges}
use trade_journal.Store.Metrics.Sums.{counted_in}
use trade_journal.Store.World.{World, answered, refused, lost, call, call_with}
use trade_journal.Pipeline.{Fields}
use trade_journal.Pipeline.Events.{Reads, event_data-Reads}
use trade_journal.Prelude.{some, none, true, false}
use trade_journal.Prelude.Int.{pos, negsuc}
use trade_journal.Domain.Trade.{Trade, TradeInput, validate, compute_pnl}
use trade_journal.Domain.Trade.Validation.{validate_iff}
use trade_journal.Domain.Enums.{
  is_valid_asset_class, is_valid_direction, is_valid_status, is_valid_emotional_state,
}
use trade_journal.Store.Columns.{trade_row}
use trade_journal.Api.TradeHandler.Submission.{prepared}
use trade_journal.Pipeline.Worker.Resubmitted.{CountsAgain, resubmission_counts}
use trade_journal.Tests.TextMachine.{text_machine, texts, strokes, of_number}
use trade_journal.Tests.Fixtures.{sam, morning, server}

abbrev closed_event : Fields
closed_event =
    ("tradeId", "t1")
    ∷ ("userId", "sam")
    ∷ ("sessionId", "s1")
    ∷ ("status", "closed")
    ∷ ("direction", "long")
    ∷ ("entryAt", "2025-01-06T09:30:00Z")
    ∷ ("outcome", "loss")
    ∷ ("pnl", "7")
    ∷ ("revengeFlag", "1")
    ∷ []

abbrev text_trade : Trade text_machine
text_trade = record {
  trade_id = "t1";
  user_id = "sam";
  session_id = "s1";
  asset = "AAPL";
  asset_class = "equity";
  direction = "long";
  entry_price = pos 10;
  exit_price = some (pos 7);
  quantity = pos 2;
  entry_at = 1_500_000_000;
  exit_at = none;
  status = "closed";
  plan_adherence = some (pos 4);
  emotional_state = none;
  entry_rationale = none;
  outcome = some "loss";
  pnl = some (negsuc 5);
  revenge_flag = true;
  created_at = 0;
  updated_at = 0;
}

event_data-Reads_example : Reads texts text_trade
event_data-Reads_example = event_data-Reads texts text_trade

abbrev text_world : World text_machine
text_world = record {
  db = record {
    users = sam ∷ [];
    sessions = morning ∷ [];
    trades = text_trade ∷ [];
    behavioral_metrics = [];
    emotion_win_rates = [];
    overtrading_events = [];
    debriefs = [];
  };
  redis = server;
  now = 0;
  schedule = answered ∷ lost ∷ refused ∷ [];
}

-- The hour of the entry of the trade.
abbrev is_its_hour : Time → String → Bool
is_its_hour bucket user = eqb bucket 0 && user == "sam"

counts_once_quietly :
    (count_event
      (arg_texts text_machine (event_data text_trade))
      (truncate text_trade.entry_at hour)
      (record text_world { schedule = [] })).0
    ≡ ok tt
unfolding upsert_bucket bucket_row put_bucket call call_with field pnl_of event_data ◌>>=◌ strokes
    of_number
counts_once_quietly = refl

-- A world whose calls are answered, with every entry of its stream given.
abbrev quiet_world : World text_machine
quiet_world = record text_world { schedule = [] }

abbrev text_groups : GroupLaws text_machine
text_groups = record {
  unread = groups.unread;
  pending = groups.pending;
  read_none = groups.read_none;
  read_some = groups.read_some;
  ack_unread = groups.ack_unread;
  ack_pending = groups.ack_pending;
  added = groups.added;
  added_values = groups.added_values;
  add_unread = groups.add_unread;
  unread-set = groups.unread-set;
  unread-zadd = groups.unread-zadd;
  window_frame = groups.window_frame;
}

loop_counts_example :
    counted_in losses is_its_hour
      (loop 3 (run_task (publish (event_data text_trade)) quiet_world)).db
    ≡ 1
loop_counts_example =
    loop_counts text_groups texts text_trade losses is_its_hour "sam" 2 quiet_world refl refl refl
      refl counts_once_quietly

-- The request that the trade was recorded for, sent once more.
abbrev text_input : TradeInput text_machine
text_input = record {
  trade_id = "t1";
  user_id = "sam";
  session_id = "s1";
  asset = "AAPL";
  asset_class = "equity";
  direction = "long";
  entry_price = pos 10;
  exit_price = some (pos 7);
  quantity = pos 2;
  entry_at = 1_500_000_000;
  exit_at = none;
  status = "closed";
  plan_adherence = some (pos 4);
  emotional_state = none;
  entry_rationale = none;
}

text_accepted : validate text_input ≡ ok tt
unfolding validate is_valid_asset_class is_valid_direction is_valid_status is_valid_emotional_state
text_accepted = refl

text_row :
    trade_row {p = text_machine} 0 (prepared text_input quiet_world).0
    ≡ some (record text_trade { revenge_flag = false })
unfolding trade_row ◌>>=◌ check_revenge price compute_pnl trade_journal.Prelude.Int.◌-ℤ◌
    trade_journal.Prelude.Int.◌*ℤ◌
text_row = refl

resubmission_counts_example :
    CountsAgain revenges is_its_hour 2 1 text_trade quiet_world
      (create "sam" "trace" (decoded text_input) quiet_world)
resubmission_counts_example =
    resubmission_counts text_groups texts revenges is_its_hour "sam" "trace" "sam" text_input
      (record text_trade { revenge_flag = false }) text_trade 2 quiet_world
      ((validate_iff text_input).0 text_accepted, refl) refl text_row refl refl refl refl
      counts_once_quietly
