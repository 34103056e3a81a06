-- ===== src/Tests/WorkerTests.antt =====
-- The worker's loop at a stream of two events.
use trade_journal.Prelude.{String, ◌≡◌, refl, ◌≤◌, List, [], ◌∷◌, arith, length, map, ◌*◌}
use trade_journal.Prelude.Int.{pos, ◌-ℤ◌}
use trade_journal.Prelude.Time.{second}
use trade_journal.Platform.{str, Arg, Message}
use trade_journal.Store.World.{World, Fault, lost, refused, answered, call, call_with}
use trade_journal.Cache.Stream.{add, arg_texts}
use trade_journal.Pipeline.{Fields, field, process_message}
use trade_journal.Pipeline.Detection.{process_message-detects}
use trade_journal.Pipeline.Worker.{stream_name, group_name, handle, loop}
use trade_journal.Pipeline.Worker.History.{History, start, published}
use trade_journal.Pipeline.Worker.Order.{InOrder, loop-InOrder}
use trade_journal.Pipeline.Worker.Totals.{IsSound, loop-IsSound}
use trade_journal.Pipeline.Worker.Draining.{IsDrained, loop-IsDrained}
use trade_journal.Pipeline.Worker.Losses.{failing, calls_of, handle_forgets}
use trade_journal.Tests.Machine.{machine}
use trade_journal.Tests.StreamMachine.{groups}
use trade_journal.Tests.Fixtures.{losing_trade, world_of, fresh, server, monday}
use trade_journal.Tests.MachineLaws.{zsets}

abbrev event_args : List (String × Arg)
event_args =
    ("tradeId", str "t1")
    ∷ ("userId", str "sam")
    ∷ ("sessionId", str "s1")
    ∷ ("status", str "closed")
    ∷ ("entryAt", str "2025-01-06T09:30:00Z")
    ∷ ("outcome", str "loss")
    ∷ ("emotionalState", str "anxious")
    ∷ ("revengeFlag", str "1")
    ∷ []

abbrev event : Fields
event = arg_texts machine event_args

-- A world in which the next calls meet these faults.
abbrev before : List Fault → World machine
before = world_of (losing_trade ∷ [])

-- The worker starts, and two events are published.
abbrev after_two : List Fault → World machine
after_two faults = (add stream_name event_args (add stream_name event_args (before faults)).1).1

abbrev two :
    (faults : List Fault) → History (before faults) (event ∷ event ∷ []) [] (after_two faults)
two faults = published event_args (published event_args start)

loop-InOrder_example :
    let faults = answered ∷ answered ∷ lost ∷ [] in
    (later : List Fields) × History
      (before faults)
      (event ∷ event ∷ [])
      later
      (loop 4 (after_two faults))
    × InOrder groups (before faults) (event ∷ event ∷ []) later (loop 4 (after_two faults))
loop-InOrder_example = loop-InOrder groups 4 (two (answered ∷ answered ∷ lost ∷ []))

loop-IsSound_example :
    let faults = answered ∷ answered ∷ answered ∷ lost ∷ refused ∷ [] in
    (later : List Fields) × History
      (before faults)
      (event ∷ event ∷ [])
      later
      (loop 4 (after_two faults))
    × IsSound 0 (length later) (loop 4 (after_two faults)).db
loop-IsSound_example =
    loop-IsSound 4 (two (answered ∷ answered ∷ answered ∷ lost ∷ refused ∷ [])) tt

after_two_quiet : (after_two []).schedule ≡ []
unfolding add call call_with
after_two_quiet = refl

after_two_owes : (after_two []).redis.pending ≡ []
unfolding add call call_with
after_two_owes = refl

after_two_fits : length (after_two []).redis.unread ≤ 2
unfolding add call call_with
after_two_fits = omega arith

loop-IsDrained_example :
    IsDrained groups (loop 2 (after_two []))
    × History (after_two []) [] (event ∷ event ∷ []) (loop 2 (after_two []))
unfolding add call
loop-IsDrained_example =
    loop-IsDrained groups 2 (after_two []) after_two_quiet after_two_owes after_two_fits

abbrev first_message : Message
first_message = record { id = "1736155800000-0"; values = event }

handle_forgets_example :
    let v = handle first_message (failing (before []) (calls_of event)) in
    (v ≡ record (failing (before []) 0) {
      redis = machine.xack (before []).redis stream_name group_name "1736155800000-0";
    })
    × (v.redis.unread ≡ [])
    × (v.redis.pending ≡ [])
unfolding field
handle_forgets_example = handle_forgets groups first_message (before []) refl

-- Sam has entered ten trades a quarter of an hour before the one of the event.
abbrev crowded : World machine
crowded = record fresh {
  redis = record server {
    zsets = λ key.
        map (λ id. (id, pos 1736154900000))
          ("a" ∷ "b" ∷ "c" ∷ "d" ∷ "e" ∷ "f" ∷ "g" ∷ "h" ∷ "i" ∷ "j" ∷ []);
  };
}

process_message-detects_example :
    (process_message event crowded).db.overtrading_events
    ≡ record {
      user_id = "sam";
      window_start = 63871750800 * second;
      trade_count = 11;
      emitted_at = monday;
    }
      ∷ []
unfolding field ◌-ℤ◌
process_message-detects_example =
    process_message-detects zsets event monday "sam" crowded refl refl refl refl refl (omega arith)
      (omega arith)

-- The plan adherence of Sam's trade, 4, goes into the bucket of its hour.
abbrev rated_event : Fields
rated_event = ("planAdherence", "4") ∷ event
