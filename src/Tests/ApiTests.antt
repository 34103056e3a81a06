-- ===== src/Tests/ApiTests.antt =====
-- POST /trades and GET /trades/{tradeId} at concrete requests.
use mathlib.Core.Option.{some-injective}
use trade_journal.Prelude.{
  ◌↔◌, eq_iff, sym, ◌≡◌, ◌≢◌, refl, true, false, some, none, List, [], ◌∷◌, ◌++◌, ◌+◌, ◌*◌, ◌<◌,
  arith, ltb, if◌then◌else◌, String, Result, ok, err, select, ◌==◌, inl, inr, ◌⊎◌,
}
use trade_journal.Prelude.Int.{ℤ, pos, negsuc}
use trade_journal.Prelude.Time.{Time, second, unix, unix_milli}
use trade_journal.Domain.Revenge.{is_revenge}
use trade_journal.Domain.Trade.{Trade, TradeInput, validate}
use trade_journal.Domain.Trade.Validation.{validate_iff}
use trade_journal.Domain.Enums.{
  is_valid_asset_class, is_valid_direction, is_valid_status, is_valid_emotional_state,
}
use trade_journal.Store.Columns.{trade_row, ◌>>=◌}
use trade_journal.Store.World.{World, refused, lost}
use trade_journal.Api.Response.{trade, respond_json, respond_forbidden}
use trade_journal.Api.TradeHandler.{
  Task, publish, add_to_window, store_last_loss, decoded, create, get, side_effects, build, price,
  check_revenge, run_task, event_data,
}
use trade_journal.Api.TradeHandler.Tenancy.{
  IsRefused, Guards, trades_of_user, create_isolated, create_refuses, get-Guards,
}
use trade_journal.Api.TradeHandler.Resubmission.{IsRepeat, create_resubmits, create_discloses}
use trade_journal.Cache.LastLoss.{set_last_loss}
use trade_journal.Api.TradeHandler.Submission.{prepared}
use trade_journal.Api.TradeHandler.Recording.{create_records}
use trade_journal.Cache.LastLoss.{last_loss_key}
use trade_journal.Cache.Stream.{arg_texts}
use trade_journal.Cache.Window.{trades_key}
use trade_journal.Platform.{digits}
use trade_journal.Platform.Laws.{has_member}
use trade_journal.Api.TradeHandler.Tasks.{Runs, done, pick}
use trade_journal.Api.TradeHandler.Goroutines.{IsLoss, unread_values}
use trade_journal.Api.TradeHandler.Goroutines.Found.{Runs-side_effects}
use trade_journal.Tests.StreamMachine.{groups}
use trade_journal.Api.TradeHandler.AfterLoss.{FollowsLoss, create_after_loss}
use trade_journal.Tests.MachineLaws.{keys, zsets}
use trade_journal.Tests.Machine.{machine}
use trade_journal.Tests.Fixtures.{
  monday, losing_input, copied_input, losing_trade, copied_trade, world_of, fresh, recorded,
}

other_users : ¬ (◌≡◌ {A = String} "kim" "sam")
other_users e = no ((eq_iff "kim" "sam").1 e)
  where
    no : ¬ (false ≡ true)
    no h = cc

-- Kim submits a trade while every second call is lost: Sam's rows are as they were.
create_isolated_example :
    trades_of_user "sam"
      (create "kim" "trace"
        (decoded copied_input)
        (world_of (losing_trade ∷ []) (lost ∷ refused ∷ []))).2.db
    ≡ losing_trade ∷ []
create_isolated_example =
    create_isolated "kim" "trace" (decoded copied_input)
      (world_of (losing_trade ∷ []) (lost ∷ refused ∷ [])) "sam"
      (λ e. other_users (some-injective _ _ e))

-- Kim submits a trade in Sam's name.
create_refuses_example : IsRefused fresh (create "kim" "trace" (decoded losing_input) fresh)
create_refuses_example =
    create_refuses "kim" "trace" (decoded losing_input) fresh (λ a. other_users (sym a.1))

get-Guards_example :
    Guards "kim" "t1" recorded.db (get "kim" "trace" "t1" recorded).0
    × ((get "kim" "trace" "t1" recorded).1.db ≡ recorded.db)
get-Guards_example = get-Guards "kim" "trace" "t1" recorded

create_resubmits_example :
    IsRepeat losing_trade recorded (create "sam" "trace" (decoded losing_input) recorded)
create_resubmits_example =
    create_resubmits "sam" "trace" "t1" losing_input losing_trade recorded refl refl

copied_accepted : validate copied_input ≡ ok tt
unfolding validate is_valid_asset_class is_valid_direction is_valid_status is_valid_emotional_state
copied_accepted = refl

copied_row :
    trade_row {p = machine} monday (check_revenge (price (build copied_input)) recorded).0
    ≡ some copied_trade
unfolding trade_row ◌>>=◌ check_revenge price trade_journal.Domain.Trade.compute_pnl
    trade_journal.Cache.LastLoss.get_last_loss trade_journal.Store.World.call
    trade_journal.Store.World.call_with trade_journal.Prelude.Int.◌-ℤ◌
    trade_journal.Prelude.Int.◌*ℤ◌
copied_row = refl

-- Kim submits a trade under the id of Sam's, and is shown Sam's.
create_discloses_example :
    (create "kim" "trace" (decoded copied_input) recorded
      ≡ (respond_json 200 (trade losing_trade), side_effects losing_trade, recorded))
    × ((get "kim" "trace" "t1" recorded).0 ≡ respond_forbidden "trace")
create_discloses_example =
    create_discloses "kim" "trace" copied_input copied_trade losing_trade recorded
      ((validate_iff copied_input).0 copied_accepted, refl) refl copied_row refl
      (λ e. other_users (sym e))

fresh_row :
    trade_row {p = machine} monday (check_revenge (price (build copied_input)) fresh).0
    ≡ some copied_trade
unfolding trade_row ◌>>=◌ check_revenge price trade_journal.Domain.Trade.compute_pnl
    trade_journal.Cache.LastLoss.get_last_loss trade_journal.Store.World.call
    trade_journal.Store.World.call_with trade_journal.Prelude.Int.◌-ℤ◌
    trade_journal.Prelude.Int.◌*ℤ◌
fresh_row = refl

-- Kim's trade is recorded in Sam's session.
create_records_example : create "kim" "trace" (decoded copied_input) fresh ≡ (
  respond_json 200 (trade copied_trade),
  side_effects copied_trade,
  world_of (copied_trade ∷ []) [],
)
create_records_example =
    create_records "kim" "trace" copied_input copied_trade fresh
      ((validate_iff copied_input).0 copied_accepted, refl) refl fresh_row refl refl refl

-- The goroutines of Sam's losing trade: the event, the window, the loss.
abbrev event_task : Task
event_task = publish (event_data losing_trade)

abbrev window_task : Task
window_task = add_to_window (trades_key "sam") (unix_milli monday) "t1"

abbrev loss_task_of_sam : Task
loss_task_of_sam = store_last_loss "sam" (unix (monday + 60 * second))

-- They run in another order than they are started in.
abbrev settled : World machine
settled = run_task loss_task_of_sam (run_task event_task (run_task window_task recorded))

tasks_run : Runs (side_effects losing_trade) recorded settled
unfolding side_effects
tasks_run = pick (loss_task_of_sam ∷ event_task ∷ []) [] window_task refl (
    pick (loss_task_of_sam ∷ []) [] event_task refl
      (pick [] [] loss_task_of_sam refl (done settled)))

Runs-side_effects_example :
    (unread_values groups settled ≡ arg_texts machine (event_data losing_trade) ∷ [])
    × (has_member "t1" (zsets.members settled.redis (trades_key "sam")) ≡ true)
    × ((user : String) (exit u : Time)
        → IsLoss user exit losing_trade
        → machine.redis_get settled.redis u (last_loss_key user)
          ≡ (if ltb u (monday + 90 * second) then some (digits (unix exit)) else none))
Runs-side_effects_example = Runs-side_effects keys zsets groups losing_trade refl tasks_run

-- 45 seconds later Sam opens a trade, 40 seconds after the exit, in an anxious state.
abbrev next_input : TradeInput machine
next_input = record losing_input {
  trade_id = "t2";
  exit_price = none;
  entry_at = monday + 100 * second;
  exit_at = none;
  status = "open";
}

abbrev next_world : World machine
next_world = record recorded { redis = settled.redis; now = monday + 45 * second }

abbrev next_trade : Trade machine
next_trade = record losing_trade {
  trade_id = "t2";
  exit_price = none;
  entry_at = monday + 100 * second;
  exit_at = none;
  status = "open";
  outcome = none;
  pnl = none;
  revenge_flag = true;
  created_at = monday + 45 * second;
  updated_at = monday + 45 * second;
}

next_accepted : validate next_input ≡ ok tt
unfolding validate is_valid_asset_class is_valid_direction is_valid_status is_valid_emotional_state
next_accepted = refl

next_row :
    trade_row {p = machine} (monday + 45 * second) (prepared next_input next_world).0
    ≡ some next_trade
unfolding trade_row ◌>>=◌ check_revenge price side_effects run_task set_last_loss is_revenge
    trade_journal.Cache.LastLoss.get_last_loss trade_journal.Store.World.call
    trade_journal.Store.World.call_with trade_journal.Cache.Stream.add
    trade_journal.Cache.Window.add_nx
next_row = refl

create_after_loss_example :
    ((create "sam" "trace" (decoded next_input) next_world).0 ≡ respond_json 200 (trade next_trade))
    × ((next_trade.revenge_flag ≡ true) ↔ (
        (45 * second < 90 * second)
        × FollowsLoss (monday + 60 * second) (monday + 100 * second) (some "anxious")))
unfolding side_effects
create_after_loss_example =
    create_after_loss keys "sam" "trace" (monday + 60 * second) losing_trade next_trade next_input
      [] recorded settled next_world (45 * second)
      (record { user_id = refl; status = refl; outcome = refl; exit_at = refl }) (omega arith) tt
      refl tasks_run refl refl refl ((validate_iff next_input).0 next_accepted, refl) next_row refl
      refl refl
