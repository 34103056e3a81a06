-- ===== src/Pipeline/Detection.antt =====
-- When the worker reports overtrading.
use mathlib.Core.List.{append-nil}
use trade_journal.Prelude.{
  ℕ, ◌+◌, ◌≤◌, ltb, String, true, some, [], ◌∷◌, ◌++◌, if◌then◌else◌, ◌==◌, Result, ok, ◌≡◌, refl,
  sym, ap, subst, ◌∙◌, inl, inr, Bool-cases, arith, is_some, find,
}
use trade_journal.Prelude.Int.{ℤ, pos, ◌-ℤ◌, ◌≤ℤ◌, ltb_ℤ}
use trade_journal.Prelude.Time.{Time, hour, truncate, unix_milli, from_unix_milli}
use trade_journal.Platform.{Platform}
use trade_journal.Platform.Laws.{ZSetLaws, tally, has_member}
use trade_journal.Domain.Overtrading.{max_trades_per_window, window_duration_ms}
use trade_journal.Cache.Window.{trades_key, overtrading_check, window_commands}
use trade_journal.Cache.Window.Laws.{window_count}
use trade_journal.Store.Metrics.Spares.{IsSame, event_inserted}
use trade_journal.Store.Tables.{OvertradingRow, User}
use trade_journal.Store.Trades.{has_user}
use trade_journal.Store.World.{World, command}
use trade_journal.Store.World.Frames.{call_answered}
use trade_journal.Pipeline.{
  Fields, field, report_window, detect_overtrading, process_closed, process_message,
}
use trade_journal.Pipeline.Frames.{
  count_trade-IsSame, update_adherence-IsSame, update_tilt-IsSame, update_emotion-IsSame,
}

-- The window starts before the trade it is about.
starts_before : (now_ms : ℤ) → ltb_ℤ (now_ms -ℤ pos window_duration_ms) now_ms ≡ true
unfolding ◌-ℤ◌
starts_before now_ms = ground arith

-- The row of an overtrading event.
abbrev pub overtrading_row : (p : Platform) → String → Time → ℕ → Time → OvertradingRow
overtrading_row p user_id entry_at n now = record {
  user_id = user_id;
  window_start = p.timestamp (from_unix_milli (unix_milli entry_at -ℤ pos window_duration_ms));
  trade_count = n;
  emitted_at = p.timestamp now;
}

module _ {p : Platform} where
  -- The trades of the user whose score lies after the start of the window that ends at the entry,
  -- this one among them.
  abbrev pub trades_counted : ZSetLaws p → p.Redis → Fields → Time → ℕ
  trades_counted laws r values entry_at =
      let start = unix_milli entry_at -ℤ pos window_duration_ms in
      let members = laws.members r (trades_key (field values "userId")) in
      tally (λ e. ltb_ℤ start e.1) members
      + (if has_member (field values "tradeId") members then 0 else 1)

  report_window-inserts :
      (user u : String) (entry_at : Time) (n : ℕ) (v : World p)
      → v.schedule ≡ []
      → p.uuid user ≡ some u
      → has_user v.db u ≡ true
      → n ≤ 2_147_483_647
      → (report_window user (unix_milli entry_at) (ok n, v)).db.overtrading_events
        ≡ v.db.overtrading_events
          ++ (if ltb max_trades_per_window n then overtrading_row p u entry_at n v.now ∷ [] else [])
  report_window-inserts user u entry_at n v quiet is_uuid known fits =
      elim (Bool-cases (ltb max_trades_per_window n)) [
        | inl many ↦ rw (many) (event_inserted user u _ n v quiet is_uuid known fits)
        | inr few ↦ rw (few, append-nil v.db.overtrading_events) refl
      ]

  module _ (laws : ZSetLaws p) (values : Fields) (entry_at : Time) (u : String) where
    window_commands-counts :
        (r : p.Redis)
        → pos 0 ≤ℤ unix_milli entry_at -ℤ pos window_duration_ms
        → (window_commands p
            (trades_key (field values "userId"))
            (unix_milli entry_at)
            (field values "tradeId")
            (pos window_duration_ms)
            r).0
          ≡ trades_counted laws r values entry_at
    window_commands-counts r late =
        window_count laws _ (unix_milli entry_at) (pos window_duration_ms) _ r late
        ∙ rw (starts_before (unix_milli entry_at)) refl

    detect_overtrading-inserts :
        (v : World p)
        → v.schedule ≡ []
        → p.uuid (field values "userId") ≡ some u
        → has_user v.db u ≡ true
        → pos 0 ≤ℤ unix_milli entry_at -ℤ pos window_duration_ms
        → trades_counted laws v.redis values entry_at ≤ 2_147_483_647
        → let n = trades_counted laws v.redis values entry_at in
          (detect_overtrading values entry_at v).db.overtrading_events
          ≡ v.db.overtrading_events
            ++ (if ltb max_trades_per_window n
                then overtrading_row p u entry_at n v.now ∷ []
                else [])
    unfolding detect_overtrading overtrading_check
    detect_overtrading-inserts v quiet is_uuid known late fits =
        let key = trades_key (field values "userId") in
        let checked =
          call_answered
            (command (λ _ r.
              window_commands p key (unix_milli entry_at) (field values "tradeId")
                (pos window_duration_ms) r))
            v quiet in
        let after = record v {
          redis =
              (window_commands p key (unix_milli entry_at) (field values "tradeId")
                (pos window_duration_ms) v.redis).1;
        } in
        let report = λ (x : Result ℕ × World p).
          (report_window (field values "userId") (unix_milli entry_at) x).db.overtrading_events in
        ap report checked
        ∙ ap (λ n. report (ok n, after)) (window_commands-counts v.redis late)
        ∙ report_window-inserts (field values "userId") u entry_at _ after quiet is_uuid known fits

    -- The detection after the other steps, which leave what it reads and writes alone.
    detects_later :
        {w v : World p}
        → IsSame w v
        → p.uuid (field values "userId") ≡ some u
        → has_user w.db u ≡ true
        → pos 0 ≤ℤ unix_milli entry_at -ℤ pos window_duration_ms
        → trades_counted laws w.redis values entry_at ≤ 2_147_483_647
        → let n = trades_counted laws w.redis values entry_at in
          (detect_overtrading values entry_at v).db.overtrading_events
          ≡ w.db.overtrading_events
            ++ (if ltb max_trades_per_window n
                then overtrading_row p u entry_at n w.now ∷ []
                else [])
    detects_later {w} {v} h is_uuid known late fits =
        detect_overtrading-inserts v h.quiet is_uuid
          (ap (λ users. is_some (find (λ (x : User). x.user_id == u) users)) h.tables.0 ∙ known)
          late
          (subst (λ r. trades_counted laws r values entry_at ≤ 2_147_483_647) (sym h.redis) fits)
        ∙ rw (h.redis, h.now, h.tables.1) refl

  -- With no fault ahead, the worker inserts an overtrading event for the message of a closed trade
  -- exactly when more than ten of the user's trades have a score above the start of the window of
  -- 30 minutes that ends at the trade's entry, this trade among them whether or not the handler
  -- entered it before: trades later than the entry count too. The event has the user, the start
  -- of the window, that number and the current time, and the earlier events stay. The conditions
  -- are that the entry time parses, the user is known, the window starts at or after the epoch
  -- and the number fits the column.
  pub process_message-detects :
      (laws : ZSetLaws p) (values : Fields) (entry_at : Time) (u : String) (w : World p)
      → w.schedule ≡ []
      → (field values "status" == "closed") ≡ true
      → p.parse_time (field values "entryAt") ≡ some entry_at
      → p.uuid (field values "userId") ≡ some u
      → has_user w.db u ≡ true
      → pos 0 ≤ℤ unix_milli entry_at -ℤ pos window_duration_ms
      → trades_counted laws w.redis values entry_at ≤ 2_147_483_647
      → let n = trades_counted laws w.redis values entry_at in
        (process_message values w).db.overtrading_events
        ≡ w.db.overtrading_events
          ++ (if ltb max_trades_per_window n then overtrading_row p u entry_at n w.now ∷ [] else [])
  unfolding process_message process_closed
  process_message-detects laws values entry_at u w quiet closed entered is_uuid known late fits =
      let bucket = truncate entry_at hour in
      let nothing : IsSame w w = record {
        quiet = quiet;
        redis = refl;
        now = refl;
        tables = (refl, refl, refl);
      } in
      let before = update_emotion-IsSame values entry_at (
        update_tilt-IsSame values bucket
          (update_adherence-IsSame values bucket (count_trade-IsSame values bucket nothing))) in
      rw (closed, entered) (detects_later laws values entry_at u before is_uuid known late fits)
