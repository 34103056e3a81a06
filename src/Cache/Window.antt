-- ===== src/Cache/Window.antt =====
-- internal/cache/zset.go: the sliding window of a user's trades.
pub mod Laws
use trade_journal.Prelude.{ℕ, String, Option, none, some, Result, ok, err, unavailable}
use trade_journal.Prelude.Int.{ℤ, pos, ◌-ℤ◌}
use trade_journal.Platform.{Platform}
use trade_journal.Cache.LastLoss.{join}
use trade_journal.Store.World.{Call, call, command, returning, ◌>>=◌}

abbrev pub trades_key : String → String
trades_key user_id = join "user:" (join user_id ":trades-ts")

-- The three commands of the pipeline, in order; they are sent as one call.
unfoldable pub window_commands : (p : Platform) → String → ℤ → String → ℤ → p.Redis → ℕ × p.Redis
window_commands p key now_ms trade_id window_ms r =
    let added = p.zadd_nx r key now_ms trade_id in
    let trimmed = p.zremrangebyscore added key (pos 0) (now_ms -ℤ window_ms) in
    (p.zcount_from trimmed key (now_ms -ℤ window_ms), trimmed)

abbrev or_refused : {A : Type 0} → Option A → Result A
or_refused none = err unavailable
or_refused (some a) = ok a

abbrev trimmed_by : {R : Type 0} → R → Option R → Option (Unit {0}) × R
trimmed_by r none = (none, r)
trimmed_by r (some r') = (some tt, r')

module _ {p : Platform} where
  unfoldable pub add_nx : String → ℤ → String → Call p (Unit {0})
  add_nx key score member = call (command (λ _ r. (tt, p.zadd_nx r key score member)))

  unfoldable pub overtrading_check : String → ℤ → String → ℤ → Call p ℕ
  overtrading_check key now_ms trade_id window_ms =
      call (command (λ _ r. window_commands p key now_ms trade_id window_ms r))

  -- The bounds are texts; one that is no float is refused.
  unfoldable pub remove_by_score_range : String → String → String → Call p (Unit {0})
  remove_by_score_range key lo hi =
      call (command (λ _ r. trimmed_by r (p.zremrangebyscore_text r key lo hi))) >>= λ done.
      returning (or_refused done)

  unfoldable pub count_range : String → String → String → Call p ℕ
  count_range key lo hi = call (command (λ _ r. (p.zcount_text r key lo hi, r))) >>= λ counted.
      returning (or_refused counted)
