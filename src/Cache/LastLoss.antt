-- ===== src/Cache/LastLoss.antt =====
-- internal/cache/metrics.go, SetLastLoss and GetLastLoss.
pub mod Laws
use trade_journal.Prelude.{String, ◌*◌, ◌≡◌, Option, none, some, Result, ok, err, unavailable}
use trade_journal.Prelude.Int.{ℤ, pos}
use trade_journal.Prelude.Time.{second}
use trade_journal.Platform.{Platform, Payload, digits, bytes}
use trade_journal.Store.World.{Call, call, command, returning, ◌>>=◌}

abbrev pub join : String → String → String
join s t = Prim.Native.String.◌++◌ s t

abbrev pub last_loss_key : String → String
last_loss_key user_id = join "user:" (join user_id ":last_loss")

-- `Get(…).Int64()`; `redis.Nil`, a key that is missing or has expired, is no error and gives 0.
abbrev pub int_reply : Option Payload → Result ℤ
int_reply none = ok (pos 0)
int_reply (some (digits n)) = ok n
int_reply (some (bytes s)) = err unavailable

module _ {p : Platform} where
  unfoldable pub set_last_loss : String → ℤ → Call p (Unit {0})
  set_last_loss user_id exit_at_unix = call (
      command (λ now r.
        (tt, p.redis_set r now (last_loss_key user_id) (digits exit_at_unix) (90 * second))))

  unfoldable pub get_last_loss : String → Call p ℤ
  get_last_loss user_id =
      call (command (λ now r. (p.redis_get r now (last_loss_key user_id), r))) >>= λ reply.
      returning (int_reply reply)
