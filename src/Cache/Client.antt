-- ===== src/Cache/Client.antt =====
-- internal/cache/redis.go: the Redis client is given out when the server has answered a ping.
use trade_journal.Platform.{Platform}
use trade_journal.Store.World.{Call, call, command}

-- `NewRedisClient`; the client is its address, and the error is wrapped.
unfoldable pub new_redis_client : {p : Platform} → Call p (Unit {0})
new_redis_client = call (command (λ _ r. (tt, r)))
