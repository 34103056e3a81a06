-- ===== src/Cache/Metrics.antt =====
-- internal/cache/metrics.go: Get, Set and InvalidateUser of the cached answers.
pub mod Laws
pub mod Deletion
pub mod Invalidation
use trade_journal.Prelude.{
  ℕ, zero, suc, String, ◌*◌, Option, List, [], ◌∷◌, eqb, if◌then◌else◌, ok, err, unavailable,
}
use trade_journal.Prelude.Time.{minute}
use trade_journal.Platform.{Platform, Payload, digits, bytes, int}
use trade_journal.Cache.LastLoss.{join}
use trade_journal.Store.World.{Call, call, command, returning, ◌>>=◌}

-- The bytes that were cached; an integer is sent as its digits.
abbrev pub payload_text : Platform → Payload → String
payload_text p (digits n) = p.arg_text (int n)
payload_text p (bytes s) = s

abbrev pub metrics_pattern : String → String
metrics_pattern user_id = join "metrics:" (join user_id ":*")

module _ {p : Platform} where
  -- `redis.Nil` is no error: nothing is cached.
  unfoldable pub get_cached : String → Call p (Option Payload)
  get_cached key = call (command (λ now r. (p.redis_get r now key, r)))

  unfoldable pub set_cached : String → String → Call p (Unit {0})
  set_cached key text =
      call (command (λ now r. (tt, p.redis_set r now key (bytes text) (5 * minute))))

  -- The loop over the keys of a page: the first error ends it.
  unfoldable pub delete_all : List String → Call p (Unit {0})
  delete_all [] = returning (ok tt)
  delete_all (key ∷ keys) =
      call (command (λ now r. (tt, p.redis_del r key))) >>= λ _. delete_all keys

  abbrev next_page : (ℕ → Call p (Unit {0})) → ℕ → Call p (Unit {0})
  next_page more next = if eqb next 0 then returning (ok tt) else more next

  -- The iterator: it fetches a page when the keys of the one before have been deleted, and ends
  -- with cursor 0. The first argument is fuel, one for each page.
  unfoldable pub delete_pages : ℕ → String → ℕ → Call p (Unit {0})
  delete_pages zero pattern cursor = returning (err unavailable)
  delete_pages (suc n) pattern cursor =
      call (command (λ now r. (p.redis_scan r now cursor pattern 100, r))) >>= λ page.
      delete_all page.1 >>= λ _. next_page (delete_pages n pattern) page.0

  unfoldable pub invalidate_user : ℕ → String → Call p (Unit {0})
  invalidate_user n user_id = delete_pages n (metrics_pattern user_id) 0
