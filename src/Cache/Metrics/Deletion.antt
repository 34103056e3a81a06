-- ===== src/Cache/Metrics/Deletion.antt =====
-- What the calls of InvalidateUser's loop do to the stored keys, when they are answered.
use trade_journal.Prelude.{
  ℕ, suc, ◌≤◌, String, true, false, ◌≡◌, refl, ap, ◌∙◌, none, List, [], ◌∷◌, contains,
  if◌then◌else◌, arith, ok,
}
use trade_journal.Prelude.Time.{Time}
use trade_journal.Platform.{Platform}
use trade_journal.Platform.Laws.{ScanLaws}
use trade_journal.Store.World.{World, command, continue_with}
use trade_journal.Store.World.Frames.{call_answered}
use trade_journal.Cache.Metrics.{delete_all, delete_pages, next_page}

abbrev pub without : (p : Platform) → List String → p.Redis → p.Redis
without p [] r = r
without p (key ∷ keys) r = without p keys (p.redis_del r key)

module _ {p : Platform} where
  delete_all_answered :
      (keys : List String) (w : World p)
      → w.schedule ≡ []
      → delete_all keys w ≡ (ok tt, record w { redis = without p keys w.redis })
  unfolding delete_all
  delete_all_answered [] w quiet = refl
  delete_all_answered (key ∷ keys) w quiet =
      ap (continue_with (λ _. delete_all keys))
        (call_answered (command (λ now r. (tt, p.redis_del r key))) w quiet)
      ∙ delete_all_answered keys (record w { redis = p.redis_del w.redis key }) quiet

  -- A page of the iteration, and what is done after it.
  abbrev pub scanned : World p → String → ℕ → ℕ × List String
  scanned w pattern cursor = p.redis_scan w.redis w.now cursor pattern 100

  abbrev pub cleared : World p → String → ℕ → World p
  cleared w pattern cursor = record w { redis = without p (scanned w pattern cursor).1 w.redis }

  pub delete_pages_step :
      (n : ℕ) (pattern : String) (cursor : ℕ) (w : World p)
      → w.schedule ≡ []
      → delete_pages (suc n) pattern cursor w
        ≡ next_page (delete_pages n pattern) (scanned w pattern cursor).0 (cleared w pattern cursor)
  unfolding delete_pages
  delete_pages_step n pattern cursor w quiet =
      ap
        (continue_with (λ page v.
          continue_with (λ _. next_page (delete_pages n pattern) page.0) (delete_all page.1 v)))
        (call_answered (command (λ now r. (p.redis_scan r now cursor pattern 100, r))) w quiet)
      ∙ ap (continue_with (λ _. next_page (delete_pages n pattern) (scanned w pattern cursor).0))
          (delete_all_answered (scanned w pattern cursor).1 w quiet)

  module _ (laws : ScanLaws p) where
    get-without :
        (keys : List String) (r : p.Redis) (u : Time) (k : String)
        → p.redis_get (without p keys r) u k ≡ (if contains k keys then none else p.redis_get r u k)
    get-without [] r u k = refl
    get-without (key ∷ keys) r u k =
        ground (arith, get-without keys (p.redis_del r key) u k, laws.get-del r u key k)

    pub get_deleted :
        (keys : List String) (r : p.Redis) (u : Time) (k : String)
        → contains k keys ≡ true
        → p.redis_get (without p keys r) u k ≡ none
    get_deleted keys r u k deleted = ground (arith, get-without keys r u k, deleted)

    pub get_kept :
        (keys : List String) (r : p.Redis) (u : Time) (k : String)
        → contains k keys ≡ false
        → p.redis_get (without p keys r) u k ≡ p.redis_get r u k
    get_kept keys r u k kept = ground (arith, get-without keys r u k, kept)

    pub ahead-without :
        (keys : List String) (r : p.Redis) (t : Time) (pattern k : String) (cursor : ℕ)
        → contains k keys ≡ false
        → contains k (laws.ahead r t pattern cursor) ≡ true
        → contains k (laws.ahead (without p keys r) t pattern cursor) ≡ true
    ahead-without [] r t pattern k cursor out here = here
    ahead-without (key ∷ keys) r t pattern k cursor out here =
        ahead-without keys (p.redis_del r key) t pattern k cursor (ground (arith, out))
          (laws.ahead-del r t pattern key k cursor (ground (arith, out)) here)

    pub pages-without :
        (keys : List String) (r : p.Redis) (t : Time) (pattern : String) (cursor : ℕ)
        → laws.pages (without p keys r) t pattern cursor ≤ laws.pages r t pattern cursor
    pages-without [] r t pattern cursor = omega arith
    pages-without (key ∷ keys) r t pattern cursor = omega (
      arith,
      pages-without keys (p.redis_del r key) t pattern cursor,
      laws.pages-del r t pattern key cursor,
    )
