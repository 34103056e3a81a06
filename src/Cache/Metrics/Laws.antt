-- ===== src/Cache/Metrics/Laws.antt =====
-- What caching an answer does to the reads of its key.
use trade_journal.Prelude.{
  ℕ, ◌+◌, ◌*◌, String, ◌≡◌, ap, ◌∙◌, [], ok, some, none, arith, ltb, if◌then◌else◌, eq_refl, Option,
}
use trade_journal.Prelude.Time.{minute}
use trade_journal.Platform.{Platform, Payload, bytes}
use trade_journal.Platform.Laws.{KeyLaws}
use trade_journal.Store.World.{World, command}
use trade_journal.Store.World.Frames.{call_answered}
use trade_journal.Cache.Metrics.{get_cached, set_cached}

module _ {p : Platform} where
  pub get_cached_answered :
      (key : String) (w : World p)
      → w.schedule ≡ []
      → get_cached key w ≡ (ok (p.redis_get w.redis w.now key), w)
  unfolding get_cached
  get_cached_answered key w quiet =
      call_answered (command (λ now r. (p.redis_get r now key, r))) w quiet

  -- An answer that was cached, and whose key has not been written since, is read back for less than
  -- five minutes, and is gone from then on.
  pub get-set_cached :
      (laws : KeyLaws p) (key text : String) (w v : World p) (d : ℕ)
      → w.schedule ≡ []
      → v.schedule ≡ []
      → p.redis_get v.redis v.now key ≡ p.redis_get (set_cached key text w).1.redis v.now key
      → v.now ≡ w.now + d
      → get_cached key v ≡ (ok (if ltb d (5 * minute) then some (bytes text) else none), v)
  unfolding set_cached
  get-set_cached laws key text w v d quiet still same later =
      let stored =
        ap (λ x. x.1.redis)
          (call_answered (command (λ now r. (tt, p.redis_set r now key (bytes text) (5 * minute))))
            w quiet) in
      let read =
        same
        ∙ ap (λ (t : ℕ). p.redis_get (set_cached key text w).1.redis t key) later
        ∙ ap (λ (r : p.Redis). p.redis_get r (w.now + d) key) stored
        ∙ laws.get-set w.redis w.now (w.now + d) key key (bytes text) (5 * minute) in
      let expiry : (if ltb (w.now + d) (w.now + 5 * minute) then some (bytes text) else none)
          ≡ (if ltb d (5 * minute) then some (bytes text) else none) =
        ground arith in
      get_cached_answered key v still
      ∙ ap (λ (o : Option Payload). (ok o, v)) (read ∙ rw (eq_refl key) expiry)
