-- ===== src/Cache/Window/Laws.antt =====
-- What the sliding window counts.
use trade_journal.Prelude.{
  ◌+◌, String, ◌≡◌, refl, Bool, not, ◌&&◌, List, [], ◌∷◌, arith, if◌then◌else◌, ◌∙◌,
}
use trade_journal.Prelude.Int.{ℤ, pos, ◌-ℤ◌, ◌≤ℤ◌, leb_ℤ, ltb_ℤ}
use trade_journal.Platform.{Platform}
use trade_journal.Platform.Laws.{ZSetLaws, tally, has_member}
use trade_journal.Cache.Window.{window_commands}

-- Tests that agree everywhere count the same entries.
tally_congr :
    {A : Type 0} (q q' : A → Bool) (xs : List A) → ((x : A) → q x ≡ q' x) → tally q xs ≡ tally q' xs
tally_congr q q' [] h = refl
tally_congr q q' (x ∷ xs) h = rw (h x, tally_congr q q' xs h)

-- From the start of the window on, and not removed with what is at or before it.
in_window_lem :
    (lo s : ℤ) → pos 0 ≤ℤ lo → (leb_ℤ lo s && not (leb_ℤ (pos 0) s && leb_ℤ s lo)) ≡ ltb_ℤ lo s
in_window_lem lo s h = ground arith

module _ {p : Platform} (laws : ZSetLaws p) where
  -- Where the window starts at or after the epoch, the count is the number of the user's trades
  -- with a score above its start, this trade included unless it is there already: later trades
  -- count too, however late, and one exactly at the start of the window does not.
  pub window_count :
      (key : String) (now_ms window_ms : ℤ) (id : String) (r : p.Redis)
      → pos 0 ≤ℤ now_ms -ℤ window_ms
      → (window_commands p key now_ms id window_ms r).0
        ≡ tally (λ e. ltb_ℤ (now_ms -ℤ window_ms) e.1) (laws.members r key)
          + (if has_member id (laws.members r key)
              then 0
              else if ltb_ℤ (now_ms -ℤ window_ms) now_ms
              then 1
              else 0)
  unfolding window_commands
  window_count key now_ms window_ms id r h =
      let lo = now_ms -ℤ window_ms in
      let added = p.zadd_nx r key now_ms id in
      laws.zcount_lem (p.zremrangebyscore added key (pos 0) lo) key lo
      ∙ laws.zrem_lem added key (pos 0) lo (λ e. leb_ℤ lo e.1)
      ∙ tally_congr (λ e. leb_ℤ lo e.1 && not (leb_ℤ (pos 0) e.1 && leb_ℤ e.1 lo))
          (λ e. ltb_ℤ lo e.1) (laws.members added key) (λ e. in_window_lem lo e.1 h)
      ∙ laws.zadd_lem r key now_ms id (λ e. ltb_ℤ lo e.1)
