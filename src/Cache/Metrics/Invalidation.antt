-- ===== src/Cache/Metrics/Invalidation.antt =====
-- What InvalidateUser deletes.
use trade_journal.Prelude.{
  ℕ, zero, suc, ◌<◌, String, true, false, ◌≡◌, refl, ap, ◌∙◌, inl, inr, none, some, List, [],
  contains, eqb, Bool-cases, Option-cases, arith, ok, Result, sym, subst, ◌≢◌,
}
use trade_journal.Prelude.Time.{Time}
use trade_journal.Platform.{Platform, Payload}
use trade_journal.Platform.Laws.{ScanLaws}
use trade_journal.Store.World.{World}
use trade_journal.Cache.Metrics.Deletion.{
  without, scanned, cleared, delete_pages_step, get_deleted, get_kept, ahead-without, pages-without,
}
use trade_journal.Cache.Metrics.{delete_pages, metrics_pattern, invalidate_user}

module _ {p : Platform} (laws : ScanLaws p) where
  -- The keys that match are ahead of the iteration, or gone; the others are as at first.
  record IsOnCourse (pattern : String) (cursor : ℕ) (first w : World p) : Type 0 where
    pub quiet : w.schedule ≡ []
    pub tables : w.db ≡ first.db
    pub time : w.now ≡ first.now
    pub found :
        (k : String) (v : Payload)
        → laws.matches pattern k ≡ true
        → p.redis_get w.redis w.now k ≡ some v
        → contains k (laws.ahead w.redis w.now pattern cursor) ≡ true
    pub others :
        (k : String) (u : Time)
        → laws.matches pattern k ≡ false
        → p.redis_get w.redis u k ≡ p.redis_get first.redis u k

  -- The keys that match are gone; the others and the tables are as at first.
  abbrev pub Clears : String → World p → Result (Unit {0}) × World p → Type 0
  Clears pattern first (r, w) =
      (r ≡ ok tt)
      × (w.db ≡ first.db)
      × ((k : String) → laws.matches pattern k ≡ true → p.redis_get w.redis first.now k ≡ none)
      × ((k : String) (u : Time)
          → laws.matches pattern k ≡ false
          → p.redis_get w.redis u k ≡ p.redis_get first.redis u k)

  module _ (pattern : String) (cursor : ℕ) (first w : World p)
      (h : IsOnCourse pattern cursor first w) where
    abbrev keys : List String
    keys = (scanned w pattern cursor).1

    -- A key that matches and was not returned is behind the page.
    cleared_found :
        (k : String) (v : Payload)
        → laws.matches pattern k ≡ true
        → p.redis_get (without p keys w.redis) w.now k ≡ some v
        → ((scanned w pattern cursor).0 ≢ 0)
          × (contains k
                (laws.ahead (without p keys w.redis) w.now pattern (scanned w pattern cursor).0)
              ≡ true)
    cleared_found k v good there = elim (Bool-cases (contains k keys)) [
      | inl deleted ↦ let never = sym (get_deleted laws keys w.redis w.now k deleted) ∙ there in cc
      | inr kept ↦
          let before = sym (get_kept laws keys w.redis w.now k kept) ∙ there in
          elim (laws.scan_page w.redis w.now cursor 100 pattern k (h.found k v good before)) [
            | inl deleted ↦ let never = sym kept ∙ deleted in cc
            | inr (more, ahead) ↦ (
              more,
              ahead-without laws keys w.redis w.now pattern k (scanned w pattern cursor).0 kept
                  ahead,
            )
          ]
    ]

    cleared_others :
        (k : String) (u : Time)
        → laws.matches pattern k ≡ false
        → p.redis_get (without p keys w.redis) u k ≡ p.redis_get first.redis u k
    cleared_others k u other = elim (Bool-cases (contains k keys)) [
      | inl deleted ↦
          let good = laws.scan_matches w.redis w.now cursor 100 pattern k deleted in
          let never = sym other ∙ good in cc
      | inr kept ↦ get_kept laws keys w.redis u k kept ∙ h.others k u other
    ]

    cleared-IsOnCourse :
        IsOnCourse pattern (scanned w pattern cursor).0 first (cleared w pattern cursor)
    cleared-IsOnCourse = record {
      quiet = h.quiet;
      tables = h.tables;
      time = h.time;
      found = λ k v good there. (cleared_found k v good there).1;
      others = cleared_others;
    }

    -- With cursor 0 nothing is ahead.
    cleared-Clears :
        (scanned w pattern cursor).0 ≡ 0 → Clears pattern first (ok tt, cleared w pattern cursor)
    cleared-Clears end = (refl, h.tables, gone, cleared_others)
      where
        gone :
            (k : String)
            → laws.matches pattern k ≡ true
            → p.redis_get (without p keys w.redis) first.now k ≡ none
        gone k good = elim (Option-cases (p.redis_get (without p keys w.redis) first.now k)) [
          | inl none_left ↦ none_left
          | inr (v, there) ↦
              let now_there =
                ap (λ (t : Time). p.redis_get (without p keys w.redis) t k) h.time ∙ there in
              absurd ((cleared_found k v good now_there).0 end)
        ]

  delete_pages-Clears :
      (n : ℕ) (pattern : String) (cursor : ℕ) (first w : World p)
      → IsOnCourse pattern cursor first w
      → laws.pages w.redis w.now pattern cursor < n
      → Clears pattern first (delete_pages n pattern cursor w)
  delete_pages-Clears zero pattern cursor first w h enough = absurd (omega arith)
  delete_pages-Clears (suc n) pattern cursor first w h enough =
      let next = (scanned w pattern cursor).0 in
      subst (Clears pattern first) (sym (delete_pages_step n pattern cursor w h.quiet))
        (elim (Bool-cases (eqb next 0)) [
          | inl end ↦ rw end (cleared-Clears pattern cursor first w h (ground (arith, end)))
          | inr more ↦ rw more (
              delete_pages-Clears n pattern next first (cleared w pattern cursor)
                (cleared-IsOnCourse pattern cursor first w h) (fewer next (ground (arith, more))))
        ])
    where
      fewer :
          (next : ℕ)
          → (scanned w pattern cursor).0 ≢ 0
          → laws.pages
              (without p (scanned w pattern cursor).1 w.redis)
              w.now
              pattern
              (scanned w pattern cursor).0
            < n
      fewer next more = omega (
        arith,
        enough,
        laws.scan_ends w.redis w.now cursor 100 pattern more,
        pages-without laws (scanned w pattern cursor).1 w.redis w.now pattern
            (scanned w pattern cursor).0,
      )

  -- When every call is answered and the fuel exceeds the pages of the iteration, InvalidateUser
  -- returns without an error: no key is stored that matches the pattern of the user's cached
  -- metrics, and every other key and every table is as before.
  pub invalidate_user-Clears :
      (n : ℕ) (user : String) (w : World p)
      → w.schedule ≡ []
      → laws.pages w.redis w.now (metrics_pattern user) 0 < n
      → Clears (metrics_pattern user) w (invalidate_user n user w)
  unfolding invalidate_user
  invalidate_user-Clears n user w quiet enough =
      delete_pages-Clears n (metrics_pattern user) 0 w w
        (record {
          quiet = quiet;
          tables = refl;
          time = refl;
          found =
              λ k v good there. laws.scan_start w.redis w.now (metrics_pattern user) k v there good;
          others = λ k u other. refl;
        })
        enough
