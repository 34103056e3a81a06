-- ===== src/Store/Analytics/Tilt.antt =====
-- The counts behind a session's tilt index.
use trade_journal.Prelude.{
  ℕ, ◌-◌, ◌≤◌, String, ◌≡◌, refl, subst, true, Option, none, some, List, [], ◌∷◌, arith, select,
  is_some, length, inl, inr, Option-cases, ◌==◌, ok, ok-injective,
}
use trade_journal.Prelude.Int.{ℤ, pos}
use trade_journal.Platform.{Platform}
use trade_journal.Platform.Laws.{OrderLaws, tally}
use trade_journal.Domain.Trade.{Trade}
use trade_journal.Store.Analytics.{by_entry, is_loss, lag_outcomes, tilt_counts, select_tilt}
use trade_journal.Store.Tables.{Db}

tally_some :
    {p : Platform} (prev : Option String) (ts : List (Trade p))
    → tally (λ (o : Option String). true) (select is_some (lag_outcomes prev ts)) ≤ length ts
unfolding lag_outcomes
tally_some prev [] = omega arith
tally_some prev (t ∷ ts) = ground (arith, tally_some t.outcome ts)

-- The first trade has no predecessor.
tally_first :
    {p : Platform} (ts : List (Trade p))
    → tally (λ (o : Option String). true) (select is_some (lag_outcomes none ts)) ≤ length ts - 1
unfolding lag_outcomes
tally_first [] = omega arith
tally_first (t ∷ ts) = ground (arith, tally_some t.outcome ts)

tally_loss-le :
    (os : List (Option String)) → tally is_loss os ≤ tally (λ (o : Option String). true) os
tally_loss-le [] = omega arith
tally_loss-le (o ∷ os) = ground (arith, tally_loss-le os)

-- As many losses as trades that have a predecessor with an outcome, and fewer of those than trades.
abbrev pub AreTiltCounts : ℕ → ℤ × ℤ → Type 0
AreTiltCounts trades counts =
    (follow : ℕ) × (total : ℕ) × (counts ≡ (pos follow, pos total))
    × (follow ≤ total)
    × (total ≤ trades - 1)

tilt_counts-AreTiltCounts :
    {p : Platform} (ts : List (Trade p)) → AreTiltCounts (length ts) (tilt_counts ts)
unfolding tilt_counts
tilt_counts-AreTiltCounts ts =
    (_, _, refl, tally_loss-le (select is_some (lag_outcomes none ts)), tally_first ts)

tally-true : {A : Type 0} (xs : List A) → tally (λ x. true) xs ≡ length xs
tally-true [] = refl
tally-true (x ∷ xs) = ground (arith, tally-true xs)

module _ {p : Platform} (laws : OrderLaws p) where
  -- Of a session of n trades at most n - 1 trades are counted for its tilt index, and at most as
  -- many losses before them: the index is a fraction of at most 1.
  pub select_tilt-AreTiltCounts :
      (id : String) (d : Db p) (counts : ℤ × ℤ)
      → select_tilt id d ≡ ok counts
      → (u : String) × (p.uuid id ≡ some u)
        × AreTiltCounts (length (select (λ (t : Trade p). t.session_id == u) d.trades)) counts
  unfolding select_tilt
  select_tilt-AreTiltCounts id d counts e = elim (Option-cases (p.uuid id)) [
    | inl bad ↦ let no = rw (bad, select_tilt) at e in cc
    | inr (u, good) ↦ (u, good, counted u (ok-injective (rw (good, select_tilt) at e)))
  ]
    where
      counted :
          (u : String)
          → tilt_counts (p.order_by (Trade p) by_entry (select (λ t. t.session_id == u) d.trades))
            ≡ counts
          → AreTiltCounts (length (select (λ (t : Trade p). t.session_id == u) d.trades)) counts
      counted u same =
          let rows = select (λ (t : Trade p). t.session_id == u) d.trades in
          let sorted = p.order_by (Trade p) by_entry rows in
          let as_many : length sorted ≡ length rows = omega (
            arith,
            tally-true sorted,
            tally-true rows,
            laws.order_tally (Trade p) by_entry (λ t. true) rows,
          ) in
          subst (λ n. AreTiltCounts n counts) as_many
            (subst (AreTiltCounts (length sorted)) same (tilt_counts-AreTiltCounts sorted))
