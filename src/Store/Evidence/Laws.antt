-- ===== src/Store/Evidence/Laws.antt =====
-- What the evidence for a pathology is: few rows of the user that pass the clause.
use trade_journal.Prelude.{
  ◌≤◌, String, ◌≡◌, refl, false, List, [], ◌∷◌, arith, select, take, length, length-take, contains,
  All, ◌==◌,
}
use trade_journal.Platform.{Platform}
use trade_journal.Domain.Trade.{Trade}
use trade_journal.Store.Evidence.{
  where_clause, by_latest_entry, evidence_rows, trade_ids_of, evidence_of,
}

-- No text stands twice.
abbrev pub IsDistinct : List String → Type 0
IsDistinct [] = Unit
IsDistinct (s ∷ ss) = (contains s ss ≡ false) × IsDistinct ss

abbrev IsNew : List String → List String → Type 0
IsNew seen = All (λ s. contains s seen ≡ false)

pub length-trade_ids_of :
    {p : Platform} (ts : List (Trade p)) → length (trade_ids_of ts) ≡ length ts
unfolding trade_ids_of
length-trade_ids_of [] = refl
length-trade_ids_of (t ∷ ts) = ground (arith, length-trade_ids_of ts)

pub length-evidence-le :
    {p : Platform} (user pathology : String) (trades : List (Trade p))
    → length (evidence_of (evidence_rows user pathology trades)).trade_ids ≤ 10
unfolding evidence_rows
length-evidence-le {p} user pathology trades =
    let own = select (λ (t : Trade p). t.user_id == user) trades in
    let sorted = p.order_by (Trade p) by_latest_entry (select (where_clause pathology own) own) in
    omega (arith, length-trade_ids_of (take 10 sorted), length-take 10 sorted)
