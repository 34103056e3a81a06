-- ===== src/Tests/ScanMachine.antt =====
-- The machine returns the keys that match in one page.
use trade_journal.Prelude.{
  String, ◌≡◌, refl, Bool, true, false, none, some, inl, List, [], ◌∷◌, select, contains, ◌==◌,
  eq_iff, if◌then◌else◌, Bool-cases, arith, inr, ◌*◌, eq_refl,
}
use trade_journal.Prelude.Time.{Time, second}
use trade_journal.Platform.{Payload, bytes}
use trade_journal.Platform.Laws.{ScanLaws}
use trade_journal.Store.World.{World}
use trade_journal.Cache.Metrics.{metrics_pattern, invalidate_user}
use trade_journal.Cache.Metrics.Invalidation.{Clears, invalidate_user-Clears}
use trade_journal.Tests.Machine.{machine, get_from, drop_key, glob, names, set_string}
use trade_journal.Tests.Fixtures.{recorded, monday}

contains-select :
    (q : String → Bool) (xs : List String) (k : String)
    → contains k (select q xs) ≡ true
    → q k ≡ true
contains-select q [] k e = cc
contains-select q (x ∷ xs) k e = elim (Bool-cases (q x)) [
  | inl good ↦ elim (Bool-cases (k == x)) [
    | inl same ↦ rw ((eq_iff k x).0 same) good
    | inr other ↦ contains-select q xs k (ground (arith, e, good, other))
  ]
  | inr bad ↦ contains-select q xs k (ground (arith, e, bad))
]

contains-names :
    (q : String → Bool) (es : List (String × Payload × Time)) (t : Time) (k : String) (v : Payload)
    → get_from es t k ≡ some v
    → q k ≡ true
    → contains k (select q (names es)) ≡ true
contains-names q [] t k v e good = cc
contains-names q ((j, w, expiry) ∷ es) t k v e good = elim (Bool-cases (j == k)) [
  | inl same ↦ let eq = (eq_iff j k).0 same in rw (eq, good, eq_refl k) refl
  | inr other ↦
      let rest = contains-names q es t k v (rw (other, get_from) at e) good in ground (arith, rest)
]

get-drop :
    (es : List (String × Payload × Time)) (t : Time) (j k : String)
    → get_from (drop_key j es) t k ≡ (if k == j then none else get_from es t k)
get-drop [] t j k = ground arith
get-drop ((i, v, expiry) ∷ es) t j k =
    ground (arith, get-drop es t j k, eq_iff i j, eq_iff i k, eq_iff k j)

names-drop :
    (q : String → Bool) (es : List (String × Payload × Time)) (j k : String)
    → (k == j) ≡ false
    → contains k (select q (names es)) ≡ true
    → contains k (select q (names (drop_key j es))) ≡ true
names-drop q [] j k other e = e
names-drop q ((i, v, expiry) ∷ es) j k other e =
    ground (arith, names-drop q es j k other, eq_iff i j, eq_iff k i, eq_iff k j)

abbrev scans : ScanLaws machine
scans = record {
  matches = glob;
  ahead = λ r t pattern cursor. select (glob pattern) (names r.strings);
  pages = λ r t pattern cursor. 0;
  scan_start = λ r t pattern k v. contains-names (glob pattern) r.strings t k v;
  scan_page = λ r t cursor n pattern k ahead. inl ahead;
  scan_matches = λ r t cursor n pattern k. contains-select (glob pattern) (names r.strings) k;
  scan_ends = λ r t cursor n pattern more. absurd (more refl);
  get-del = λ r u j k. get-drop r.strings u j k;
  ahead-del = λ r t pattern j k cursor. names-drop (glob pattern) r.strings j k;
  pages-del = λ r t pattern j cursor. omega arith;
}

-- Answers of Sam and of Kim are cached.
abbrev cached_world : World machine
cached_world = record recorded {
  redis =
      set_string
        (set_string recorded.redis monday "metrics:sam:a:b:hourly" (bytes "{}") (300 * second))
        monday "metrics:kim:a:b:hourly" (bytes "{}") (300 * second);
}

invalidate_user-Clears_example :
    Clears scans (metrics_pattern "sam") cached_world (invalidate_user 1 "sam" cached_world)
invalidate_user-Clears_example =
    invalidate_user-Clears scans 1 "sam" cached_world refl (omega arith)
