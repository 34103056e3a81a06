-- ===== src/Tests/MachineLaws.antt =====
-- The machine has the documented behaviour that the theorems assume.
use trade_journal.Prelude.{
  zero, suc, ◌+◌, String, ◌≡◌, refl, Bool, true, false, ◌&&◌, List, [], ◌∷◌, arith, select, eq_refl,
  if◌then◌else◌, Bool-cases, inl, inr,
}
use trade_journal.Prelude.Int.{ℤ, pos, negsuc, ◌-ℤ◌, ◌*ℤ◌, ltb_ℤ}
use trade_journal.Platform.Laws.{OrderLaws, DecimalLaws, ZSetLaws, KeyLaws, tally, has_member}
use trade_journal.Tests.Machine.{machine, insert_by, sort, add_member, outside}

pub mul_positive_int : (a q : ℤ) → ltb_ℤ (pos 0) q ≡ true → ltb_ℤ (pos 0) (a *ℤ q) ≡ ltb_ℤ (pos 0) a
unfolding ◌*ℤ◌
mul_positive_int (pos zero) (pos (suc q)) h = ground arith
mul_positive_int (pos (suc a)) (pos (suc q)) h = ground arith
mul_positive_int (negsuc a) (pos (suc q)) h = ground arith
mul_positive_int a (pos zero) h = cc
mul_positive_int a (negsuc q) h = ground arith

pub sub_asymm_int : (a b : ℤ) → ltb_ℤ (pos 0) (a -ℤ b) ≡ true → ltb_ℤ (pos 0) (b -ℤ a) ≡ false
unfolding ◌-ℤ◌
sub_asymm_int a b h = ground arith

abbrev pub decimals : DecimalLaws machine
decimals = record {
  mul_positive = mul_positive_int;
  sub_asymm = sub_asymm_int;
  zero_not_positive = refl;
}

pub tally-select :
    (q keep : String × ℤ → Bool) (es : List (String × ℤ))
    → tally q (select keep es) ≡ tally (λ e. q e && keep e) es
tally-select q keep [] = refl
tally-select q keep (e ∷ es) = ground (arith, tally-select q keep es)

pub tally-add_member :
    (q : String × ℤ → Bool) (es : List (String × ℤ)) (m : String) (s : ℤ)
    → tally q (add_member es m s)
      ≡ tally q es + (if has_member m es then 0 else if q (m, s) then 1 else 0)
tally-add_member q es m s = ground arith

pub has_member-add :
    (es : List (String × ℤ)) (m : String) (s : ℤ) → has_member m (add_member es m s) ≡ true
has_member-add es m s = elim (Bool-cases (has_member m es)) [
  | inl old ↦ rw old old
  | inr new ↦ rw (new, eq_refl m)
]

abbrev pub zsets : ZSetLaws machine
zsets = record {
  members = λ r key. r.zsets key;
  zcount_lem = λ r k lo. refl;
  zrem_lem = λ r k lo hi q. rw (eq_refl k) (tally-select q (outside lo hi) (r.zsets k));
  zadd_lem = λ r k s m q. rw (eq_refl k) (tally-add_member q (r.zsets k) m s);
  zadd_has = λ r k s m. rw (eq_refl k) (has_member-add (r.zsets k) m s);
  members-set = λ r t j k v ttl other. refl;
  members-xadd = λ r stream k values. refl;
}

abbrev pub keys : KeyLaws machine
keys = record {
  get-set = λ r t u k j v ttl. refl;
  get-zadd = λ r u k j m s. refl;
  get-xadd = λ r u k j values. refl;
}

-- Sorting by insertion keeps every count.
tally-insert_by :
    (A : Type 0) (before : A → A → Bool) (q : A → Bool) (x : A) (ys : List A)
    → tally q (insert_by A before x ys) ≡ tally q (x ∷ ys)
unfolding insert_by
tally-insert_by A before q x [] = refl
tally-insert_by A before q x (y ∷ ys) = ground (arith, tally-insert_by A before q x ys)

pub tally-sort :
    (A : Type 0) (before : A → A → Bool) (q : A → Bool) (xs : List A)
    → tally q (sort A before xs) ≡ tally q xs
unfolding sort
tally-sort A before q [] = refl
tally-sort A before q (x ∷ xs) =
    omega (arith, tally-insert_by A before q x (sort A before xs), tally-sort A before q xs)

abbrev pub orders : OrderLaws machine
orders = record { order_tally = tally-sort }
