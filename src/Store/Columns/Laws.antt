-- ===== src/Store/Columns/Laws.antt =====
-- What a stored row keeps of the parameters it was made of.
use mathlib.Core.Option.{some-injective}
use trade_journal.Prelude.{String, ◌≡◌, sym, ap, List, Option, none, some, arith, refl}
use trade_journal.Prelude.Time.{Time}
use trade_journal.Platform.{Platform}
use trade_journal.Domain.Enums.{valid_statuses}
use trade_journal.Domain.Trade.{Trade}
use trade_journal.Store.Columns.{◌>>=◌, enum, trade_row}

-- What every result of a conversion has, from what every result of its continuation has.
pub >>=_each {ℓ κ} :
    {A : Type ℓ} {B : Type κ} (P : B → Type 0) (m : Option A) (f : A → Option B)
    → ((a : A) → m ≡ some a → (b : B) → f a ≡ some b → P b)
    → (b : B) → (m >>= f) ≡ some b
    → P b
unfolding ◌>>=◌
>>=_each P none f h b e = cc
>>=_each P (some a) f h b e = h a refl b e

-- The keys of a stored row are those of the parameters as UUIDs, the flag is taken over, and the
-- row is stamped with the time of the statement.
pub record Keeps {p : Platform} (now : Time) (t row : Trade p) : Type 0 where
  pub trade_id : p.uuid t.trade_id ≡ some row.trade_id
  pub user_id : p.uuid t.user_id ≡ some row.user_id
  pub session_id : p.uuid t.session_id ≡ some row.session_id
  pub status : row.status ≡ t.status
  pub revenge_flag : row.revenge_flag ≡ t.revenge_flag
  pub created_at : row.created_at ≡ p.timestamp now

enum-eq-some : (values : List String) (s : String) {r : String} → enum values s ≡ some r → r ≡ s
enum-eq-some values s e = ground arith

pub trade_row-Keeps :
    {p : Platform} (now : Time) (t row : Trade p) → trade_row now t ≡ some row → Keeps now t row
unfolding trade_row
trade_row-Keeps {p} now t = >>=_each (Keeps now t) _ _ (λ trade_id e1.
    >>=_each (Keeps now t) _ _ (λ user_id e2. >>=_each (Keeps now t) _ _ (λ session_id e3.
      >>=_each (Keeps now t) _ _ (λ _ _. >>=_each (Keeps now t) _ _ (λ _ _.
        >>=_each (Keeps now t) _ _ (λ _ _. >>=_each (Keeps now t) _ _ (λ _ _.
          >>=_each (Keeps now t) _ _ (λ _ _. >>=_each (Keeps now t) _ _ (λ _ _.
            >>=_each (Keeps now t) _ _ (λ status e4. >>=_each (Keeps now t) _ _ (λ _ _.
              >>=_each (Keeps now t) _ _ (λ _ _. >>=_each (Keeps now t) _ _ (λ _ _.
                >>=_each (Keeps now t) _ _ (λ _ _. >>=_each (Keeps now t) _ _ (λ _ _. λ row same.
                  let kept = sym (some-injective _ _ same) in
                  record {
                    trade_id = rw kept e1;
                    user_id = rw kept e2;
                    session_id = rw kept e3;
                    status = rw kept (enum-eq-some valid_statuses t.status e4);
                    revenge_flag = ap (λ (r : Trade p). r.revenge_flag) kept;
                    created_at = ap (λ (r : Trade p). r.created_at) kept;
                  })))))))))))))))
