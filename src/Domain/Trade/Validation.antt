-- ===== src/Domain/Trade/Validation.antt =====
-- What `Validate` accepts.
use Prim.Native.String.{len}
use trade_journal.Prelude.{
  ℕ, ◌≤◌, String, ◌≡◌, refl, ◌≢◌, ◌↔◌, ◌⊎◌, Bool, true, false, not, Option, none, some, arith,
  eq_iff, Error, Result, ok, require, ◌>>◌, ◌==◌, eqb,
}
use trade_journal.Prelude.Int.{ℤ, pos, ◌≤ℤ◌}
use trade_journal.Platform.{Platform}
use trade_journal.Domain.Enums.{
  is_valid_asset_class, is_valid_direction, is_valid_status, is_valid_emotional_state,
}
use trade_journal.Domain.Trade.{TradeInput, validate, is_adherence, is_emotion, is_short}

-- What holds of the value of an optional field, if it has one.
abbrev pub Given {ℓ} : {A : Type ℓ} → (A → Type 0) → Option A → Type 0
Given P none = Unit
Given P (some a) = P a

abbrev pub IsEmotion : String → Type 0
IsEmotion s = (s ≡ "calm") ⊎ (s ≡ "anxious") ⊎ (s ≡ "greedy") ⊎ (s ≡ "fearful") ⊎ (s ≡ "neutral")

-- A trade that can be taken in, said without the code's tests.
pub record IsWellFormed {p : Platform} (t : TradeInput p) : Type 0 where
  pub trade_id : t.trade_id ≢ ""
  pub user_id : t.user_id ≢ ""
  pub session_id : t.session_id ≢ ""
  pub asset : t.asset ≢ ""
  pub asset_class :
      (t.asset_class ≡ "equity") ⊎ (t.asset_class ≡ "crypto") ⊎ (t.asset_class ≡ "forex")
  pub direction : (t.direction ≡ "long") ⊎ (t.direction ≡ "short")
  pub entry_price : p.dec_is_zero t.entry_price ≡ false
  pub quantity : p.dec_is_zero t.quantity ≡ false
  pub entry_at : t.entry_at ≢ 0
  pub status : (t.status ≡ "open") ⊎ (t.status ≡ "closed") ⊎ (t.status ≡ "cancelled")
  pub plan_adherence : Given (λ a. (pos 1 ≤ℤ a) × (a ≤ℤ pos 5)) t.plan_adherence
  pub emotional_state : Given IsEmotion t.emotional_state
  pub entry_rationale : Given (λ s. len s ≤ 500) t.entry_rationale

ne_empty_iff : (s : String) → (not (s == "") ≡ true) ↔ (s ≢ "")
ne_empty_iff s = ground (arith, eq_iff s "")

pub is_valid_asset_class_iff :
    (s : String)
    → (is_valid_asset_class s ≡ true) ↔ ((s ≡ "equity") ⊎ (s ≡ "crypto") ⊎ (s ≡ "forex"))
unfolding is_valid_asset_class
is_valid_asset_class_iff s = ground (arith, eq_iff s "equity", eq_iff s "crypto", eq_iff s "forex")

pub is_valid_direction_iff :
    (s : String) → (is_valid_direction s ≡ true) ↔ ((s ≡ "long") ⊎ (s ≡ "short"))
unfolding is_valid_direction
is_valid_direction_iff s = ground (arith, eq_iff s "long", eq_iff s "short")

pub is_valid_status_iff :
    (s : String) → (is_valid_status s ≡ true) ↔ ((s ≡ "open") ⊎ (s ≡ "closed") ⊎ (s ≡ "cancelled"))
unfolding is_valid_status
is_valid_status_iff s = ground (arith, eq_iff s "open", eq_iff s "closed", eq_iff s "cancelled")

pub is_valid_emotional_state_iff : (s : String) → (is_valid_emotional_state s ≡ true) ↔ IsEmotion s
unfolding is_valid_emotional_state
is_valid_emotional_state_iff s = ground (
  arith,
  eq_iff s "calm",
  eq_iff s "anxious",
  eq_iff s "greedy",
  eq_iff s "fearful",
  eq_iff s "neutral",
)

is_adherence_iff :
    (o : Option ℤ) → (is_adherence o ≡ true) ↔ Given (λ a. (pos 1 ≤ℤ a) × (a ≤ℤ pos 5)) o
is_adherence_iff none = ground arith
is_adherence_iff (some a) = ground arith

is_emotion_iff : (o : Option String) → (is_emotion o ≡ true) ↔ Given IsEmotion o
is_emotion_iff none = ground arith
is_emotion_iff (some s) = is_valid_emotional_state_iff s

is_short_iff : (o : Option String) → (is_short o ≡ true) ↔ Given (λ s. len s ≤ 500) o
is_short_iff none = ground arith
is_short_iff (some s) = ground arith

-- One guard of the chain, for a condition that its test decides.
require_iff :
    {P Q : Type 0} (b : Bool) (e : Error) (k : Result (Unit {0}))
    → (b ≡ true) ↔ P
    → (k ≡ ok tt) ↔ Q
    → ((require b e >> k) ≡ ok tt) ↔ (P × Q)
require_iff true e k p q = (λ h. (p.0 refl, q.0 h), λ h. q.1 h.1)
require_iff false e k p q = (λ h. cc, λ h. cc (p.1 h.0))

not_iff : (b : Bool) → (not b ≡ true) ↔ (b ≡ false)
not_iff true = ground arith
not_iff false = ground arith

nonzero_iff : (n : ℕ) → (not (eqb n 0) ≡ true) ↔ (n ≢ 0)
nonzero_iff n = ground arith

ok_iff : (◌≡◌ {A = Result (Unit {0})} (ok tt) (ok tt)) ↔ Unit {0}
ok_iff = (λ _. tt, λ _. refl)

-- The guards of `validate` in their order, each with what it says.
abbrev Guards : {p : Platform} → TradeInput p → Type 0
Guards {p} t =
    (t.trade_id ≢ "")
    × ((t.user_id ≢ "")
        × ((t.session_id ≢ "")
            × ((t.asset ≢ "")
                × (((t.asset_class ≡ "equity")
                      ⊎ (t.asset_class ≡ "crypto")
                      ⊎ (t.asset_class ≡ "forex"))
                    × (((t.direction ≡ "long") ⊎ (t.direction ≡ "short"))
                        × ((p.dec_is_zero t.entry_price ≡ false)
                            × ((p.dec_is_zero t.quantity ≡ false)
                                × ((t.entry_at ≢ 0)
                                    × (((t.status ≡ "open")
                                          ⊎ (t.status ≡ "closed")
                                          ⊎ (t.status ≡ "cancelled"))
                                        × (Given (λ a. (pos 1 ≤ℤ a) × (a ≤ℤ pos 5)) t.plan_adherence
                                            × (Given IsEmotion t.emotional_state
                                                × (Given (λ s. len s ≤ 500) t.entry_rationale
                                                    × Unit {0}))))))))))))

validate-Guards : {p : Platform} (t : TradeInput p) → (validate t ≡ ok tt) ↔ Guards t
unfolding validate
validate-Guards {p} t = require_iff _ _ _ (ne_empty_iff t.trade_id) (
    require_iff _ _ _ (ne_empty_iff t.user_id) (
      require_iff _ _ _ (ne_empty_iff t.session_id) (
        require_iff _ _ _ (ne_empty_iff t.asset) (
          require_iff _ _ _ (is_valid_asset_class_iff t.asset_class) (
            require_iff _ _ _ (is_valid_direction_iff t.direction) (
              require_iff _ _ _ (not_iff (p.dec_is_zero t.entry_price)) (
                require_iff _ _ _ (not_iff (p.dec_is_zero t.quantity)) (
                  require_iff _ _ _ (nonzero_iff t.entry_at) (
                    require_iff _ _ _ (is_valid_status_iff t.status) (
                      require_iff _ _ _ (is_adherence_iff t.plan_adherence) (
                        require_iff _ _ _ (is_emotion_iff t.emotional_state)
                          (require_iff _ _ _ (is_short_iff t.entry_rationale) ok_iff))))))))))))

-- A submitted trade is accepted exactly when it is well formed: the four texts are there, the
-- enumerations have one of their values, price, quantity and entry time are not zero, and the plan
-- adherence (1 to 5), the emotional state and the rationale (500 bytes) are valid where given.
pub validate_iff : {p : Platform} (t : TradeInput p) → (validate t ≡ ok tt) ↔ IsWellFormed t
validate_iff t = (
  λ h.
      let g = (validate-Guards t).0 h in
      record {
        trade_id = g.0;
        user_id = g.1.0;
        session_id = g.1.1.0;
        asset = g.1.1.1.0;
        asset_class = g.1.1.1.1.0;
        direction = g.1.1.1.1.1.0;
        entry_price = g.1.1.1.1.1.1.0;
        quantity = g.1.1.1.1.1.1.1.0;
        entry_at = g.1.1.1.1.1.1.1.1.0;
        status = g.1.1.1.1.1.1.1.1.1.0;
        plan_adherence = g.1.1.1.1.1.1.1.1.1.1.0;
        emotional_state = g.1.1.1.1.1.1.1.1.1.1.1.0;
        entry_rationale = g.1.1.1.1.1.1.1.1.1.1.1.1.0;
      },
  λ w. (validate-Guards t).1 (
    w.trade_id,
    (
      w.user_id,
      (
        w.session_id,
        (
          w.asset,
          (
            w.asset_class,
            (
              w.direction,
              (
                w.entry_price,
                (
                  w.quantity,
                  (
                    w.entry_at,
                    (w.status, (w.plan_adherence, (w.emotional_state, (w.entry_rationale, tt)))),
                  ),
                ),
              ),
            ),
          ),
        ),
      ),
    ),
  ),
)
