-- ===== src/Store/Columns.antt =====
-- What the columns of the table trades take (migrations/001_init_schema.sql): each statement's
-- parameters are converted to the column types and checked before anything is written.
pub mod Laws
use Prim.Native.String.{count}
use trade_journal.Prelude.{
  String, ◌&&◌, Option, none, some, List, [], ◌∷◌, leb, if◌then◌else◌, contains, Result, ok, err,
  unavailable,
}
use trade_journal.Prelude.Int.{ℤ, pos, leb_ℤ}
use trade_journal.Prelude.Time.{Time}
use trade_journal.Platform.{Platform}
use trade_journal.Domain.Trade.{Trade}
use trade_journal.Domain.Enums.{
  outcome_win, outcome_loss, valid_asset_classes, valid_directions, valid_statuses, valid_emotions,
}

infixl 5 ◌>>=◌
unfoldable pub ◌>>=◌ {ℓ κ} : {A : Type ℓ} {B : Type κ} → Option A → (A → Option B) → Option B
none >>= f = none
some a >>= f = f a

abbrev pub nullable {ℓ κ} :
    {A : Type ℓ} {B : Type κ} → (A → Option B) → Option A → Option (Option B)
nullable column none = some none
nullable column (some a) = column a >>= λ b. some (some b)

-- asset_class_enum, direction_enum, status_enum, emotion_enum, outcome_enum
abbrev pub enum : List String → String → Option String
enum values s = if contains s values then some s else none

-- SMALLINT CHECK (… BETWEEN 1 AND 5)
abbrev pub rating : ℤ → Option ℤ
rating n = if leb_ℤ (pos 1) n && leb_ℤ n (pos 5) then some n else none

-- VARCHAR(500) counts characters.
abbrev pub varchar500 : Platform → String → Option String
varchar500 p s = p.text s >>= λ t. if leb (count t) 500 then some t else none

abbrev stored_time : Platform → Option Time → Option Time
stored_time p none = none
stored_time p (some t) = some (p.timestamp t)

-- The row that the INSERT of `Upsert` makes of its parameters; created_at and updated_at are now().
unfoldable pub trade_row : {p : Platform} → Time → Trade p → Option (Trade p)
trade_row {p} now t = do
  trade_id ← p.uuid t.trade_id
  user_id ← p.uuid t.user_id
  session_id ← p.uuid t.session_id
  asset ← p.text t.asset
  asset_class ← enum valid_asset_classes t.asset_class
  direction ← enum valid_directions t.direction
  entry_price ← p.numeric t.entry_price
  exit_price ← nullable p.numeric t.exit_price
  quantity ← p.numeric t.quantity
  status ← enum valid_statuses t.status
  plan_adherence ← nullable rating t.plan_adherence
  emotional_state ← nullable (enum valid_emotions) t.emotional_state
  entry_rationale ← nullable (varchar500 p) t.entry_rationale
  outcome ← nullable (enum (outcome_win ∷ outcome_loss ∷ [])) t.outcome
  pnl ← nullable p.numeric t.pnl
  some (record {
    trade_id = trade_id;
    user_id = user_id;
    session_id = session_id;
    asset = asset;
    asset_class = asset_class;
    direction = direction;
    entry_price = entry_price;
    exit_price = exit_price;
    quantity = quantity;
    entry_at = p.timestamp t.entry_at;
    exit_at = stored_time p t.exit_at;
    status = status;
    plan_adherence = plan_adherence;
    emotional_state = emotional_state;
    entry_rationale = entry_rationale;
    outcome = outcome;
    pnl = pnl;
    revenge_flag = t.revenge_flag;
    created_at = p.timestamp now;
    updated_at = p.timestamp now;
  })

-- A UUID parameter of a query; the server refuses a text that is none.
abbrev pub uuid_param : Platform → String → Result String
uuid_param p s = elim (p.uuid s) [ none ↦ err unavailable | some u ↦ ok u ]
