-- ===== src/Tests/Machine.antt =====
-- A platform of plain data: whole decimals, quotients for floats, and a Redis of lists.
use Prim.Native.Char.{code}
use trade_journal.Prelude.{
  ℕ, zero, suc, ◌+◌, ◌-◌, ◌*◌, ◌++◌, map, take, drop, eqb, String, Bool, true, false, not, ◌&&◌,
  ◌||◌, Option, none, some, List, [], ◌∷◌, ltb, select, if◌then◌else◌, ◌==◌,
}
use trade_journal.Prelude.Int.{ℤ, pos, ◌+ℤ◌, ◌-ℤ◌, ◌*ℤ◌, leb_ℤ, ltb_ℤ, eqb_ℤ}
use trade_journal.Prelude.Time.{Time, hour, truncate}
use trade_journal.Platform.{Platform, Message, Payload, Arg, str, int, bool}
use trade_journal.Platform.Laws.{tally, has_member}

pub record Server : Type 0 where
  -- The strings with their expiry, the last one written first.
  pub strings : List (String × Payload × Time)
  pub zsets : String → List (String × ℤ)
  -- The entries of a stream that its group has not been given, and the ids it has not confirmed.
  pub entries : ℕ
  pub unread : List Message
  pub pending : List String

abbrev pub get_from : List (String × Payload × Time) → Time → String → Option Payload
get_from [] now key = none
get_from ((k, v, expiry) ∷ strings) now key =
    if k == key then if ltb now expiry then some v else none else get_from strings now key

abbrev pub get_string : Server → Time → String → Option Payload
get_string r now key = get_from r.strings now key

abbrev pub set_string : Server → Time → String → Payload → ℕ → Server
set_string r now key v ttl = record r { strings = (key, v, now + ttl) ∷ r.strings }

abbrev pub drop_key : String → List (String × Payload × Time) → List (String × Payload × Time)
drop_key key = select (λ e. not (e.0 == key))

-- A pattern of literal characters, with a star at its end or none.
abbrev pub glob : String → String → Bool
glob String.[] String.[] = true
glob String.[] (String.◌∷◌ d key) = false
glob (String.◌∷◌ c pattern) String.[] = eqb (code c) b'*'
glob (String.◌∷◌ c pattern) (String.◌∷◌ d key) =
    eqb (code c) b'*' || eqb (code c) (code d) && glob pattern key

abbrev pub names : List (String × Payload × Time) → List String
names = map (λ e. e.0)

abbrev pub add_member : List (String × ℤ) → String → ℤ → List (String × ℤ)
add_member es m s = if has_member m es then es else (m, s) ∷ es

abbrev pub on_key : Server → String → (List (String × ℤ) → List (String × ℤ)) → Server
on_key r key f = record r { zsets = λ j. if key == j then f (r.zsets j) else r.zsets j }

abbrev pub outside : ℤ → ℤ → String × ℤ → Bool
outside lo hi e = not (leb_ℤ lo e.1 && leb_ℤ e.1 hi)

unfoldable pub insert_by : (A : Type 0) → (A → A → Bool) → A → List A → List A
insert_by A before x [] = x ∷ []
insert_by A before x (y ∷ ys) = if before x y then x ∷ y ∷ ys else y ∷ insert_by A before x ys

unfoldable pub sort : (A : Type 0) → (A → A → Bool) → List A → List A
unfolding insert_by
sort A before [] = []
sort A before (x ∷ xs) = insert_by A before x (sort A before xs)

abbrev present : String → Option String
present s = if s == "" then none else some s

abbrev arg_of : Arg → String
arg_of (str s) = s
arg_of (int n) = "5"
arg_of (bool true) = "1"
arg_of (bool false) = "0"

-- A stand-in for an average that lies between the values.
abbrev first : List (ℤ × ℤ) → Option (ℤ × ℤ)
first [] = none
first (x ∷ xs) = some x

abbrev pub entry_id : ℕ → String
entry_id zero = "1736155800000-0"
entry_id (suc zero) = "1736155800001-0"
entry_id (suc (suc n)) = "1736155800002-0"

abbrev pub add_entry : Server → List (String × String) → Server
add_entry r values = record r {
  entries = suc r.entries;
  unread = r.unread ++ (record { id = entry_id r.entries; values = values } ∷ []);
}

abbrev pub give : Server → List Message → List Message → List (String × List Message) × Server
give r batch rest = (
  ("trades:events", batch) ∷ [],
  record r { unread = rest; pending = r.pending ++ map (λ m. m.id) batch },
)

abbrev pub next_of : Server → ℕ → List Message → Option (List (String × List Message) × Server)
next_of r count [] = none
next_of r count (m ∷ ms) = some (give r (m ∷ take (count - 1) ms) (drop (count - 1) ms))

-- The first entries that were not given; there is one if any is left.
abbrev pub next_entries : Server → ℕ → Option (List (String × List Message) × Server)
next_entries r count = next_of r count r.unread

abbrev pub machine : Platform
machine = record {
  Decimal = ℤ;
  dec_zero = pos 0;
  dec_add = ◌+ℤ◌;
  dec_sub = ◌-ℤ◌;
  dec_mul = ◌*ℤ◌;
  dec_is_zero = λ a. eqb_ℤ a (pos 0);
  dec_is_positive = λ a. ltb_ℤ (pos 0) a;
  dec_show = λ a. "7";
  dec_parse = λ s. if s == "7" then some (pos 7) else none;
  Float = ℤ × ℤ;
  to_float = λ n. (n, pos 1);
  float_add = λ x y. (x.0 *ℤ y.1 +ℤ y.0 *ℤ x.1, x.1 *ℤ y.1);
  float_div = λ x y. (x.0 *ℤ y.1, x.1 *ℤ y.0);
  float_gt = λ x y. ltb_ℤ (y.0 *ℤ x.1) (x.0 *ℤ y.1);
  uuid = present;
  text = some;
  numeric = some;
  numeric_add = λ a b. some (a +ℤ b);
  ratio = some;
  abs_exceeds = λ x n. ltb_ℤ (pos n) x || ltb_ℤ x (pos 0 -ℤ pos n);
  exceeds_average = λ x xs. false;
  timestamp = λ t. t;
  date = λ t. truncate t (24 * hour);
  hour_of = λ t. 9;
  time_bucket = λ interval t. t;
  average = first;
  dec_float = λ x. (x, pos 1);
  order_by = sort;
  format_time = λ t. "2025-01-06T09:30:00Z";
  parse_time = λ s. if s == "2025-01-06T09:30:00Z" then some 63871752600000000000 else none;
  format_date = λ t. "January 6, 2025";
  fields = λ s. s ∷ "…" ∷ [];
  gen_uuid = λ n. "d0";
  Redis = Server;
  redis_get = get_string;
  redis_set = set_string;
  redis_scan = λ r now cursor pattern n. (0, select (glob pattern) (names r.strings));
  redis_del = λ r key. record r { strings = drop_key key r.strings };
  zadd_nx = λ r key s m. on_key r key (λ es. add_member es m s);
  zremrangebyscore = λ r key lo hi. on_key r key (select (outside lo hi));
  zcount_from = λ r key lo. tally (λ e. leb_ℤ lo e.1) (r.zsets key);
  zremrangebyscore_text = λ r key lo hi. none;
  zcount_text = λ r key lo hi. none;
  xadd = λ r key values. add_entry r values;
  arg_text = arg_of;
  xgroup_create = λ r key group start. none;
  xreadgroup = λ r group consumer key count block. next_entries r count;
  xack = λ r key group id. record r { pending = select (λ i. not (i == id)) r.pending };
  last_entry_id = λ r key. if eqb r.entries 0 then none else some (entry_id (r.entries - 1));
}
