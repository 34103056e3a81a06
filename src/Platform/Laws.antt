-- ===== src/Platform/Laws.antt =====
-- What the code relies on of the platform: documented behaviour, as named hypotheses.
use trade_journal.Prelude.{
  ℕ, ◌+◌, ◌%◌, ◌-◌, ◌≤◌, ◌++◌, map, length, select, String, ◌≡◌, Bool, true, false, not, ◌&&◌, ◌||◌,
  none, some, List, [], ◌∷◌, ltb, if◌then◌else◌, ◌==◌, contains, ◌<◌, ◌≢◌, ◌⊎◌,
}
use trade_journal.Prelude.Int.{ℤ, leb_ℤ}
use trade_journal.Prelude.Time.{Time, second}
use trade_journal.Platform.{Platform, Message, Payload, str, int, bool}

-- The sign of a product with a positive factor is the sign of the other factor, and a difference
-- with its operands swapped has the opposite sign.
pub record DecimalLaws (p : Platform) : Type 0 where
  pub mul_positive :
      (a q : p.Decimal)
      → p.dec_is_positive q ≡ true
      → p.dec_is_positive (p.dec_mul a q) ≡ p.dec_is_positive a
  pub sub_asymm :
      (a b : p.Decimal)
      → p.dec_is_positive (p.dec_sub a b) ≡ true
      → p.dec_is_positive (p.dec_sub b a) ≡ false
  pub zero_not_positive : p.dec_is_positive p.dec_zero ≡ false

-- The number of entries that pass a test.
abbrev pub tally {ℓ} : {A : Type ℓ} → (A → Bool) → List A → ℕ
tally q [] = 0
tally q (x ∷ xs) = (if q x then 1 else 0) + tally q xs

abbrev pub has_member : String → List (String × ℤ) → Bool
has_member m [] = false
has_member m ((n, s) ∷ es) = m == n || has_member m es

-- A sorted set is read by ZRANGE WITHSCORES; the laws count its entries, in whatever order. SET of
-- another key and XADD leave it alone.
pub record ZSetLaws (p : Platform) : Type 0 where
  pub members : p.Redis → String → List (String × ℤ)
  pub zcount_lem :
      (r : p.Redis) (k : String) (lo : ℤ)
      → p.zcount_from r k lo ≡ tally (λ e. leb_ℤ lo e.1) (members r k)
  pub zrem_lem :
      (r : p.Redis) (k : String) (lo hi : ℤ) (q : String × ℤ → Bool)
      → tally q (members (p.zremrangebyscore r k lo hi) k)
        ≡ tally (λ e. q e && not (leb_ℤ lo e.1 && leb_ℤ e.1 hi)) (members r k)
  pub zadd_lem :
      (r : p.Redis) (k : String) (s : ℤ) (m : String) (q : String × ℤ → Bool)
      → tally q (members (p.zadd_nx r k s m) k)
        ≡ tally q (members r k)
          + (if has_member m (members r k) then 0 else if q (m, s) then 1 else 0)
  pub zadd_has :
      (r : p.Redis) (k : String) (s : ℤ) (m : String)
      → has_member m (members (p.zadd_nx r k s m) k) ≡ true
  pub members-set :
      (r : p.Redis) (t : Time) (j k : String) (v : Payload) (ttl : ℕ)
      → (j == k) ≡ false
      → members (p.redis_set r t j v ttl) k ≡ members r k
  pub members-xadd :
      (r : p.Redis) (stream k : String) (values : List (String × String))
      → members (p.xadd r stream values) k ≡ members r k

-- A key that was set is read back until its expiry; other keys, and strings by the commands on
-- sorted sets and streams, are left alone.
pub record KeyLaws (p : Platform) : Type 0 where
  pub get-set :
      (r : p.Redis) (t u : Time) (k j : String) (v : Payload) (ttl : ℕ)
      → p.redis_get (p.redis_set r t k v ttl) u j
        ≡ (if k == j then if ltb u (t + ttl) then some v else none else p.redis_get r u j)
  pub get-zadd :
      (r : p.Redis) (u : Time) (k j m : String) (s : ℤ)
      → p.redis_get (p.zadd_nx r k s m) u j ≡ p.redis_get r u j
  pub get-xadd :
      (r : p.Redis) (u : Time) (k j : String) (values : List (String × String))
      → p.redis_get (p.xadd r k values) u j ≡ p.redis_get r u j

-- An iteration by SCAN returns each key that is there from its start to its end, however it falls
-- into pages, and it ends: `ahead` are the keys that it has yet to return at a cursor, and `pages`
-- bounds the pages that are left. The keys it returns match the pattern. DEL removes one key.
pub record ScanLaws (p : Platform) : Type 0 where
  pub matches : String → String → Bool
  pub ahead : p.Redis → Time → String → ℕ → List String
  pub pages : p.Redis → Time → String → ℕ → ℕ
  pub scan_start :
      (r : p.Redis) (t : Time) (pattern k : String) (v : Payload)
      → p.redis_get r t k ≡ some v
      → matches pattern k ≡ true
      → contains k (ahead r t pattern 0) ≡ true
  pub scan_page :
      (r : p.Redis) (t : Time) (cursor count : ℕ) (pattern k : String)
      → contains k (ahead r t pattern cursor) ≡ true
      → let (next, keys) = p.redis_scan r t cursor pattern count in
        (contains k keys ≡ true) ⊎ ((next ≢ 0) × (contains k (ahead r t pattern next) ≡ true))
  pub scan_matches :
      (r : p.Redis) (t : Time) (cursor count : ℕ) (pattern k : String)
      → contains k (p.redis_scan r t cursor pattern count).1 ≡ true
      → matches pattern k ≡ true
  pub scan_ends :
      (r : p.Redis) (t : Time) (cursor count : ℕ) (pattern : String)
      → let next = (p.redis_scan r t cursor pattern count).0 in
        next ≢ 0 → pages r t pattern next < pages r t pattern cursor
  pub get-del :
      (r : p.Redis) (u : Time) (j k : String)
      → p.redis_get (p.redis_del r j) u k ≡ (if k == j then none else p.redis_get r u k)
  pub ahead-del :
      (r : p.Redis) (t : Time) (pattern j k : String) (cursor : ℕ)
      → (k == j) ≡ false
      → contains k (ahead r t pattern cursor) ≡ true
      → contains k (ahead (p.redis_del r j) t pattern cursor) ≡ true
  pub pages-del :
      (r : p.Redis) (t : Time) (pattern j : String) (cursor : ℕ)
      → pages (p.redis_del r j) t pattern cursor ≤ pages r t pattern cursor

-- RFC3339 prints whole seconds and is read back; so are decimals; go-redis sends a text as it is
-- and a Boolean as 1 or 0.
pub record TextLaws (p : Platform) : Type 0 where
  pub parse-format : (t : Time) → p.parse_time (p.format_time t) ≡ some (t - t % second)
  pub parse-show : (d : p.Decimal) → p.dec_parse (p.dec_show d) ≡ some d
  pub show_nonempty : (d : p.Decimal) → (p.dec_show d == "") ≡ false
  pub arg_str : (s : String) → p.arg_text (str s) ≡ s
  pub arg_int_nonempty : (n : ℤ) → (p.arg_text (int n) == "") ≡ false
  pub arg_true : p.arg_text (bool true) ≡ "1"
  pub arg_false : p.arg_text (bool false) ≡ "0"

-- Sorting keeps the rows, each as often.
pub record OrderLaws (p : Platform) : Type 1 where
  pub order_tally :
      (A : Type 0) (before : A → A → Bool) (q : A → Bool) (xs : List A)
      → tally q (p.order_by A before xs) ≡ tally q xs

-- The messages of the streams of a reply, in order.
abbrev pub messages : List (String × List Message) → List Message
messages [] = []
messages ((name, ms) ∷ streams) = ms ++ messages streams

-- A consumer group is given each entry once: `unread` are the entries behind the last one it was
-- given, `pending` the ids it was given and has not confirmed.
pub record GroupLaws (p : Platform) : Type 0 where
  pub unread : p.Redis → String → String → List Message
  pub pending : p.Redis → String → String → List String
  pub read_none :
      (r : p.Redis) (group consumer stream : String) (count block : ℕ)
      → p.xreadgroup r group consumer stream count block ≡ none
      → unread r stream group ≡ []
  pub read_some :
      (r r' : p.Redis) (group consumer stream : String) (count block : ℕ)
      (streams : List (String × List Message))
      → p.xreadgroup r group consumer stream count block ≡ some (streams, r')
      → (1 ≤ length (messages streams))
        × (unread r stream group ≡ messages streams ++ unread r' stream group)
        × (pending r' stream group ≡ pending r stream group ++ map (λ m. m.id) (messages streams))
  pub ack_unread :
      (r : p.Redis) (stream group id : String)
      → unread (p.xack r stream group id) stream group ≡ unread r stream group
  pub ack_pending :
      (r : p.Redis) (stream group id : String)
      → pending (p.xack r stream group id) stream group
        ≡ select (λ i. not (i == id)) (pending r stream group)
  -- XADD appends one entry; SET of another key and the commands on sorted sets leave a stream alone.
  pub added : p.Redis → String → List (String × String) → Message
  pub added_values :
      (r : p.Redis) (stream : String) (values : List (String × String))
      → (added r stream values).values ≡ values
  pub add_unread :
      (r : p.Redis) (stream group : String) (values : List (String × String))
      → unread (p.xadd r stream values) stream group
        ≡ unread r stream group ++ (added r stream values ∷ [])
  pub unread-set :
      (r : p.Redis) (stream group : String) (t : Time) (k : String) (v : Payload) (ttl : ℕ)
      → (k == stream) ≡ false
      → unread (p.redis_set r t k v ttl) stream group ≡ unread r stream group
  pub unread-zadd :
      (r : p.Redis) (stream group key member : String) (score : ℤ)
      → unread (p.zadd_nx r key score member) stream group ≡ unread r stream group
  pub window_frame :
      (r : p.Redis) (stream group key member : String) (score lo hi : ℤ)
      → let r' = p.zremrangebyscore (p.zadd_nx r key score member) key lo hi in
        (unread r' stream group ≡ unread r stream group)
        × (pending r' stream group ≡ pending r stream group)
