-- ===== src/Cache/Stream.antt =====
-- internal/cache/stream.go: the event stream and its consumer group.
use trade_journal.Prelude.{
  ℕ, String, Option, none, some, List, [], ◌∷◌, Result, ok, err, busy_group, unavailable,
}
use trade_journal.Prelude.Time.{Time}
use trade_journal.Platform.{Platform, Message, Arg}
use trade_journal.Store.World.{Call, call, command}

-- The texts that are sent for a map of values.
abbrev pub arg_texts : (p : Platform) → List (String × Arg) → List (String × String)
arg_texts p [] = []
arg_texts p ((k, v) ∷ values) = (k, p.arg_text v) ∷ arg_texts p values

-- The reply of XGROUP CREATE, and of XREADGROUP: the reply nil is an error of the client.
abbrev group_reply : {R : Type 0} → R → Option R → Result (Unit {0}) × R
group_reply r none = (err busy_group, r)
group_reply r (some r') = (ok tt, r')

abbrev pub Streams : Type 0
Streams = List (String × List Message)

abbrev read_reply : {R : Type 0} → R → Option (Streams × R) → Result Streams × R
read_reply r none = (err unavailable, r)
read_reply r (some (streams, r')) = (ok streams, r')

-- `Ignore BUSYGROUP`
abbrev ignore_busy : Result (Unit {0}) → Result (Unit {0})
ignore_busy (err busy_group) = ok tt
ignore_busy (err e) = err e
ignore_busy (ok u) = ok u

-- The id of the last entry, empty for a stream without one.
abbrev info_reply : Option String → Result String
info_reply none = err unavailable
info_reply (some id) = ok id

abbrev pub read_new :
    (p : Platform) → String → String → String → ℕ → ℕ → Time → p.Redis → Result Streams × p.Redis
read_new p group consumer stream count block now r =
    read_reply r (p.xreadgroup r group consumer stream count block)

module _ {p : Platform} where
  -- A command whose reply may be an error.
  abbrev pub attempt : {A : Type 0} → (Time → p.Redis → Result A × p.Redis) → Call p A
  attempt f = call (λ w. let (x, r) = f w.now w.redis in (x, record w { redis = r }))

  unfoldable pub create_group : String → String → String → Call p (Unit {0})
  create_group stream group start w =
      let (reply, v) = attempt (λ _ r. group_reply r (p.xgroup_create r stream group start)) w in
      (ignore_busy reply, v)

  unfoldable pub add : String → List (String × Arg) → Call p (Unit {0})
  add stream values = call (command (λ _ r. (tt, p.xadd r stream (arg_texts p values))))

  -- `>` asks for the messages that no consumer of the group was given.
  unfoldable pub read_group : String → String → String → ℕ → ℕ → Call p Streams
  read_group group consumer stream count block =
      attempt (read_new p group consumer stream count block)

  unfoldable pub ack : String → String → String → Call p (Unit {0})
  ack stream group id = call (command (λ _ r. (tt, p.xack r stream group id)))

  -- `InfoStream`, of which the id of the last entry is read.
  unfoldable pub info_stream : String → Call p String
  info_stream stream = attempt (λ _ r. (info_reply (p.last_entry_id r stream), r))
