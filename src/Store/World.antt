-- ===== src/Store/World.antt =====
-- The state outside the process, and the calls to it. Each call of PostgreSQL or Redis meets the
-- next fault of a schedule, which stands for every way in which the network can fail the program.
pub mod Frames
use trade_journal.Prelude.{
  Option, none, some, not_found, List, [], ◌∷◌, Error, Result, ok, err, unavailable,
}
use trade_journal.Prelude.Time.{Time}
use trade_journal.Platform.{Platform}
use trade_journal.Store.Tables.{Db}

-- A call is answered; it does not reach the server; or it is carried out and the reply is lost.
pub data Fault : Type 0 where
  answered refused lost : Fault

pub record World (p : Platform) : Type 0 where
  pub db : Db p
  pub redis : p.Redis
  pub now : Time
  -- What the next calls meet; past its end every call is answered.
  pub schedule : List Fault

abbrev pub Call : Platform → Type 0 → Type 0
Call p A = World p → Result A × World p

-- What a call that meets a fault returns, and leaves behind.
abbrev meet : {p : Platform} {A : Type 0} → Fault → Call p A → Call p A
meet answered f w = f w
meet refused f w = (err unavailable, w)
meet lost f w = (err unavailable, (f w).1)

unfoldable pub call_with : {p : Platform} {A : Type 0} → List Fault → Call p A → Call p A
call_with [] f w = f w
call_with (fault ∷ later) f w = meet fault f (record w { schedule = later })

unfoldable pub call : {p : Platform} {A : Type 0} → Call p A → Call p A
unfolding call_with
call f w = call_with w.schedule f w

-- A statement reads and writes the tables; a command reads and writes the Redis data.
abbrev pub statement : {p : Platform} {A : Type 0} → (Time → Db p → Result A × Db p) → Call p A
statement f w = let (r, db) = f w.now w.db in (r, record w { db = db })

abbrev pub command : {p : Platform} {A : Type 0} → (Time → p.Redis → A × p.Redis) → Call p A
command f w = let (a, redis) = f w.now w.redis in (ok a, record w { redis = redis })

-- The calls of a function, in order: the first error ends it.
abbrev pub continue_with :
    {p : Platform} {A B : Type 0} → (A → Call p B) → Result A × World p → Result B × World p
continue_with f (ok a, w) = f a w
continue_with f (err e, w) = (err e, w)

infixl 5 ◌>>=◌
abbrev pub ◌>>=◌ : {p : Platform} {A B : Type 0} → Call p A → (A → Call p B) → Call p B
◌>>=◌ m f w = continue_with f (m w)

abbrev pub returning : {p : Platform} {A : Type 0} → Result A → Call p A
returning r w = (r, w)

-- A statement that only reads.
abbrev pub query : {p : Platform} {A : Type 0} → (Db p → Result A) → Call p A
query f = call (statement (λ _ d. (f d, d)))

-- `errors.Is(err, pgx.ErrNoRows)`: a read of one row that finds none is `ErrNotFound`.
abbrev pub found_or_missing : {A : Type 0} → Option A → Result A
found_or_missing none = err not_found
found_or_missing (some row) = ok row

abbrev pub lookup : {p : Platform} {A : Type 0} → (Db p → Result (Option A)) → Call p A
lookup f = query f >>= λ found. returning (found_or_missing found)
