-- ===== src/Api/Logger.antt =====
-- internal/api/middleware/logger.go: the request's context, the recorded status and the log line.
pub mod Status
use trade_journal.Prelude.{
  ℕ, ◌/◌, String, Bool, true, false, not, ◌&&◌, Option, none, some, List, [], ◌∷◌, ◌++◌, leb, eqb,
  is_some, if◌then◌else◌, suc,
}
use trade_journal.Prelude.Int.{ℤ, pos, negsuc, ◌-ℤ◌}
use trade_journal.Prelude.Time.{Time, millisecond, sub_time}
use trade_journal.Platform.{Platform}
use trade_journal.Store.World.{World}

-- What the program keeps in a request's context; both values are texts.
pub data ContextKey : Type 0 where
  trace_id_key user_id_key : ContextKey

abbrev pub Context : Type 0
Context = List (ContextKey × String)

-- `context.WithValue`: a derived context; the one it is made of stays as it is.
abbrev pub with_value : Context → ContextKey → String → Context
with_value ctx key value = (key, value) ∷ ctx

abbrev same_key : ContextKey → ContextKey → Bool
same_key trace_id_key trace_id_key = true
same_key user_id_key user_id_key = true
same_key trace_id_key user_id_key = false
same_key user_id_key trace_id_key = false

-- `ctx.Value(key).(string)`, and the empty text where it fails
unfoldable pub value_or_empty : ContextKey → Context → String
value_or_empty key [] = ""
value_or_empty key ((k, v) ∷ ctx) = if same_key k key then v else value_or_empty key ctx

abbrev pub trace_id_from_context : Context → String
trace_id_from_context ctx = value_or_empty trace_id_key ctx

abbrev pub user_id_from_context : Context → String
user_id_from_context ctx = value_or_empty user_id_key ctx

-- What a handler does with its writer.
pub data Op : Type 0 where
  send_header : ℕ → Op
  send_bytes : String → Op
  send_flush : Op

-- The connection to the client, as net/http keeps it: the status that was sent, and the body.
pub record Client : Type 0 where
  pub sent : Option ℕ
  pub body : List String

abbrev pub is_informational : ℕ → Bool
is_informational code = leb 100 code && (leb code 199 && not (eqb code 101))

-- A second header is superfluous, and one of class 1xx is not the answer.
abbrev send : ℕ → Client → Client
send code c =
    if is_some c.sent then c else if is_informational code then c else record c { sent = some code }

-- Bytes, and a flush, send status 200 if no header was sent.
abbrev begin : Client → Client
begin c = if is_some c.sent then c else record c { sent = some 200 }

abbrev put : String → Client → Client
put text c = let started = begin c in record started { body = c.body ++ (text ∷ []) }

-- The status that the client reads, also of a handler that writes nothing.
abbrev pub final_status : Client → ℕ
final_status c = elim c.sent [ none ↦ 200 | some code ↦ code ]

-- `responseWriter`
pub record ResponseWriter : Type 0 where
  pub client : Client
  pub status_code : ℕ
  pub written : Bool

unfoldable pub write_header : ℕ → ResponseWriter → ResponseWriter
write_header code rw = record {
  client = send code rw.client;
  status_code = if not rw.written then code else rw.status_code;
  written = true;
}

unfoldable pub write : String → ResponseWriter → ResponseWriter
write text rw = record {
  client = put text rw.client;
  status_code = if not rw.written then 200 else rw.status_code;
  written = true;
}

unfoldable pub flush_writer : ResponseWriter → ResponseWriter
flush_writer rw = record rw { client = begin rw.client }

unfoldable pub perform : List Op → ResponseWriter → ResponseWriter
perform [] rw = rw
perform (send_header code ∷ ops) rw = perform ops (write_header code rw)
perform (send_bytes text ∷ ops) rw = perform ops (write text rw)
perform (send_flush ∷ ops) rw = perform ops (flush_writer rw)

pub record Line : Type 0 where
  pub trace_id : String
  pub user_id : String
  pub method : String
  pub path : String
  pub latency : ℤ
  pub status_code : ℕ

-- `d.Milliseconds()`
abbrev milliseconds : ℤ → ℤ
milliseconds (pos n) = pos (n / millisecond)
milliseconds (negsuc n) = pos 0 -ℤ pos (suc n / millisecond)

-- The handler behind the logger is given a derived context; `trace_id` is the new uuid.
unfoldable pub logger :
    {p : Platform} {A : Type 0}
    → String
    → (Context → World p → List Op × A × World p)
    → String
    → String
    → Context
    → World p
    → Line × Client × A × World p
logger trace_id next method path r_context w =
    let ctx = with_value r_context trace_id_key trace_id in
    let (ops, a, v) = next ctx w in
    let rw =
      perform ops (record {
        client = record { sent = none; body = [] };
        status_code = 200;
        written = false;
      }) in
    (
      record {
        trace_id = trace_id;
        user_id = user_id_from_context ctx;
        method = method;
        path = path;
        latency = milliseconds (sub_time v.now w.now);
        status_code = rw.status_code;
      },
      rw.client,
      a,
      v,
    )
