-- ===== src/Api/Logger/Status.antt =====
-- The recorded status is the one that the client reads.
use trade_journal.Prelude.{
  ℕ, String, ◌≡◌, refl, sym, ◌∙◌, true, false, none, some, List, [], ◌∷◌, arith,
}
use trade_journal.Api.Logger.{
  Op, send_header, send_bytes, send_flush, is_informational, final_status, ResponseWriter,
  write_header, write, flush_writer, perform,
}

-- A handler begins with a final header or with bytes, or does nothing.
pub data IsOrderly : List Op → Type 0 where
  nothing : IsOrderly []
  headed :
      {ops : List Op} (code : ℕ)
      → is_informational code ≡ false
      → IsOrderly (send_header code ∷ ops)
  bare : {ops : List Op} (text : String) → IsOrderly (send_bytes text ∷ ops)

record IsRecorded (code : ℕ) (out : ResponseWriter) : Type 0 where
  pub written : out.written ≡ true
  pub sent : out.client.sent ≡ some code
  pub status_code : out.status_code ≡ code

module _ {code : ℕ} where
  write_header-IsRecorded :
      (c : ℕ) (out : ResponseWriter) → IsRecorded code out → IsRecorded code (write_header c out)
  unfolding write_header
  write_header-IsRecorded c out h = record {
    written = refl;
    sent = ground (arith, h.sent);
    status_code = ground (arith, h.written, h.status_code);
  }

  write-IsRecorded :
      (text : String) (out : ResponseWriter)
      → IsRecorded code out
      → IsRecorded code (write text out)
  unfolding write
  write-IsRecorded text out h = record {
    written = refl;
    sent = ground (arith, h.sent);
    status_code = ground (arith, h.written, h.status_code);
  }

  flush_writer-IsRecorded :
      (out : ResponseWriter) → IsRecorded code out → IsRecorded code (flush_writer out)
  unfolding flush_writer
  flush_writer-IsRecorded out h = record {
    written = h.written;
    sent = ground (arith, h.sent);
    status_code = h.status_code;
  }

  perform-IsRecorded :
      (ops : List Op) (out : ResponseWriter)
      → IsRecorded code out
      → IsRecorded code (perform ops out)
  unfolding perform
  perform-IsRecorded [] out h = h
  perform-IsRecorded (send_header c ∷ ops) out h =
      perform-IsRecorded ops _ (write_header-IsRecorded c out h)
  perform-IsRecorded (send_bytes text ∷ ops) out h =
      perform-IsRecorded ops _ (write-IsRecorded text out h)
  perform-IsRecorded (send_flush ∷ ops) out h =
      perform-IsRecorded ops _ (flush_writer-IsRecorded out h)

-- The writer that the logger makes for a request.
abbrev pub fresh : ResponseWriter
fresh = record { client = record { sent = none; body = [] }; status_code = 200; written = false }

header-IsRecorded :
    (code : ℕ) → is_informational code ≡ false → IsRecorded code (write_header code fresh)
unfolding write_header
header-IsRecorded code final = record { written = refl; sent = rw final refl; status_code = refl }

write-fresh-IsRecorded : (text : String) → IsRecorded 200 (write text fresh)
unfolding write
write-fresh-IsRecorded text = record { written = refl; sent = refl; status_code = refl }

-- The two readings of a status that is recorded.
abbrev pub IsStatus : ℕ → ResponseWriter → Type 0
IsStatus code out = (out.status_code ≡ code) × (final_status out.client ≡ code)

IsRecorded-IsStatus : (code : ℕ) (out : ResponseWriter) → IsRecorded code out → IsStatus code out
IsRecorded-IsStatus code out h = (h.status_code, rw h.sent refl)

pub performed_header :
    (code : ℕ) (ops : List Op)
    → is_informational code ≡ false
    → IsStatus code (perform (send_header code ∷ ops) fresh)
unfolding perform
performed_header code ops final =
    IsRecorded-IsStatus code (perform ops (write_header code fresh))
      (perform-IsRecorded ops (write_header code fresh) (header-IsRecorded code final))

-- Whatever a handler writes that begins with a final header or with bytes, or writes nothing, the
-- recorded status is the one that the client reads: that of the first header, or 200.
pub recorded_status :
    (ops : List Op)
    → IsOrderly ops
    → let out = perform ops fresh in out.status_code ≡ final_status out.client
unfolding perform
recorded_status ops nothing = refl
recorded_status _ (headed {ops} code final) =
    let (a, b) = performed_header code ops final in a ∙ sym b
recorded_status _ (bare {ops} text) =
    let (a, b) =
      IsRecorded-IsStatus 200 (perform ops (write text fresh))
        (perform-IsRecorded ops (write text fresh) (write-fresh-IsRecorded text)) in
    a ∙ sym b
