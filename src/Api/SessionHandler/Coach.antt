-- ===== src/Api/SessionHandler/Coach.antt =====
-- Who is coached, and with which events.
use trade_journal.Prelude.{
  ℕ, zero, suc, ◌<◌, false, ◌+◌, String, ◌≡◌, refl, ap, subst, ◌⊎◌, inl, inr, Bool, true, some,
  List, [], ◌∷◌, length, take, arith, ◌==◌, eq_iff, Bool-cases, Result, ok, err,
}
use trade_journal.Platform.{Platform}
use trade_journal.Store.Tables.{Session}
use trade_journal.Store.World.{World}
use trade_journal.Store.Sessions.{session_of, get_session}
use trade_journal.Store.Sessions.Laws.{get_session_ok}
use trade_journal.Api.SessionHandler.{
  Event, token, done, Reply, json, events, stream_tokens, generate_coaching_message,
  answer_coaching, coaching,
}

-- Every token in order, with its index, and then the whole message.
abbrev pub full_stream : ℕ → List String → String → List Event
full_stream i [] message = done message ∷ []
full_stream i (t ∷ tokens) message = token t i ∷ full_stream (i + 1) tokens message

-- The first `k` events, where the client is found to be there at the index of each token among
-- them, and `k` is all of them or the client has left at that index.
abbrev pub IsCut : (ℕ → Bool) → ℕ → List String → String → List Event → Type 0
IsCut gone i tokens message es =
    (k : ℕ) × (es ≡ take k (full_stream i tokens message))
    × ((k ≡ length tokens + 1) ⊎ (gone (i + k) ≡ true))
    × ((j : ℕ) → j < k → j < length tokens → gone (i + j) ≡ false)

stream_tokens-IsCut :
    (gone : ℕ → Bool) (i : ℕ) (tokens : List String) (message : String)
    → IsCut gone i tokens message (stream_tokens gone i tokens message)
unfolding stream_tokens
stream_tokens-IsCut gone i [] message =
    (1, refl, inl refl, λ j _ none_left. absurd (omega (arith, none_left)))
stream_tokens-IsCut gone i (t ∷ tokens) message =
    let (k, same, why, there) = stream_tokens-IsCut gone (i + 1) tokens message in
    elim (Bool-cases (gone i)) [
      | inl left ↦ (
        0,
        ground (arith, left),
        inr (let z : i + 0 ≡ i = omega arith in rw z left),
        λ j early _. absurd (omega (arith, early)),
      )
      | inr here ↦ (
        suc k,
        rw (here, stream_tokens, same) refl,
        later k why,
        λ j early inside. still k here there j early inside,
      )
    ]
  where
    later :
        (k : ℕ)
        → (k ≡ length tokens + 1) ⊎ (gone (i + 1 + k) ≡ true)
        → (suc k ≡ length (t ∷ tokens) + 1) ⊎ (gone (i + suc k) ≡ true)
    later k (inl all) = inl (omega (arith, all))
    later k (inr left) = inr (let z : i + suc k ≡ i + 1 + k = omega arith in rw z left)

    still :
        (k : ℕ)
        → gone i ≡ false
        → ((j : ℕ) → j < k → j < length tokens → gone (i + 1 + j) ≡ false)
        → (j : ℕ) → j < suc k
        → j < length (t ∷ tokens)
        → gone (i + j) ≡ false
    still k here there zero early inside = let z : i + 0 ≡ i = omega arith in rw z here
    still k here there (suc j) early inside =
        let z : i + suc j ≡ i + 1 + j = omega arith in
        rw z (there j (omega (arith, early)) (omega (arith, inside)))

module _ {p : Platform} where
  events_of : Reply p → List Event
  events_of (json r) = []
  events_of (events es) = es

  events-injective : {es es' : List Event} → ◌≡◌ {A = Reply p} (events es) (events es') → es ≡ es'
  unfolding events_of
  events-injective e = ap events_of e

  -- A stream is written for the session's user only.
  abbrev pub IsCoached : String → String → (ℕ → Bool) → World p → List Event → Type 0
  IsCoached sub id gone w es =
      (u : String) × (s : Session) × (p.uuid id ≡ some u)
      × (session_of u w.db.sessions ≡ some s)
      × (s.user_id ≡ sub)
      × IsCut gone 0 (p.fields (generate_coaching_message p s)) (generate_coaching_message p s) es

  answer_coaching-IsCoached :
      (sub trace id : String) (gone : ℕ → Bool) (w : World p) (r : Result Session) (es : List Event)
      → (get_session id w).0 ≡ r
      → answer_coaching {p = p} sub trace gone true r ≡ events es
      → IsCoached sub id gone w es
  answer_coaching-IsCoached sub trace id gone w (err e) es got e' = cc
  answer_coaching-IsCoached sub trace id gone w (ok s) es got e' =
      let (u, key, held) = get_session_ok id w s got in
      elim (Bool-cases (s.user_id == sub)) [
        | inl same ↦ (u, s, key, held, (eq_iff _ _).0 same, written same)
        | inr other ↦ let e'' = rw other at e' in cc
      ]
    where
      written :
          (s.user_id == sub) ≡ true
          → IsCut gone 0
              (p.fields (generate_coaching_message p s))
              (generate_coaching_message p s)
              es
      written same =
          let message = generate_coaching_message p s in
          subst (IsCut gone 0 (p.fields message) message) (events-injective (rw same at e'))
            (stream_tokens-IsCut gone 0 (p.fields message) message)

  -- Where the writer can flush, a stream of coaching events goes to nobody but the user of the
  -- recorded session; it is the message's tokens in order, numbered from 0, and then the whole
  -- message, or what of this comes before the first token at which the client was found to have
  -- left. Before the whole message it is not asked.
  pub coaching-IsCoached :
      (sub trace id : String) (gone : ℕ → Bool) (w : World p) (es : List Event)
      → (coaching sub trace gone true id w).0 ≡ events es
      → IsCoached sub id gone w es
  unfolding coaching
  coaching-IsCoached sub trace id gone w es =
      answer_coaching-IsCoached sub trace id gone w (get_session id w).0 es refl
