-- ===== src/Api/Auth/Access.antt =====
-- Who passes the authentication.
use trade_journal.Prelude.{
  String, ◌≡◌, ◌≢◌, refl, ap, sym, ◌∙◌, inl, inr, Bool, true, false, Option, none, some, List, [],
  ◌∷◌, arith, Bool-cases, Option-cases, ◌==◌, eq_iff,
}
use trade_journal.Platform.{Platform}
use trade_journal.Api.Response.{Response}
use trade_journal.Api.Auth.{
  Claim, Parsed, failed, parsed, Admission, rejects, passes, split_two, is_bearer, is_hmac, key_of,
  sub_of, admit_claims, admit_token, admit_parts, authenticate, contains_text,
}

-- What the library promises: a valid token was signed with a key that the key function gave for
-- the token's method. `Signed method key token` is the library's notion of a signature.
pub record JwtLaws (jwt_parse : (String → Option String) → String → Parsed)
    (Signed : String → String → String → Type 0) : Type 0 where
  pub verified :
      (keys : String → Option String) (token : String) (claims : Option (List (String × Claim)))
      → jwt_parse keys token ≡ parsed true claims
      → (method key : String) × (keys method ≡ some key) × Signed method key token

module _ (jwt_parse : (String → Option String) → String → Parsed)
    (Signed : String → String → String → Type 0) (secret header : String) where
  -- The header holds a bearer token that names the user and is signed with the secret.
  pub record Holds (sub : String) : Type 0 where
    pub scheme : String
    pub token : String
    pub method : String
    pub claims : List (String × Claim)
    pub split : split_two header ≡ some (scheme, token)
    pub bearer : is_bearer scheme ≡ true
    pub hmac : is_hmac method ≡ true
    pub signed : Signed method secret token
    pub valid : jwt_parse (key_of secret) token ≡ parsed true (some claims)
    pub subject : sub_of claims ≡ sub
    pub named : sub ≢ ""

key_of_hmac :
    (secret method key : String)
    → key_of secret method ≡ some key
    → (is_hmac method ≡ true) × (key ≡ secret)
unfolding key_of
key_of_hmac secret method key e = elim (Bool-cases (is_hmac method)) [
  | inl good ↦ (good, ground (arith, e, good))
  | inr bad ↦ ground (arith, e, bad)
]

module _ {jwt_parse : (String → Option String) → String → Parsed}
    {Signed : String → String → String → Type 0} (laws : JwtLaws jwt_parse Signed)
    (secret header : String) where
  -- A valid token with a subject.
  holds :
      (scheme token : String) (claims : List (String × Claim)) (sub : String)
      → split_two header ≡ some (scheme, token)
      → is_bearer scheme ≡ true
      → jwt_parse (key_of secret) token ≡ parsed true (some claims)
      → (sub_of claims == "") ≡ false
      → sub_of claims ≡ sub
      → Holds jwt_parse Signed secret header sub
  holds scheme token claims sub split bearer valid named same =
      let (method, key, got, sig) = laws.verified (key_of secret) token (some claims) valid in
      let (good, secret_key) = key_of_hmac secret method key got in
      record {
        scheme = scheme;
        token = token;
        method = method;
        claims = claims;
        split = split;
        bearer = bearer;
        hmac = good;
        signed = rw secret_key at sig;
        valid = valid;
        subject = same;
        named = λ e. differ ((eq_iff (sub_of claims) "").1 (same ∙ e));
      }
    where
      differ : (sub_of claims == "") ≡ true → ⊥
      differ h = cc

module _ {p : Platform} {jwt_parse : (String → Option String) → String → Parsed}
    {Signed : String → String → String → Type 0} (laws : JwtLaws jwt_parse Signed)
    (secret trace header : String) where
  -- What an admission says of the header.
  pub record IsAdmission (a : Admission p) : Type 0 where
    pub on_pass : (sub : String) → a ≡ passes sub → Holds jwt_parse Signed secret header sub
    pub on_reject : (r : Response p) → a ≡ rejects r → r.status ≡ 401

  status_of : Admission p → trade_journal.Prelude.ℕ
  status_of (rejects r) = r.status
  status_of (passes sub) = 0

  user_of : Admission p → String
  user_of (rejects r) = ""
  user_of (passes sub) = sub

  rejected : (r : Response p) → r.status ≡ 401 → IsAdmission (rejects r)
  unfolding status_of
  rejected r h = record { on_pass = λ sub e. cc; on_reject = λ r' e. sym (ap status_of e) ∙ h }

  admit_claims-IsAdmission :
      (scheme token : String) (claims : List (String × Claim))
      → split_two header ≡ some (scheme, token)
      → is_bearer scheme ≡ true
      → jwt_parse (key_of secret) token ≡ parsed true (some claims)
      → IsAdmission (admit_claims trace claims)
  unfolding user_of
  admit_claims-IsAdmission scheme token claims split bearer valid =
      elim (Bool-cases (sub_of claims == "")) [
        | inl empty ↦ rw empty (rejected _ refl)
        | inr named ↦ rw named (record {
          on_pass = λ sub e.
              holds laws secret header scheme token claims sub split bearer valid named
                (ap user_of e);
          on_reject = λ r e. cc;
        })
      ]

  admit_token-IsAdmission :
      (scheme token : String) (t : Parsed)
      → split_two header ≡ some (scheme, token)
      → is_bearer scheme ≡ true
      → jwt_parse (key_of secret) token ≡ t
      → IsAdmission (admit_token trace t)
  admit_token-IsAdmission scheme token (failed m) split bearer e =
      elim (Bool-cases (contains_text m "expired")) [
        | inl old ↦ rw old (rejected _ refl)
        | inr bad ↦ rw bad (rejected _ refl)
      ]
  admit_token-IsAdmission scheme token (parsed false claims) split bearer e = rejected _ refl
  admit_token-IsAdmission scheme token (parsed true none) split bearer e = rejected _ refl
  admit_token-IsAdmission scheme token (parsed true (some claims)) split bearer e =
      admit_claims-IsAdmission scheme token claims split bearer e

  admit_parts-IsAdmission :
      (o : Option (String × String))
      → split_two header ≡ o
      → IsAdmission (admit_parts jwt_parse secret trace o)
  admit_parts-IsAdmission none e = rejected _ refl
  admit_parts-IsAdmission (some (scheme, token)) e = elim (Bool-cases (is_bearer scheme)) [
    | inl bearer ↦ rw bearer (admit_token-IsAdmission scheme token _ e bearer refl)
    | inr bad ↦ rw bad (rejected _ refl)
  ]

  -- A request reaches a handler only for the user whom its token names: the header is a bearer
  -- token, signed with the secret under an HMAC method, valid, and with a subject that is not
  -- empty. Every other request is answered with 401.
  pub authenticate-IsAdmission : IsAdmission (authenticate jwt_parse secret trace header)
  unfolding authenticate
  authenticate-IsAdmission = elim (Bool-cases (header == "")) [
    | inl missing ↦ rw missing (rejected _ refl)
    | inr given ↦ rw given (admit_parts-IsAdmission (split_two header) refl)
  ]
