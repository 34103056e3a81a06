-- ===== src/Start/Token.antt =====
-- cmd/jwtgen/main.go: a token for a user, signed with the secret that the source gives.
use mathlib.Core.Option.{some-injective}
use trade_journal.Prelude.{
  ◌+◌, String, ◌≡◌, ◌≢◌, refl, sym, Bool, true, false, Option, none, some, List, [], ◌∷◌, ◌==◌,
  Bool-cases, eq_iff, inl, inr,
}
use trade_journal.Prelude.Int.{ℤ}
use trade_journal.Prelude.Time.{Time, unix, hour}
use trade_journal.Platform.{Platform}
use trade_journal.Api.Auth.{
  Claim, text, other, Parsed, parsed, Admission, passes, authenticate, split_two, is_bearer,
  is_hmac, key_of, sub_of,
}
use trade_journal.Start.{Environment, get_env, default_secret}

-- `jwt.MapClaims`: texts, and Unix times.
pub data Value : Type 0 where
  text_value : String → Value
  number : ℤ → Value

abbrev pub MapClaims : Type 0
MapClaims = List (String × Value)

-- `os.Args` without the name of the program; without an argument the index is out of range.
unfoldable pub token_claims : List String → Time → Option MapClaims
token_claims [] now = none
token_claims (sub ∷ args) now = some (
    ("sub", text_value sub)
    ∷ ("role", text_value "trader")
    ∷ ("iat", number (unix now))
    ∷ ("exp", number (unix (now + hour)))
    ∷ [])

-- `main`: what is printed, or the panic; `sign` is the library's `SignedString`, for a method.
unfoldable pub print_token :
    (String → String → MapClaims → String) → List String → Time → Option String
print_token sign args now = elim (token_claims args now) [
  | none ↦ none
  | some claims ↦ some (sign "HS256" default_secret claims)
]

-- The claims as the parser returns them.
abbrev pub as_parsed : MapClaims → List (String × Claim)
as_parsed [] = []
as_parsed ((k, text_value s) ∷ claims) = (k, text s) ∷ as_parsed claims
as_parsed ((k, number n) ∷ claims) = (k, other) ∷ as_parsed claims

-- The parser returns the claims of a token that was signed under HS256 with the key it is given, if
-- `valid` says that its times are.
pub record SignLaws (sign : String → String → MapClaims → String)
    (jwt_parse : (String → Option String) → String → Parsed) (valid : MapClaims → Bool)
    : Type 0 where
  pub parse-sign :
      (keys : String → Option String) (key : String) (claims : MapClaims)
      → keys "HS256" ≡ some key
      → valid claims ≡ true
      → jwt_parse keys (sign "HS256" key claims) ≡ parsed true (some (as_parsed claims))

not_empty :
    (header scheme token : String)
    → split_two header ≡ some (scheme, token)
    → (header == "") ≡ false
unfolding split_two
not_empty header scheme token split = elim (Bool-cases (header == "")) [
  | inl empty ↦ let none_there = rw ((eq_iff _ _).0 empty) at split in cc
  | inr full ↦ full
]

not_blank : (sub : String) → sub ≢ "" → (sub == "") ≡ false
not_blank sub named = elim (Bool-cases (sub == "")) [
  | inl empty ↦ absurd (named ((eq_iff _ _).0 empty))
  | inr full ↦ full
]

module _ {p : Platform} {sign : String → String → MapClaims → String}
    {jwt_parse : (String → Option String) → String → Parsed} {valid : MapClaims → Bool}
    (laws : SignLaws sign jwt_parse valid) where
  -- A server that is started without JWT_SECRET admits a token that the command prints, for whichever
  -- user it was printed, as long as its times are valid.
  pub print_token_admitted :
      (env : Environment) (sub header trace token scheme : String) (args : List String) (now : Time)
      → env "JWT_SECRET" ≡ ""
      → sub ≢ ""
      → print_token sign (sub ∷ args) now ≡ some token
      → split_two header ≡ some (scheme, token)
      → is_bearer scheme ≡ true
      → ((claims : MapClaims) → token_claims (sub ∷ args) now ≡ some claims → valid claims ≡ true)
      → ◌≡◌ {A = Admission p}
          (authenticate jwt_parse (get_env env "JWT_SECRET" default_secret) trace header)
          (passes sub)
  unfolding authenticate print_token token_claims key_of is_hmac sub_of
  print_token_admitted env sub header trace token scheme args now unset named printed split bearer
        ok =
      let claims : MapClaims =
        ("sub", text_value sub)
        ∷ ("role", text_value "trader")
        ∷ ("iat", number (unix now))
        ∷ ("exp", number (unix (now + hour)))
        ∷ [] in
      let made : sign "HS256" default_secret claims ≡ token = some-injective _ _ printed in
      let read =
        laws.parse-sign (key_of default_secret) default_secret claims refl (ok claims refl) in
      rw
        (
          unset,
          not_empty header scheme token split,
          split,
          bearer,
          sym made,
          read,
          not_blank sub named,
        )
        refl
