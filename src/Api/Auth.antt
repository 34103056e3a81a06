-- ===== src/Api/Auth.antt =====
-- internal/api/middleware/auth.go: which requests reach a handler, and for which user.
pub mod Access
use Prim.Native.Char.{Char, code}
use Prim.Native.String.{len, find, slice, char_at}
use trade_journal.Prelude.{
  ℕ, ◌+◌, String, Bool, true, false, not, ◌&&◌, Option, none, some, List, [], ◌∷◌, leb, eqb,
  if◌then◌else◌, ◌==◌,
}
use trade_journal.Platform.{Platform}
use trade_journal.Cache.LastLoss.{join}
use trade_journal.Api.Response.{Response, raw, respond_json}

-- A value of a token's claims.
pub data Claim : Type 0 where
  text : String → Claim
  other : Claim

-- What `jwt.Parse` returns: an error by its text, or a token.
pub data Parsed : Type 0 where
  failed : String → Parsed
  parsed : Bool → Option (List (String × Claim)) → Parsed

-- The request is answered, or passed on with the user of the token in its context.
pub data Admission (p : Platform) : Type 0 where
  rejects : Response p → Admission p
  passes : String → Admission p

-- `strings.Contains`
abbrev pub contains_text : String → String → Bool
contains_text s t = leb (find s t) (len s)

-- `strings.SplitN(s, " ", 2)`, where there are two parts
unfoldable pub split_two : String → Option (String × String)
split_two s =
    if contains_text s " "
    then some (slice s 0 (find s " "), slice s (find s " " + 1) (len s))
    else none

-- The small letter of a capital one.
abbrev fold : ℕ → ℕ
fold n = if leb 65 n && leb n 90 then n + 32 else n

-- `strings.EqualFold(s, "Bearer")`: these letters have no other form outside ASCII.
unfoldable pub is_bearer : String → Bool
is_bearer s =
    eqb (len s) 6
    && (eqb (fold (code (char_at s 0))) 98
        && (eqb (fold (code (char_at s 1))) 101
            && (eqb (fold (code (char_at s 2))) 97
                && (eqb (fold (code (char_at s 3))) 114
                    && (eqb (fold (code (char_at s 4))) 101
                        && eqb (fold (code (char_at s 5))) 114)))))

-- `*jwt.SigningMethodHMAC` is the type of three methods.
unfoldable pub is_hmac : String → Bool
is_hmac method = trade_journal.Prelude.contains method ("HS256" ∷ "HS384" ∷ "HS512" ∷ [])

-- The key function: it refuses a method that is no HMAC.
unfoldable pub key_of : String → String → Option String
key_of secret method = if is_hmac method then some secret else none

-- `claims["sub"].(string)`, and the empty text where it fails
unfoldable pub sub_of : List (String × Claim) → String
sub_of [] = ""
sub_of ((k, c) ∷ claims) =
    let rest = sub_of claims in if k == "sub" then elim c [ text s ↦ s | other ↦ "" ] else rest

module _ {p : Platform} where
  abbrev respond_auth_error : String → String → String → Response p
  respond_auth_error trace_id error message = respond_json 401 (
      raw (
        join "{\"error\":\"" (
          join error (
            join "\",\"message\":\""
              (join message (join "\",\"traceId\":\"" (join trace_id "\"}")))))))

  abbrev unauthorized_with : String → String → Admission p
  unauthorized_with trace_id message = rejects (respond_auth_error trace_id "UNAUTHORIZED" message)

  abbrev admit_claims : String → List (String × Claim) → Admission p
  admit_claims trace_id claims =
      if sub_of claims == ""
      then unauthorized_with trace_id "Missing sub claim"
      else passes (sub_of claims)

  abbrev admit_token : String → Parsed → Admission p
  admit_token trace_id (failed e) =
      if contains_text e "expired"
      then rejects (respond_auth_error trace_id "TOKEN_EXPIRED" "Token has expired")
      else unauthorized_with trace_id "Invalid token"
  admit_token trace_id (parsed false claims) = unauthorized_with trace_id "Invalid token"
  admit_token trace_id (parsed true none) = unauthorized_with trace_id "Invalid token claims"
  admit_token trace_id (parsed true (some claims)) = admit_claims trace_id claims

  abbrev admit_parts :
      ((String → Option String) → String → Parsed)
      → String
      → String
      → Option (String × String)
      → Admission p
  admit_parts jwt_parse secret trace_id none =
      unauthorized_with trace_id "Invalid Authorization header format"
  admit_parts jwt_parse secret trace_id (some (scheme, token)) =
      if not (is_bearer scheme)
      then unauthorized_with trace_id "Invalid Authorization header format"
      else admit_token trace_id (jwt_parse (key_of secret) token)

  -- `AuthMiddleware(secret)`; `jwt_parse` is the library's parser, given a key function and a token.
  unfoldable pub authenticate :
      ((String → Option String) → String → Parsed) → String → String → String → Admission p
  authenticate jwt_parse secret trace_id header =
      if header == ""
      then unauthorized_with trace_id "Missing Authorization header"
      else admit_parts jwt_parse secret trace_id (split_two header)
