-- ===== src/Tests/StartTests.antt =====
-- The commands and the connections at concrete attempts and environments.
use mathlib.Core.Option.{some-injective}
use trade_journal.Prelude.{
  ℕ, zero, suc, ◌+◌, ◌*◌, ◌≤◌, ◌≡◌, ◌≢◌, refl, sym, ap, String, Bool, true, false, Option, none,
  some, List, [], ◌∷◌, ok, ◌==◌, if◌then◌else◌, eq_iff, eq_refl, ◌&&◌,
}
use trade_journal.Prelude.Time.{second}
use trade_journal.Api.Auth.{
  Parsed, failed, parsed, Admission, passes, Claim, text, other, authenticate, split_two, is_bearer,
}
use trade_journal.Store.Pool.{Attempt, refused, silent, connected, Dialled, new_pool, retry}
use trade_journal.Store.Pool.Attempts.{IsDialled, new_pool-IsDialled}
use trade_journal.Store.World.{World, refused as refused_call, returning}
use trade_journal.Start.{Environment, returned, get_env, default_secret}
use trade_journal.Start.Migrator.{Opening, unopened, unanswered, answered, migrate, migrate_ends}
use trade_journal.Start.Token.{
  MapClaims, SignLaws, as_parsed, token_claims, print_token, print_token_admitted,
}
use trade_journal.Tests.Machine.{machine}
use trade_journal.Tests.Fixtures.{losing_trade, world_of}

-- The server is refused, then silent, then there.
abbrev slow : ℕ → Attempt
slow zero = refused
slow (suc zero) = silent
slow (suc (suc i)) = connected

abbrev never : ℕ → Attempt
never i = silent

new_pool-IsDialled_example : IsDialled slow (new_pool slow)
new_pool-IsDialled_example = new_pool-IsDialled slow

-- The third attempt connects, after 3 seconds; without one, 181 seconds pass and nil is wrapped.
slow_pool : new_pool slow ≡ (Dialled.pool 2, record { slept = 3 * second; closed = 1 })
unfolding new_pool retry
slow_pool = refl

never_pool : new_pool never ≡ (Dialled.failed none, record { slept = 181 * second; closed = 10 })
unfolding new_pool retry
never_pool = refl

abbrev waking : ℕ → Opening
waking zero = unopened
waking (suc zero) = unanswered
waking (suc (suc i)) = answered

abbrev no_settings : Environment
no_settings key = ""

abbrev before : World machine
before = world_of (losing_trade ∷ []) []

migrate_ends_example :
    (migrate (λ dir. returning (ok tt)) no_settings waking before
      ≡ (returned, record before { now = before.now + 3 * second }))
    × (3 * second ≤ 175 * second)
migrate_ends_example = migrate_ends waking (λ dir. returning (ok tt)) no_settings before

-- A library whose tokens are their keys, and hold the claims of Sam alone.
abbrev sams_claims : List (String × Claim)
sams_claims = ("sub", text "sam") ∷ ("role", text "trader") ∷ ("iat", other) ∷ ("exp", other) ∷ []

abbrev sign : String → String → MapClaims → String
sign method key claims = key

abbrev checked : String → Option String → Parsed
checked token none = failed "signature is invalid"
checked token (some key) =
    if key == token then parsed true (some sams_claims) else failed "signature is invalid"

abbrev jwt_parse : (String → Option String) → String → Parsed
jwt_parse keys token = checked token (keys "HS256")

abbrev same_claim : Claim → Claim → Bool
same_claim (text s) (text t) = s == t
same_claim other other = true
same_claim (text s) other = false
same_claim other (text t) = false

abbrev same_claims : List (String × Claim) → List (String × Claim) → Bool
same_claims [] [] = true
same_claims [] (y ∷ ys) = false
same_claims (x ∷ xs) [] = false
same_claims ((k, c) ∷ xs) ((j, d) ∷ ys) = k == j && (same_claim c d && same_claims xs ys)

same_claim_eq : (c d : Claim) → same_claim c d ≡ true → c ≡ d
same_claim_eq (text s) (text t) h = ap text ((eq_iff s t).0 h)
same_claim_eq other other h = refl
same_claim_eq (text s) other h = cc
same_claim_eq other (text t) h = cc

both : (a b : Bool) → (a && b) ≡ true → (a ≡ true) × (b ≡ true)
both true b h = (refl, h)
both false b h = cc

same_claims_eq : (xs ys : List (String × Claim)) → same_claims xs ys ≡ true → xs ≡ ys
same_claims_eq [] [] h = refl
same_claims_eq [] (y ∷ ys) h = cc
same_claims_eq (x ∷ xs) [] h = cc
same_claims_eq ((k, c) ∷ xs) ((j, d) ∷ ys) h =
    let (a, rest) = both (k == j) (same_claim c d && same_claims xs ys) h in
    let (b, later) = both (same_claim c d) (same_claims xs ys) rest in
    let key = (eq_iff k j).0 a in
    let claim = same_claim_eq c d b in
    let more = same_claims_eq xs ys later in λ t. (key t, claim t) ∷ more t

abbrev is_sams : MapClaims → Bool
is_sams claims = same_claims sams_claims (as_parsed claims)

signed :
    (keys : String → Option String) (key : String) (claims : MapClaims)
    → keys "HS256" ≡ some key
    → is_sams claims ≡ true
    → jwt_parse keys (sign "HS256" key claims) ≡ parsed true (some (as_parsed claims))
signed keys key claims e valid =
    rw (e, eq_refl key)
      (ap (λ cs. parsed true (some cs)) (same_claims_eq sams_claims (as_parsed claims) valid))

abbrev signing : SignLaws sign jwt_parse is_sams
signing = record { parse-sign = signed }

sams_times :
    (claims : MapClaims) → token_claims ("sam" ∷ []) 0 ≡ some claims → is_sams claims ≡ true
unfolding token_claims
sams_times claims e = rw (sym (some-injective _ _ e)) refl

named : ◌≢◌ {A = String} "sam" ""
named e = blank_differs ((eq_iff "sam" "").1 e)
  where
    blank_differs : ¬ (("sam" == "") ≡ true)
    blank_differs h = cc

print_token_admitted_example :
    ◌≡◌ {A = Admission machine}
      (authenticate jwt_parse
        (get_env no_settings "JWT_SECRET" default_secret)
        "trace"
        "Bearer 97791d4db2aa5f689c3cc39356ce35762f0a73aa70923039d8ef72a2840a1b02")
      (passes "sam")
unfolding print_token token_claims split_two is_bearer
print_token_admitted_example =
    print_token_admitted signing no_settings "sam"
      "Bearer 97791d4db2aa5f689c3cc39356ce35762f0a73aa70923039d8ef72a2840a1b02" "trace"
      default_secret "Bearer" [] 0 refl named refl refl refl sams_times
