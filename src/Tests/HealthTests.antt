-- ===== src/Tests/HealthTests.antt =====
-- The health check and the log at concrete requests.
use trade_journal.Prelude.{ℕ, Option, ◌≡◌, refl, String, List, [], ◌∷◌, ◌++◌, arith, All, ◌<◌}
use trade_journal.Api.HealthHandler.{codes, check, ping, is_ok}
use trade_journal.Api.HealthHandler.Lag.{printed}
use trade_journal.Api.HealthHandler.Report.{Reports, check-Reports}
use trade_journal.Api.Auth.{Parsed, failed}
use trade_journal.Api.Router.{Encoders, Texts}
use trade_journal.Store.World.{World, refused, lost}
use trade_journal.Tests.Machine.{machine}
use trade_journal.Tests.Fixtures.{losing_trade, world_of}

-- The digits of 1736155800000.
abbrev time_digits : List ℕ
time_digits = 1 ∷ 7 ∷ 3 ∷ 6 ∷ 1 ∷ 5 ∷ 5 ∷ 8 ∷ 0 ∷ 0 ∷ 0 ∷ 0 ∷ 0 ∷ []

are_digits : All (λ d. d < 10) time_digits
are_digits = ground arith

-- The same id as a text.
same_codes : codes "1736155800000-0" ≡ printed time_digits ++ (45 ∷ 48 ∷ [])
unfolding codes
same_codes = refl

check-Reports_example :
    let w = world_of (losing_trade ∷ []) (refused ∷ lost ∷ []) in
    Reports w (is_ok (ping w).0) (check w)
check-Reports_example = check-Reports (world_of (losing_trade ∷ []) (refused ∷ lost ∷ []))

abbrev no_token : (String → Option String) → String → Parsed
no_token keys token = failed "token is malformed"

abbrev blank : Encoders machine
blank = record { profile = λ x. "{}"; metrics = λ x. "{}" }

abbrev plain : Texts machine
plain = record { body = λ b. "{}"; event = λ e. "event" }

abbrev shaky : World machine
shaky = world_of (losing_trade ∷ []) (refused ∷ [])
