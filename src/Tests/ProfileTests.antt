-- ===== src/Tests/ProfileTests.antt =====
-- Evidence and profiles at concrete requests.
use trade_journal.Prelude.{String, List, [], ◌∷◌}
use trade_journal.Domain.Trade.{Trade}
use trade_journal.Store.World.{World, refused}
use trade_journal.Api.ProfileHandler.{ProfileResponse}
use trade_journal.Tests.Machine.{machine}
use trade_journal.Tests.Fixtures.{losing_trade, copied_trade, world_of}

abbrev rows : List (Trade machine)
rows = losing_trade ∷ copied_trade ∷ losing_trade ∷ []

-- The second query fails.
abbrev shaky : World machine
shaky = world_of rows (trade_journal.Store.World.answered ∷ refused ∷ [])

abbrev blank : ProfileResponse machine → String
blank profile = "{}"
