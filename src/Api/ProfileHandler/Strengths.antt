-- ===== src/Api/ProfileHandler/Strengths.antt =====
-- Which strengths a profile lists.
use trade_journal.Prelude.{◌<◌, String, ◌≡◌, ◌↔◌, true, false, List, contains, length, arith}
use trade_journal.Api.ProfileHandler.{strengths_of}

-- A profile speaks of strong emotional control exactly if it lists neither revenge trading nor a
-- session tilt, and of self-awareness exactly if it lists any pathology at all.
pub strengths_of_iff :
    (names : List String)
    → ((contains "Strong emotional control" (strengths_of names) ≡ true)
        ↔ ((contains "revenge_trading" names ≡ false) × (contains "session_tilt" names ≡ false)))
      × ((contains "Self-aware of behavioral patterns" (strengths_of names) ≡ true)
          ↔ (0 < length names))
unfolding strengths_of
strengths_of_iff names = ground arith
