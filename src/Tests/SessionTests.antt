-- ===== src/Tests/SessionTests.antt =====
-- The session endpoints at concrete requests.
use trade_journal.Prelude.{◌≡◌, refl, String, true, none, some, [], ◌∷◌, eqb}
use trade_journal.Prelude.Int.{pos}
use trade_journal.Domain.Enums.{is_valid_emotional_state}
use trade_journal.Store.World.{World, call, call_with, refused, lost}
use trade_journal.Store.Columns.{◌>>=◌}
use trade_journal.Store.Sessions.{
  get_session, select_session, insert_debrief, store_debrief, debrief_row,
}
use trade_journal.Api.TradeHandler.{decoded}
use trade_journal.Api.SessionHandler.{
  DebriefInput, token, generate_coaching_message, stream_tokens, debrief, coaching,
}
use trade_journal.Api.SessionHandler.Coach.{IsCoached, coaching-IsCoached}
use trade_journal.Tests.Machine.{machine}
use trade_journal.Tests.Fixtures.{morning, world_of, fresh}

abbrev calm_debrief : DebriefInput
calm_debrief = record {
  overall_mood = "calm";
  key_mistake = none;
  key_lesson = some "wait";
  plan_adherence_rating = some (pos 4);
  will_review_tomorrow = true;
}

-- Sam saves a debrief; Kim is refused.
debrief_saves : (debrief "sam" "trace" "s1" (decoded calm_debrief) fresh).0.status ≡ 201
unfolding debrief get_session select_session insert_debrief store_debrief debrief_row
    is_valid_emotional_state call call_with ◌>>=◌
debrief_saves = refl

debrief_foreign : (debrief "kim" "trace" "s1" (decoded calm_debrief) fresh).0.status ≡ 403
unfolding debrief get_session select_session call call_with
debrief_foreign = refl

-- The session is read, and the reply to the INSERT is lost.
abbrev half_lost : World machine
half_lost = world_of [] (trade_journal.Store.World.answered ∷ lost ∷ [])

abbrev message : String
message = generate_coaching_message machine morning

-- The client leaves after the first token.
coaching-IsCoached_example : IsCoached "sam" "s1" (λ i. eqb i 1) fresh (token message 0 ∷ [])
unfolding coaching get_session select_session stream_tokens call call_with
coaching-IsCoached_example =
    coaching-IsCoached "sam" "trace" "s1" (λ i. eqb i 1) fresh (token message 0 ∷ []) refl
