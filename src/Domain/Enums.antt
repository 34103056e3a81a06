-- ===== src/Domain/Enums.antt =====
-- internal/domain/enums.go: the enumerations are maps from the valid texts to true.
use trade_journal.Prelude.{String, Bool, List, [], ◌∷◌, contains}

abbrev pub direction_long : String
direction_long = "long"

abbrev pub direction_short : String
direction_short = "short"

abbrev pub status_open : String
status_open = "open"

abbrev pub status_closed : String
status_closed = "closed"

abbrev pub status_cancelled : String
status_cancelled = "cancelled"

abbrev pub emotion_anxious : String
emotion_anxious = "anxious"

abbrev pub emotion_fearful : String
emotion_fearful = "fearful"

abbrev pub outcome_win : String
outcome_win = "win"

abbrev pub outcome_loss : String
outcome_loss = "loss"

abbrev pub valid_asset_classes : List String
valid_asset_classes = "equity" ∷ "crypto" ∷ "forex" ∷ []

abbrev pub valid_directions : List String
valid_directions = direction_long ∷ direction_short ∷ []

abbrev pub valid_statuses : List String
valid_statuses = status_open ∷ status_closed ∷ status_cancelled ∷ []

abbrev pub valid_emotions : List String
valid_emotions = "calm" ∷ emotion_anxious ∷ "greedy" ∷ emotion_fearful ∷ "neutral" ∷ []

unfoldable pub is_valid_asset_class : String → Bool
is_valid_asset_class s = contains s valid_asset_classes

unfoldable pub is_valid_direction : String → Bool
is_valid_direction s = contains s valid_directions

unfoldable pub is_valid_status : String → Bool
is_valid_status s = contains s valid_statuses

unfoldable pub is_valid_emotional_state : String → Bool
is_valid_emotional_state s = contains s valid_emotions
