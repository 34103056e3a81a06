-- ===== src/Domain/Revenge.antt =====
-- internal/domain/revenge.go
use trade_journal.Prelude.{
  ◌*◌, ◌+◌, ◌<◌, ◌≤◌, String, ◌≡◌, ◌↔◌, ◌⊎◌, Bool, true, false, ◌||◌, arith, if◌then◌else◌, ◌==◌,
  eq_iff,
}
use trade_journal.Prelude.Int.{pos, leb_ℤ, ltb_ℤ}
use trade_journal.Prelude.Time.{Time, second, sub_time}
use trade_journal.Domain.Enums.{emotion_anxious, emotion_fearful}

unfoldable pub is_revenge : Time → Time → String → Bool
is_revenge prev_exit_at new_entry_at emotional_state =
    let gap = sub_time new_entry_at prev_exit_at in
    if leb_ℤ (pos (90 * second)) gap || ltb_ℤ gap (pos 0)
    then false
    else emotional_state == emotion_anxious || emotional_state == emotion_fearful

-- A trade is a revenge trade exactly when it is entered at or after the losing exit and less than
-- ninety seconds later, in an anxious or fearful state. A gap that int64 cannot hold is no
-- exception.
pub is_revenge_iff :
    (prev entry : Time) (s : String)
    → (is_revenge prev entry s ≡ true)
      ↔ ((prev ≤ entry) × (entry < prev + 90 * second) × ((s ≡ "anxious") ⊎ (s ≡ "fearful")))
unfolding is_revenge
is_revenge_iff prev entry s = ground (arith, eq_iff s "anxious", eq_iff s "fearful")
