-- ===== src/Domain/Overtrading.antt =====
-- internal/domain/overtrading.go
use trade_journal.Prelude.{ℕ}

abbrev pub max_trades_per_window : ℕ
max_trades_per_window = 10

abbrev pub window_duration_ms : ℕ
window_duration_ms = 1_800_000
