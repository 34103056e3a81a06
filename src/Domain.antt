-- ===== src/Domain.antt =====
-- Package domain (internal/domain): the trade schema, its validation and the behavioural formulas.
pub mod Enums
pub mod Overtrading
pub mod Trade
pub mod Revenge
pub mod Averages
