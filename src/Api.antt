-- ===== src/Api.antt =====
-- Package handler (internal/api/handler): what each endpoint answers.
pub mod Response
pub mod Auth
pub mod TradeHandler
pub mod HealthHandler
pub mod Logger
pub mod SessionHandler
pub mod ProfileHandler
pub mod MetricsHandler
pub mod Router
