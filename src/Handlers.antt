-- ===== src/Handlers.antt =====
-- internal/domains/appstate/handlers: what the state service asks of a state handler, and what the
-- handlers are built from.
pub mod Boot
pub mod Init
pub mod Active
pub mod Reset
pub mod Maintenance
pub mod UpdateConfig
pub mod ZtpSetup
pub mod Interface
