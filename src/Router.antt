-- ===== src/Router.antt =====
-- crates/router: the workers that requests are routed to.
pub mod Policy
pub mod Registry
mod Tests
