-- ===== src/Ual.antt =====
-- ot-node-docker/src/service/ual-service.js: the locators of assets (UAL), which are texts.
pub mod Text
pub mod Decimal
pub mod Service
pub mod Printed
pub mod RoundTrip
pub mod Shortened
pub mod Accepted
mod Tests
