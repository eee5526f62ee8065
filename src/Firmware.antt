-- ===== src/Firmware.antt =====
-- firmware/src: the service that keeps the CDC session, and the card's storage over it.
pub mod Service
pub mod SdBackend
mod Tests
