-- ===== src/Host.antt =====
-- The host's side of the link, host/terminal: the dispatcher that answers requests from an image, and
-- what a request of the client and its answer come to together.
pub mod Dispatcher
pub mod Exchange
pub mod Runner
mod Tests
