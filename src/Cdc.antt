-- ===== src/Cdc.antt =====
-- The CDC side of shared/protocol: the text protocol, the session client, the retry machinery, the
-- operation coordinator and the sector buffers. One child for each.
pub mod Text
pub mod Numbers
pub mod Codec
pub mod Responses
pub mod Backend
pub mod Client
pub mod Retry
pub mod Deadline
pub mod Operation
pub mod Pool
pub mod Coordinator
mod Tests
