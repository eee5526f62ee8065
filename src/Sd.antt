-- ===== src/Sd.antt =====
-- The SD card side of shared/protocol: checksums, command frames, registers, the card's state
-- machine and its storage boundary, the command model and the SPI byte engine. One child for each.
pub mod Crc
pub mod Command
pub mod Registers
pub mod State
pub mod Storage
pub mod Framers
pub mod Model
pub mod Engine
pub mod Worker
mod Tests
