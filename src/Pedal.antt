-- ===== src/Pedal.antt =====
-- PedalBoardProject: the firmware of the effects pedal.
pub mod Config
pub mod Board
pub mod Codec
pub mod Main
mod Tests
