-- ===== src/Main.antt =====
-- src/main.cpp: the file commands, the camera commands, and the main loop.
pub mod Files
pub mod Names
pub mod Updates
pub mod Commands
pub mod Loop
pub mod Recordings
pub mod Status
pub mod Program
pub mod Tests
pub mod ProgramTests
pub mod TextTests
pub mod UpdateTests
