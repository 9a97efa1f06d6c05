-- ===== src/Fileview.antt =====
-- The hex viewer src/kernel/linux_memory/mm_addr/fileview.c: the buffer that its loop fills, the
-- lines that it draws, the address editor and the navigation loop.
pub mod Keys
pub mod Fill
pub mod Line
pub mod Seek
pub mod Navigate
pub mod Start
mod Tests
