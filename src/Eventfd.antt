-- ===== src/Eventfd.antt =====
-- The program src/linux/eventfd/foo.c: what `main` takes and gives back, and the thread that
-- waits for events and reads them.
pub mod Main
pub mod Reader
pub mod Counts
pub mod Writer
mod Tests
