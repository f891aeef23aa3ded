-- ===== src/Process.antt =====
-- frontik/process.py: the master process, its workers, and the pipes between them.
pub mod Frames
pub mod Workers
mod Tests
