-- ===== src/Autoupdater.antt =====
-- The automatic updater, eos-autoupdater/main.c: it drives the daemon from one state to the next.
pub mod Results
pub mod Steps
pub mod Stamp
pub mod Main
mod Tests
