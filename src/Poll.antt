-- ===== src/Poll.antt =====
-- Polling for updates: eos-updater/poll-common.c and poll.c.
pub mod Sources
pub mod Finders
pub mod Latest
pub mod Refspec
pub mod Check
pub mod Fetchers
pub mod Metadata
pub mod Update
mod Tests
