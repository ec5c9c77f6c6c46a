-- ===== src/Lib.antt =====
-- eos-updater, the updater of Endless OS: a daemon on the system bus that polls for, fetches and
-- applies OSTree updates, a program that drives it automatically, and a library that installs and
-- uninstalls flatpaks as lists on the system say.
--
-- The parts and how they interact. A client calls the methods of com.endlessm.Updater; the
-- daemon's main thread checks its state, starts a worker thread and takes the worker's result. The
-- automatic updater is such a client: each change of the daemon's state leads to its next call.
-- Actions on flatpaks are read from autoinstall lists, squashed to one for each ref, filtered by
-- the progress recorded for each list, performed in order, and the progress is written back.
--
-- Prelude: Boolean tests, lists, integers over the native numbers, C strings, sorting.
-- Errors: the error codes that the code compares (libeos-updater-util/types.h), and results.
-- Actions: libeos-updater-util/flatpak-util.c. An action with its comparison
--   (sort_flatpak_remote_ref_actions); Actions.Squash (squash_ref_actions_ptr_array);
--   Actions.Progress (keep_only_new_actions, keep_only_existing_actions and what uses them).
-- Installer: libeos-updater-flatpak-installer/perform-flatpak-actions.c.
-- Daemon: eos-updater/object.c and data.c. Daemon.Handlers has the methods (poll.c, fetch.c,
--   apply.c, main.c), Daemon.Sizes has get_commit_sizes (poll-common.c), Daemon.Finish what is done
--   with a worker's result, Daemon.Startup on_bus_acquired (main.c, live-boot.c), and
--   Daemon.Machine the steps of the daemon with its workers.
-- Autoupdater: eos-autoupdater/main.c. Results (the file of poll results), Steps (do_update_step
--   and on_state_changed), Stamp (the stamp file) and Main (the configuration and main).
-- Poll: eos-updater/poll.c and poll-common.c. Sources (the download order), Finders (get_finders),
--   Update (is_checksum_an_update), Latest (fetch_latest_commit and parse_latest_commit), Refspec
--   (the booted ref and the one of a checkpoint), Check (check_for_update_*), Fetchers
--   (run_fetchers, get_latest_update) and Metadata (metadata_fetch_internal, poll_volume_internal).
-- Apply: eos-updater/apply.c, apply_internal. Fetch: eos-updater/fetch.c, check_scheduler;
--   Fetch.Content has content_fetch and the pulls, Fetch.Flatpaks what is pulled of flatpaks.
-- Transaction: libeos-updater-util/flatpak-util.c, the euu_flatpak_transaction functions, which fill the
--   interface Transactions of Fetch.Flatpaks.
-- Run: how the code of the worker threads runs, on a world that holds the repository, to a result.
-- AvahiService: libeos-updater-util/avahi-service-file.c, the options and their checks;
--   AvahiService.Records (the TXT records and their limit) and AvahiService.Files (generating).
-- Checkpoint: libeos-updater-util/checkpoint.c. Sysroot: libeos-updater-util/ostree-util.c.
-- Config: libeos-updater-util/config-util.c, values from layered key files.
--
-- How C is modelled. A gint32 is an integer that is wrapped after each subtraction; a guint64 sum
-- has its bound or its saturation written out. Objects that are compared by address carry a number
-- for it. An unsigned long has 64 bits. A file that holds a GVariant dictionary stands for that
-- dictionary. A hash table that is looked up is a function, one that is iterated is the list of its
-- entries. A failed assertion is `none` or the outcome `aborted`. Loops are recursions on lists, so
-- no fuel is needed; only the loop of fetch_latest_commit follows what a server says, and has the
-- number of its rounds as fuel, which is enough if it is more than the longest chain of
-- redirections. A worker is a task that is alive until its result is taken; what it does
-- meanwhile, on its own thread, is modelled apart, in Poll, Fetch and Apply.
--
-- Parameters: libflatpak (Libflatpak, and with the transactions Flatpak), libostree (Ostree,
-- System, Repo, Deployer), mogwai's download scheduler (Services), the Bloom filter (Bloom, copied
-- from libostree), GVariant's serialisation (Glib), GLib's sort (ArraySort), GDBus's encoding of
-- errors (Encoding), key files (KeyFile), the clock and the file system. A task whose cancellable
-- has been cancelled returns an error, as GTask documents for `check-cancellable`.
--
-- Not modelled: reading actions from JSON, deleting Avahi service files, the Bloom filter, the update
-- server, metrics and logging.
pub mod Prelude
pub mod Errors
pub mod Actions
pub mod Installer
pub mod Daemon
pub mod Autoupdater
pub mod AvahiService
pub mod Config
pub mod Run
pub mod Poll
pub mod Apply
pub mod Fetch
pub mod Transaction
pub mod Checkpoint
pub mod Sysroot
