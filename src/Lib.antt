-- ===== src/Lib.antt =====
-- Vakt OS: a verification library for the Rust part of the system.
--
-- The system boots from one of two slots. vakt-init is PID 1: it supervises the services, hears from
-- them over a socket, and decides at each boot whether a freshly updated slot still has a boot left
-- or the system goes back to slot A. vakt-update stages an update and names the slot to boot in the
-- environment block that GRUB reads. zrpkg (pkg-manager) installs packages and their dependencies.
--
-- Base holds what the parts share: texts (a `str` is the list of its characters), UTF-8, the methods
-- of `str` that the source uses, maps and sets as lists, sorting, results, and lemmas about them.
--
-- Grub is vakt-update/src/envblock.rs, of which vakt-init/src/envblock.rs is a copy: `block` is what
-- `write` puts into the file, `write` the whole function over a file and its temporary, `parse` is
-- `read`. Each call of the file system may fail, as `Faults` says.
--   Grub/RoundTrip relates the two, Grub/Atomic says what a failure leaves.
--
-- Init is vakt-init.
--   Init/Control is `Control` and `Shared` of vakt-init/src/services.rs; each method holds the lock from
--   beginning to end, so it is a function of the shared state, and a wait takes the states that it finds
--   when it wakes up. Init/Control/Ready is about its readiness.
--   Init/Supervisor is `Managed` and `Supervisor` of the same file: `start`, `reap` and `start_all`. What
--   the kernel answers (whether a program starts, what `try_wait` says, the time) is a parameter of each
--   step. Init/Supervisor/Restart and Init/Supervisor/Pass are one service and one pass over all;
--   Init/Supervision is the system's life as a step relation, in which passes, notifications and requests
--   to stop come in any order, and Init/Supervision/Launch starts it; Init/CrashLoop follows one service through pass after pass.
--   Init/Stop is `stop_all`; its wait takes the passes that fit before the deadline. Init/Stop/Calls is what it asks of
--   the kernel. The removal of a PID file may fail, and the code goes on; so does the model.
--   Init/LogFile is vakt-init/src/logfile.rs: the log of a service in two files, and the loop that drains the
--   service's pipe into it. Init/LogFile/Bounds is about how long the files become.
--   Init/Notify is `parse` of vakt-init/src/notify.rs: what a datagram on the socket says.
--   Init/Status is `write_status` of vakt-init/src/services.rs: the file that the panel reads.
--   Init/Shutdown is vakt-init/src/shutdown.rs with `watch_notifications` of vakt-init/src/main.rs: what asks for
--   a shutdown (Init/Shutdown/Requests), and how the system goes down, step by step (Init/Shutdown/Order) and once
--   (Init/Shutdown/Once). Init/Privilege is vakt-init/src/privilege.rs: the account
--   of the panel and `become_user`, over an interface for the system calls.
--   Init/Mount is the search for the data disk of vakt-init/src/mount.rs.
--   Init/Rollback is vakt-init/src/update.rs: the boot budget of slot B, over the state file and GRUB's
--   block. Init/Rollback/Budget spends it, Init/Rollback/Return is the way back to slot A.
--
-- Pkg is pkg-manager.
--   Pkg/Resolve is pkg-manager/src/resolve.rs: `install_order` and `undiscovered`. The walk recurses on
--   fuel; one level more than there are manifests is enough, since it never visits a package within
--   itself. The search's fuel is the number of names that it can ever push, and one.
--   Pkg/Collect is `fetch_manifest`, `collect_manifests` and the first half of `install` of
--   pkg-manager/src/install.rs; the repository is the parameter `published`.
--   Pkg/Paths is `safe_relative` and `safe_target` of pkg-manager/src/remove.rs, over `Path::components` of
--   the standard library; Pkg/Remove is the rest of that file, with `get`, `dependents` and `forget` of
--   pkg-manager/src/db.rs. The file system below the install root is a map from paths to nodes, in which
--   no directory on the way to a path is a symbolic link. Pkg/Remove/Kept and Pkg/Remove/Gone are what
--   stays and what goes, Pkg/Remove/Record is about the file of the record, which is one of those nodes, and
--   Pkg/Remove/Whole is the function as a whole.
--   Pkg/Config is pkg-manager/src/config.rs: where the repository is.
-- Update is vakt-update/src/main.rs. Update/Action is the disk and its steps, which may fail and keep what
-- they changed; Update/Bundle and Update/Apply are `apply`, with `trusted_public_key` and `unpack_safely`;
-- `Calls` says which call of the file system fails and what it leaves. Update/Staged says what each step
-- ensures, Update/Staged/Whole joins them. Update/Cycle puts `apply`, the boots and the confirmations of
-- vakt-init, and GRUB's choice of a slot (which is in build.sh) on one disk; Update/Cycle/Refines relates
-- it to the plan that an operator has in mind. Pkg/Fetch is `verify_signature` of pkg-manager/src/fetch.rs.
--
-- Net is vakt-net. Net/Config is vakt-net/src/config.rs, Net/Link is vakt-net/src/link.rs, and the others are
-- vakt-net/src/main.rs: Net/Supplicant writes wpa_supplicant's configuration, Net/Poll is the two loops that
-- wait for an answer, Net/Connect brings the network up over what the kernel and the programs answer, and
-- Net/Daemon is the loop of `main`. Net/Connect/Up goes with `connect` until the link is up, and its children
-- until there is an address. The polls have one unit of fuel for every millisecond, and
-- `wait_for_config_change` one for every second, of their timeouts, which is more than they need.
-- Net/Scan is vakt-net/src/scan.rs.
-- The tests, and the runs that show the hypotheses of the results to hold somewhere, are in the modules
-- named Tests.
--
-- Not modelled: the log lines that are only printed; the system calls, HTTP, hashing, signatures and
-- serde_json, which are parameters where a result depends on them; overflow of counters, which the
-- release build checks; the fixed mounts, what the updater only prints, the sandbox of the network daemon, the
-- compositor, and the parts of the system that are not written in Rust.
pub mod Base
pub mod Grub
pub mod Init
pub mod Pkg
pub mod Update
pub mod Net
