-- ===== src/Lib.antt =====
-- A verification library for runtime-class-manager, the Kubernetes operator that installs containerd
-- shims on nodes and registers RuntimeClasses for them.
--
-- The program has two parts. The controller (internal/controller) watches resources of type Shim: for
-- every node that a shim selects it creates an install or an uninstall job, and it records on a label
-- of the node, named like the shim, how far the node is. The node installer (cmd/node-installer) runs
-- in these jobs: it copies shim binaries to the host, keeps a lock file of what is installed, edits
-- containerd's configuration, and restarts containerd.
--
-- The files:
-- - Base, Base/*: equality by Boolean tests, Go maps as association lists, lists by native numbers.
-- - Go/Outcome: calls that change a world and end with a value, an error or a panic; error values,
--   errors.Is, errors.Join and client.IgnoreNotFound.
-- - Go/Strings, Go/Paths, Go/Hex, Go/Json: what the program uses of strings, path, encoding/hex and
--   encoding/json, on byte lists. Go/Json/Quote, Wordy and RoundTrip: proofs about the
--   printer and the reader; Go/Json/Parse/Consuming, Settling, ByToken and Fuel: the fuel that the reader
--   needs. Go/Outcome/Laws: chains of calls and invariants of the world.
-- - Machine: the parameters of the node installer: the file systems of afero, os/exec, go-ps, kill and
--   the environment. Machine/Laws says what the proofs use of a file system, and Machine/Memory is a
--   file system in memory that meets these laws.
-- - State, State/Entry: internal/state (`Get`, `Write`, `ShimChanged`, `UpdateShim`, `RemoveShim` are
--   `get`, `write`, `shim_changed`, `update_shim`, `remove_shim`), with the JSON form of the lock file.
-- - Shim: internal/shim (`Install`, `Uninstall`).
-- - Containerd: internal/containerd/configure.go (`AddRuntime`, `RemoveRuntime`); Containerd/Restart:
--   restart_unix.go; Containerd/Dbus: install_dbus.go; Containerd/Entry, File and Choice are proofs.
-- - Preset: internal/preset; Preset/Setup is a proof. Installer, Installer/Flags, Installer/Detect: cmd/node-installer;
--   Installer/Binding: root.go (`initializeConfig`, `bindFlags`); Installer/Precedence and
--   Installer/Choosing are proofs. Installer/Process: the process of the installer, from its
--   flags to its exit status; Installer/Executing is a proof about it. Installer/Hosting, Running and
--   Refinement: `RunInstall` as updates of
--   the lock file's map and of containerd's configuration.
-- - Api: api/v1alpha1/shim_types.go.
-- - Controller/Objects, Artifact, Manifest, Deploy, Reconcile: internal/controller/shim_controller.go,
--   over a client of the API server that is a parameter. Controller/Job: job_controller.go.
-- - Controller/Log, Rollout, Order, Counts, Labels, Contract, Following, Selection, Names, Sending,
--   Updating, Branches, Removing, Finalizer, Marking, Lifecycle, Surviving: proofs about the controller.
--   Controller/Frame, Frame/Local, Frame/Follow: what both reconcilers keep, whatever the client does;
--   Controller/Isolation: a step relation for reconciliations of several shims on one cluster.
-- - Controller/Setup: `SetupWithManager` of both reconcilers. Rcm: cmd/rcm/main.go, where the manager
--   is put together; Rcm/Starting is a proof about it.
-- - State/Laws, State/RoundTrip, State/Reading and Shim/Removal: proofs about the installer. State/Store and
--   State/Disk: the lock file as a finite map. Shim/Recording, Installation and Uninstallation:
--   Install and Uninstall as updates of that map; Shim/Runs: a step relation for their sequences.
--
-- How the code is read:
-- - A string is its list of bytes. EqualFold and the keys that JSON folds are compared as ASCII does;
--   JSON escapes of surrogates become U+FFFD, and the printer passes bytes from 128 up through.
-- - A Go map is an association list whose order stands for the order of the loop. Where the program
--   ranges over a map, the list is an argument (`Locations`, the runtime options).
-- - A method is a function from the world to an outcome and a world. Deferred calls, errors that are
--   dropped and panics (a write into a nil map, a nil pointer) are written out. An open file is named
--   by its path, since the program renames none.
-- - Logging is left out, and the texts of some error messages are shorter; which error is returned, and
--   what it wraps, is kept.
-- - The reader of JSON takes fuel for its nesting, the length of the text and one more. A call of the
--   reader needs no more fuel than the bytes that it takes off the text, so this is enough
--   (Go/Json/Parse/Fuel).
-- - A time to live is read as by ParseInt with 32 bits: from 1 to 2 ^ 31 - 1, or it is ignored.
--
-- Not modelled: the loggers and their flags; how cobra reads arguments; generated code; the stub of
-- restarts on Windows; status conditions, which the code never sets. sha256, afero, os/exec, go-ps, pflag, viper and the
-- Kubernetes client are parameters.
pub mod Base
pub mod Go
pub mod Machine
pub mod State
pub mod Shim
pub mod Containerd
pub mod Preset
pub mod Installer
pub mod Api
pub mod Controller
pub mod Rcm
