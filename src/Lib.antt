-- ===== src/Lib.antt =====
-- A verification library for the Rust programs of this repository: NixOS containers under podman, the
-- services in them ("prisons"), and sandboxed desktop apps. The programs share no memory; they meet on
-- sockets, files, command lines and exit statuses.
--
-- Parts, and the modules that model them.
-- - ssh-agent-filter/src: a proxy between a client in a container and the owner's ssh agent.
--   Agent.Proto is proto.rs (Message::read is `read`, Reader's methods are `u32` and `string`);
--   Agent.Sha and Agent.Policy are policy.rs (`sha256`, `base64_nopad`, `glob`, Policy::new is
--   `new_policy`, `permits`, `permits_blob`); Agent.Serve is `serve` of lib.rs, one round of its loop
--   `handle`, over the two lists of messages written so far and the `known` list; Agent.Main is main.rs,
--   the socket and who connects while it is set up.
-- - prison-store-check/src: run before a service starts, it compares what the store daemons serve with
--   what the unit was built for. StoreCheck.Units has the unit names, StoreCheck.Argv the command lines,
--   StoreCheck.Decimal and StoreCheck.Utf8 the numbers and the decoding, StoreCheck.Check the skip counts,
--   `check` and `recheck` over a host, StoreCheck.System the host that asks systemctl and reads procfs, and
--   StoreCheck.Main is main.rs. A World holds the files of the counts and the commands given.
-- - nix-store-shared-fuse/src: the daemon that it looks at. StoreFs.Realize is realize.rs, StoreFs.Dirs the
--   interface of the capability directories, StoreFs.State is fs/mod.rs and backing.rs (`intern`,
--   `backing_get_or`), StoreFs.Nodes is fs/nodes.rs and StoreFs.Operations is fs/operations.rs and
--   fs/mutations.rs: `serve` answers one request of the kernel. StoreFs.Main is main.rs: `prepare` is `main`
--   up to the mount.
-- - nix/app/runner.rs: starts one entry of a sandboxed app from its plan. Runner.Plan has the plan and a line
--   of each section, Runner.Plan.Parse `parse_plan`; Runner.Template is `expand`, Runner.Wild `glob_match`,
--   Runner.Mounts the rules of the providers (`expand_rule`), `drop_duplicate_mounts` and `resolve`;
--   Runner.Holder and Runner.Lease are the claims on the network holder (`start_holder`, `acquire_lease`,
--   `release_lease`), Runner.Lease.Launches is any number of launches, of one app or of several, at once,
--   Runner.Signals is `relay` and `supervise`, and Runner.Launch what `run` prepares (`host_vars`,
--   `ensure_dir`, `resolve_podman`) and the arguments of podman. Runner.Session has the D-Bus proxy, `launch`, `run` and
--   `main`, which call what the others model.
-- - prison-start/src/main.rs, around the podman of a prison's service, and
--   nix/prison/user-manager-generator.rs, a generator of systemd: Prison.Start has the steps of `main` and
--   the handler between them, Prison.Users `account_uid`, `generate` and the changes of the disk.
-- Common holds lists, texts, numbers and results over the native numbers.
--
-- How code became definitions. A mutable object is a record, and a method returns the new one; `?` is the
-- bind of a do block. A `&str` is the list of its code points, an OsStr or a byte slice the list of its
-- bytes; a path is its components. A u32 keeps its range by `% 2 ^ 32` or a saturating `min`. A HashMap is
-- a function, or a list where its size matters. What the kernel, systemd, podman, the sockets and the
-- directories answer is a parameter of the definitions, never assumed to be well behaved unless a
-- hypothesis says so.
--
-- Fuel. `serve` of Agent.Serve gets one round more than the client's stream has bytes, and each request
-- takes at least four off it. The padding loop of sha256 gets 64 rounds, of which it uses fewer; the
-- decimal printer gets ten digits, which a u32 fits. `expand` gets one round more than its template has
-- characters, and each round takes at least two off it. The wait for the
-- socket of the D-Bus proxy has the 50 looks of the source. All other loops recur on a list.
--
-- Not modelled: the text of log lines and messages; the parsing of command lines by clap, and what
-- the kernel does with a mount; what a podman process still does whose runner was killed; threads, since
-- connections share nothing but the immutable policy; clocks, so a wait with a limit is one call, which
-- may be answered that it took too long; and the NixOS modules and shell scripts.
pub mod Common
pub mod Agent
pub mod StoreCheck
pub mod StoreFs
pub mod Runner
pub mod Prison
