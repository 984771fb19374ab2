-- ===== src/Lib.antt =====
-- The core of the rind init daemon: the shared-memory channel between its processes, its users and
-- their permissions, logins, scopes, variables, the snapshots of its state, the graph of facets
-- that follow each other, and the services that it starts, watches and stops.
--
-- Parts and files, with the code that each models:
-- - Shm.antt (crates/ipc/src/shm.rs): ShmRingBuffer with write, read, copy_at and read_at. The
--   header's words are fields of a record, the mapped memory is a function from addresses to
--   bytes. Shm/Circular and Shm/Copy relate the copies to a circular store, Shm/Queue is the
--   specification, a queue of messages, Shm/Refine the refinement, Shm/Bounds the addresses
--   written, Shm/Stream is ShmStream.
-- - Users.antt (crates/core/src/user.rs): UserStore and its lookups. Users/Parse is the parsers of
--   lines, Users/Load is load, Users/Perms is write_perms_with_overlay, Users/Codec,
--   Users/Effective and Users/Reload relate the permission file to what is read from it.
-- - Pam.antt (crates/core/src/user.rs, from PamError on): PamHandle. Pam/Lockout and Pam/Sessions
--   hold its theorems.
-- - Permissions.antt (crates/core/src/permissions.rs): PermissionStore, which holds a UserStore
--   and an overlay of grants and revocations. Permissions/Check is user_has and group_has,
--   Permissions/Expr is eval_expr and user_check, Permissions/Listing is all, Permissions/Ipc and
--   Permissions/Handlers are the message handlers of crates/primitives/src/permissions.rs.
--   Permissions/Semantics and Permissions/UserSemantics say which permissions a group and a user
--   have, as derivations; Permissions/Termination, Permissions/Grants and
--   Permissions/Listing/Shown hold the theorems.
-- - Scopes.antt (crates/primitives/src/scopes.rs): ScopeStore; Scopes/Index is its index by state.
-- - Variables.antt (crates/primitives/src/variables.rs): VariableHeap; Variables/Saving its
--   theorems.
-- - Persistence.antt (crates/core/src/persistence.rs): the snapshots; Persistence/Saves its
--   theorems.
-- - ScopedNames.antt (crates/core/src/utils.rs): names such as `rind:active@alice`.
-- - Triggers.antt (crates/flow/src/triggers.rs): flow names, branch keys and the objects of
--   payloads; Triggers/Branches its theorem. Json.antt holds the values that payloads are made of
--   with subset_match and json_subset; Json/Mem, Json/Subset and Json/Reflexive their laws.
--   Matching.antt is the matching of conditions and payloads, Matching/Filters its theorems.
-- - Dispatch.antt (crates/flow/src/triggers.rs): trigger_events, which resolves the payloads of
--   triggers against the facets and chooses what they start; Dispatch/Specs its theorem.
-- - Payload.antt (crates/ipc/src/ipc.rs): FlowPayload; Payload/Fields its theorem.
-- - Facets.antt (crates/flow/src/flow.rs): FacetGraph, which is saved through Persistence by the
--   scopes of the facets' names. Facets/Scopes, Facets/Saving and Facets/Restored hold its
--   theorems.
-- - Flow.antt (crates/flow/src/flow.rs): FlowRuntime, on the facets, a guard, the events and what
--   is sent. Flow/Payloads makes the payloads of facets that follow others, Flow/Entry is the
--   branches of one facet (Entry/Keys what the branch keys are, Entry/Merged the fields of a merged
--   object, Entry/Placed where a payload comes among the branches), Flow/Reconcile is
--   reconcile_transcendence and
--   reconcile_inverse_transcendence_for_source, Flow/Run is set_facet and remove_facet, which the
--   reconciliation calls through a Request. Flow/Run/Keeps says which properties of facets are
--   kept, Flow/Run/Fits is the invariant, Flow/Run/Ends, Flow/Run/Parts and
--   Flow/Run/Termination show that the calls end and what they leave as it was, Flow/Run/Effects
--   holds what they come to. Flow/Index is the rebuilding of the indexes, Flow/Impulses the
--   conditions and impulses, Flow/Actions the actions of the runtime, whose theorem is in
--   Flow/Actions/Kept.
-- - Services.antt (crates/services/src/services.rs): what a service is configured with and
--   ServiceRuntime. Services/Instances is ChildInstanceGroup; Services/Isolation is isolation_for
--   with the attributes of the scope (Isolation/Merged its theorem) and Isolation/Paths
--   cgroup_path_for; Services/Branching is check_branch_match and the loop of evaluate_triggers
--   over the branches (Branching/Chosen its theorem, Branching/Wanted what the guards mean);
--   Services/Accounts is resolve_service_user (Accounts/Resolved and Accounts/First); Services/Stopping is stop_service and timeout_sweep
--   (Stopping/Marked and Stopping/Swept); Services/Exits is child_exited (Exits/Restarts);
--   Services/Starting is spawn_all, start_service and start; Services/Runs is the step relation
--   of exits, starts and stops, and Runs/Fresh, Runs/Retries, Runs/Phantom and Runs/Stuck what
--   holds along it; Services/Order is start_all (Order/Resolved its theorem).
--   Services/Triggering is the trigger index, the conditions of evaluate_triggers and
--   reconcile_stacks; Triggering/Targets is the loop of evaluate_triggers and Triggering/Evaluate
--   the whole of it, over the instances of Registry/Instances (Triggering/Index, Triggering/Starts
--   and Triggering/Running their theorems, Triggering/Ends when a service is stopped, Triggering/Contexts what the branches are);
--   Services/Timers (crates/services/src/timers.rs) is parse_duration (Timers/Bounds) and
--   reconcile_timers.
--   Services/Requests is handle_ipc_start and handle_ipc_stop up to the actions that they dispatch
--   (Requests/Managers and Requests/Allowed their theorem); Services/Stops is stop, stop_all and
--   stop_for_scope (Stops/Left its theorem).
-- - Registry.antt (crates/core/src/registry.rs): MetadataRegistry for the declarations of one
--   type; Registry/Found its theorem. Registry/Instances is InstanceRegistry (Instances/Once its
--   theorem), and Instances/Handles singleton_handle (Handles/Missing and Handles/Kept).
-- - Text.antt, Bytes.antt, Map.antt, Set.antt, Error.antt and Prelude.antt hold what the parts
--   share. Examples.antt applies the theorems to concrete inputs.
--
-- State is passed explicitly: an operation takes the record of its component and returns the new
-- one beside its result. Numbers are natural numbers; where the code's u16, u32 or u64 wraps, the
-- wrap is written out, and a theorem states the range it needs. A HashMap is a list of entries
-- with one for a key. Files, the clock, the environment and the success of system calls are
-- arguments.
--
-- Fuel: user_has and group_has recurse along the links, which may have cycles, and take fuel; more
-- than the rank of the permission is enough where a rank falls along each link. read_perms takes
-- the length of the file, since a record takes bytes. ShmStream.read drains the ring in as many
-- rounds as the ring has bytes, since a message takes four at least. Flow.Run.run takes fuel for
-- the calls of set_facet and remove_facet inside of each other; more than the number of the facet
-- is enough where a number falls along both indexes. Services.Order.rounds takes more fuel than
-- services are pending, since a round that makes progress takes one away. trim_ends takes the
-- length of the text, since each round takes a part off.
--
-- Parameters: the password checks of sha_crypt and yescrypt (Pam.Crypt), bincode and crc32fast
-- (Persistence.Libraries, Facets.EntryCodec), toml (Variables.Toml, Flow.Payloads.TomlJson), the
-- printer and parser of serde_json (Payload.JsonCodec), the casts of Box<dyn Any>
-- (Registry.Instances.Boxed), and what an executor launches (Services.Runs.Outside). What the theorems rely on of them is the
-- record IsSound of Persistence and of Variables, Reads of Payload and Decodes of Facets/Restored.
--
-- Not modelled: the sockets and mappings that set the channel up, the locks, which one call holds
-- at a time, the transports of crates/flow; of the service manager the system calls that make a
-- process, its pipes and transports, and the watchdog timers; the sockets of services, the loader
-- of unit files of systemd, networking, plugins, the command line and the build tools.
pub mod Prelude
pub mod Map
pub mod Set
pub mod Text
pub mod Bytes
pub mod Shm
pub mod Error
pub mod Users
pub mod Permissions
pub mod Scopes
pub mod Examples
pub mod Pam
pub mod Persistence
pub mod Variables
pub mod ScopedNames
pub mod Triggers
pub mod Json
pub mod Payload
pub mod Matching
pub mod Facets
pub mod Flow
pub mod Dispatch
pub mod Services
pub mod Registry
