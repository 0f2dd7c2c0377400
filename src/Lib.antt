-- ===== src/Lib.antt =====
-- A model of the simplek8s controller: the reboot feature and the update feature of a Kubernetes cluster,
-- the annotations that hold their state, the leader election that says which pod decides, and the
-- configuration with its schedules.
--
-- The program runs as one pod on each node. Every cycle a pod syncs the leader lease; the leader
-- runs the orchestrator, which manages the lifecycle of each node (requested, draining, rebooting,
-- completed, failed) and admits at most one node from the queue; every pod runs the local executor
-- of its own node, which starts the reboot command, and the update feature's cycle of its own node:
-- that checks the repository for a release, stages it on the boot partition, moves the goal of the
-- node to it, makes the boot loader follow the goal, and enqueues the node for a reboot. The leader
-- verifies the goals of all nodes. Before each cycle the engine reads the configuration, with its
-- windows of time. All state is in annotations of the nodes, and is changed only by patches that
-- are conditional on the node's resource version.
--
-- Where each part is modelled:
--   Prelude, Stdlib   shared names; Go strings that may hold a time, and JSON documents
--   Kube              internal/kube/types.go, client.go: objects, selectors, errors; Kube.Server is the
--                     node store of internal/kubetest/fakeapi.go, with the writes of other clients
--   Nodestate         internal/nodestate/state.go, update.go: Parse (State), the values (Values), the patch
--                     builders (Patch), PatchTransition (Transition), the update builders (Update)
--   Reboot.Pods, Pdb, Drain   internal/features/reboot/pdb.go, drain.go: pdbBlocked, runDrain, denyBackoff
--   Reboot.Queue, World, Manage, Admission, Cycle   internal/features/reboot/orchestrator.go, reboot.go:
--                     buildViews, admissionCounts, sortQueue, transition, manageNode, the admission loop,
--                     runOrchestrator
--   Reboot.Local      internal/features/reboot/local.go: runLocal, guardedExecPatch, issueReboot
--   Engine.Lease      internal/engine/lease.go: Sync, classify, belief, Leader, VerifyOwnership, on the
--                     Lease object of Engine.Lease.Store
--   Engine.Cycle      internal/engine/engine.go: Cycle, for any tasks and functions on a state of theirs
--   Cron              internal/cron/cron.go: lastOccurrenceAtOrBefore, WindowsOpen, NewestOccurrence, on the
--                     dates of Cron.Calendar. Cron.Parse: Parse, parseAt, parseField, parseValue of the same file
--   Config            internal/config/config.go: Parse and the parsers of the values; and loadConfig of
--                     internal/engine/engine.go
--   Updatecore        internal/updatecore/versions.go, index.go, and the names of staging.go: releases and
--                     flavors (Versions), ParseIndex (Index); Store has the interfaces BootStore and Bootloader
--   Updatecore.Purge, Partition   internal/updatecore/purge.go, staging.go, bootstore.go: planPurge; stagePartition,
--                     purgeAndPrune and the PhysicalStore, which is a BootStore
--   Updatecore.Bootloader   internal/updatecore/bootloader.go: the default and the prune of grub, syslinux and
--                     Raspberry Pi configurations, which together are a Bootloader
--   Update            internal/features/update: RunLocal (Cycle), maybeStage (Stage), reconcileBootloader
--                     (Reconcile), maybeEnqueue (Enqueue), Check and doCheck (Check), flavorOf (Flavor), the
--                     leader's Run (Verify), on the state of World. Update.Steps is an abstract pod
--   Api               internal/api/api.go: admit and its loop, reRequestable, deleteReboot
--   Examples          concrete clusters and runs
-- In each of these a Go function has the name of the source in snake case, and its struct a record with
-- the source's fields.
--
-- How the code is represented:
--   * A time is the number of nanoseconds since 1970, and the zero time is `none`. RFC 3339 texts keep
--     whole seconds, and the MicroTime of a lease whole microseconds, as the source's formats do.
--   * An annotation is a text or a JSON tree; keys are distinct and compared exactly.
--   * Shared state is passed explicitly (World). What the program cannot decide is an environment: for each
--     attempt of a patch the fault of the read, the writes of other clients between the read and the
--     patch (`interference` of Nodestate.Transition.Atomic lists these, round by round), and whether the
--     request is served, dropped, or served with its reply lost; for each clock
--     read its time, for each check of the lease its answer, for each pod call its reply.
--   * Loops over lists are structural. PatchTransition recurses on the attempts left, which it is called
--     with, so no fuel is added; denyBackoff recurses on the doublings left.
--   * The search for an occurrence recurses on the days of the source's horizon; it stops before 1970. The year
--     of a day is found in n / 365 steps, since no year is shorter.
--   * The attempts of one patch read the clock once. `uncordon` is a run of PatchTransition, whose loop it
--     repeats. In the admission loop the slot test reads what the gates read, since an admission ends it.
--   * What is no code of the repository is an argument: parse_duration, parse_url and string_list for
--     time.ParseDuration, url.Parse and json.Unmarshal; BootStore for the boot store; the environment of the
--     update feature for fetches, signatures and random numbers.
--   * An int of 64 bits is its pattern, and adds modulo 2 ^ 64. The loop over the values of a range has 200
--     rounds: a range has below 60 values, and a step so large that the value overflows lowers it every two
--     rounds.
--     `wrapped` is a schedule with a negative number in it, which is not evaluated further; a configuration
--     that would hold one has no result.
--   * The boot partition is its kernel directory and its configurations' texts; what fails on it, and the space
--     that is free, are answers of a host. sort.Slice is any function on lists there.
--   * The update feature's store is always there; the sums of an index and the nodes are taken in the order
--     of their lists, and the maps of the source are association lists.
--   * A panic of a selector is `none`. In the guards of the executor a nil record refuses the write.
--
-- Not modelled: logs and the messages of events; texts of errors, which enter as arguments; the HTTP
-- client and its retries; mutexes (one cycle is one sequence of steps); the authentication and the rendering
-- of the HTTP API; the download of an index and of a release; the boot device's discovery, mounts and locks;
-- the paths of a staging that only the command line takes; and cmd.
pub mod Prelude
pub mod Stdlib
pub mod Kube
pub mod Nodestate
pub mod Reboot
pub mod Engine
pub mod Cron
pub mod Examples
pub mod Api
pub mod Config
pub mod Update
pub mod Updatecore
