-- ===== src/Lib.antt =====
-- The Hydra infrastructure provider of Cluster API: it turns Kubernetes objects into machines on
-- libvirt hypervisors, and back.
--
-- The parts and how they interact. The manager (cmd/main.go) runs one controller per kind of
-- object (internal/controller). A reconcile of a HydraMachine finds the Cluster API objects
-- around it (clusterapi.go), decides which hypervisor the machine lives on (hypervisor.go and
-- placementFor), obtains a connection to it from the pool (internal/providers/pool.go), and calls
-- the backend behind the interface MachineProvider (internal/providers/provider.go), whose
-- implementation is internal/providers/libvirt. What it observed goes into the status of the
-- object.
--
-- Which file models which part.
--   Base, Base/*: shared names; Boolean tests and the interface Eq, lists, byte strings, maps
--     with distinct keys (Dict), and actions that change a state and may fail (Exec), with the
--     rules for invariants (Keeps), for what holds afterwards (Triple) and for what a result is
--     like (Exec/Yields); Base/Paths is the cleaning of file paths.
--   Providers/Errors: the sentinel errors of provider.go, the waits of internal/controller, and
--     ClassifyOutcome of instrumented.go.
--   Providers/Instrumented: the decorator of instrumented.go over any MachineProvider.
--   Providers/Identity: the data of provider.go, the interface MachineProvider as a record over a
--     backend's state, ProviderID and ParseProviderID. Identity/Format is about the text of a
--     providerID.
--   Providers/Fake: the backend of internal/providers/fake/fake.go, with the contract of Create
--     in Fake/Contract.
--   Providers/Libvirt: the backend of internal/providers/libvirt. Libvirt/Documents holds the
--     documents of xml.go as the values that encoding/xml gives, with the root ports of a domain;
--     Libvirt/Uuids and Libvirt/Subnets the text of a UUID and of an IPv4 network. Libvirt/Client
--     is the interface client of libvirt.go as one function over a host's state, with the journal
--     of the calls made (Client/Journal). Domains, Volumes, Networks, Deleting, Creating and
--     Backend are the operations of libvirt.go. Orders and its children say in which order an
--     operation may make which calls and prove that each does, Orders/Sweeps, Leftovers,
--     Reclaims, Paths, Drops, Rollback, Undefined and Usable what holds when an operation ends.
--     Libvirt/Transport and Libvirt/Connection are the tracking dialer of transport.go and how
--     libvirt.go connects again: callers, the attempt in flight and its dial interleave as
--     events, with the invariant in Connection/Sockets, Waiters, Soundness and Reachable, and
--     what a closed provider no longer does in Connection/Closing. Libvirt/Daemon is a small host
--     to run the operations on.
--   Providers/Pool: the state of pool.go and the functions that run under its mutex; Pool/Calls
--     has each locked section of get, ensureOpen, Release and CloseAll; Pool/Flights lets any
--     number of calls interleave between their sections, as steps on a system. The invariants are
--     in Pool/Ownership, Binding, Evolution, Soundness, Reserving, Installing, Releasing,
--     Launching, Finishing, Stepping, Reachable, Labels, Accounting and Accounts, what follows
--     from them in Pool/Properties.
--   Controller/Objects: the fields of the API objects that are read or written. Controller/World:
--     the reconciler's copy of the object, the stored object, the backend and the log of calls.
--     Controller/Linkage: clusterapi.go. Controller/Hypervisors: hypervisor.go.
--     Controller/Naming, Placement, Spec and Status: the helpers of hydramachine_controller.go.
--     Controller/Endpoint: the control-plane endpoint of hydracluster_controller.go, derived from
--     a managed network and validated against it, with what relates the two in Endpoint/Derived.
--     Controller/Clusters: hydracluster_controller.go, with the state of one reconcile in
--     Clusters/World, the check of the hypervisor and the census of the machines on it in
--     Clusters/Confirming and the writes of the status in Clusters/Recording; Clusters/Earned,
--     Steps and Readiness show which steps come before a report of readiness.
--     Controller/Templates: hydramachinetemplate_controller.go, with the comparison of capacities
--     in Templates/Sizes, what a reconcile has told in Templates/Telling, Settling and
--     Advertising, and the watch of Clusters in Templates/Watching. Controller/Machines:
--     ensureMachine, reconcileNormal, reconcileDelete and Reconcile, as actions; what they keep
--     is in Machines/Stable and Machines/Kept, what they guarantee in Machines/Records, Targets,
--     Teardown, Gate, Provision, Reports and Retry, and in Controller/Addresses, Naming/Bounds,
--     Naming/Distinct and Placement/Connection.
--
-- How state and operations correspond. A Go string is the list of its bytes in the controllers
-- and the providerID, and an opaque native string in the pool. A method that changes an object is
-- an action: a function from the state before to a result and the state after, so that what was
-- changed before an error stays changed. A patch is the change that it makes: to the reconciler's
-- copy in any case, to the stored object if the API server accepts it. Whether it does is a
-- parameter that may depend on every call made before, so a theorem holds for any pattern of
-- failures. An answer of libvirtd is a parameter that may depend on the whole state of the host,
-- and a call may also find its context ended. Reads of the API server, the backend, the
-- connection holder, SHA-256 and the parsing of certificates are parameters. The reads of one
-- reconcile answer from one snapshot. net.SplitHostPort, net.JoinHostPort, strconv.Atoi,
-- strings.Cut and the trimming functions are written out.
--
-- Bounds and fuel. Every loop is structural on a list, except that the decimal digits of the in-
-- memory backend run on fuel: one more than the number, of which Fake/Digits shows that it is
-- enough. Counters are unbounded numbers, and sizes are the numbers that the API server has
-- validated. The cap of 32 addresses and of 16 labelled hypervisors are the source's.
--
-- Not modelled: messages and log lines, transition times of conditions, metrics other than that a
-- failure or a wait is counted, watches and requeue intervals (only which of the two is chosen),
-- the redaction of credentials, sockets, TLS, SSH and timers of the libvirt backend, the routing
-- test of an address, the text of its XML documents, the cloud-init image and the manager's
-- flags. Networks of the libvirt backend are those of IPv4. Generated deep copies, scripts,
-- manifests and tests are outside the model.
pub mod Base
pub mod Providers
pub mod Controller
