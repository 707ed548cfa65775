-- ===== src/Lib.antt =====
-- The HBase operator for Kubernetes (operator/): three controllers that bring the objects of an
-- HBase cluster, of a tenant and of a standalone instance to the state that a custom resource asks
-- for.
--
-- Parts, and where they are modelled:
-- - Api: the specs of the custom resources (operator/api/v1/hbasecluster_types.go,
--   hbasetenant_types.go and hbasestandalone_types.go). A Go field is a record field of the same name
--   in lower case with underscores; a map that may be nil is a `GoMap`, an integer a `ℤ`.
-- - Kube: the Kubernetes objects that the operator builds, with the fields that it sets or reads.
-- - GoMap: Go maps as lists of entries, of which the first with a key counts.
-- - Env: what the operator calls and does not implement: the API server behind client.Client, the
--   clock, JSON, XML, SHA-256, quantities and SetControllerReference. An answer of the server may
--   depend on all calls before it, so an `Env` stands for any server, other clients and failures
--   included.
-- - Action: the state that a reconciler works on (the package variable hashStore, and the calls made
--   so far, the latest first) and actions on it, which end with a value or a panic. `◌or_return◌` is
--   the operator's `if (ctrl.Result{}) != result || err != nil { return result, err }`.
-- - Build: the build functions and the label maps of operator/controllers/utils.go, one module each.
--   Where a Go function writes into a map of its caller, the map as it stands afterwards is a
--   definition of its own (`deployment_after`).
-- - Reconcile: validateConfiguration, publishEvent, the annotations that carry a config version,
--   and reconcileConfigMap, reconcileService, reconcileStatefulSet and reconcilePodDisruptionBudget
--   of the same file. Each is a Get followed by `settle_…` on its answer.
-- - Controllers: the Reconcile methods of operator/controllers/hbasecluster_controller.go,
--   hbasetenant_controller.go and hbasestandalone_controller.go. The steps they share are in Steps.
--   Contract is the interface between facts on single objects and facts on whole runs: a relation
--   that holds of each part and is closed under running one after another. Whole carries it over to
--   the methods, and OneChange, Honest and Ready/Growth fill it. Calls counts the calls of the client,
--   as a number that adds up over `◌or_return◌`. CarryOver follows the config version to the server
--   and back.
-- - Controllers/Progress and Controllers/Converges: requests that are served again and again, as the
--   controller runtime does when a method asks for it or fails (`serve_until`). `IsCooperative` is a
--   server that answers as it was told and has no other clients, `IsFeasible` what the custom
--   resource has to satisfy, and `left` the measure that each request lowers. The bound on the
--   requests, two for each object, one for each call until the rollouts are over, and one, is enough
--   because every request that does not succeed creates or updates one of the objects or waits for a
--   rollout.
-- - Watch: the namespaces that the operator watches (operator/main.go, getWatchNamespaces and
--   convertToNamespaceMap). What the controller runtime watches for such a map is a parameter that
--   has its documented behaviour (`FollowsKeys`).
-- - Startup: main of the same file, the SetupWithManager methods of the three controllers and
--   operator/controllers/controller_options.go, as calls of the controller runtime, which may refuse
--   each of them.
-- - Concurrent: the four reconcile functions as programs of single steps (one call of the client, one
--   use of the hash store), and schedules that interleave the steps of several of them. A single
--   reading or writing of the hash store is taken to be one step; Go ends the program where two
--   happen at once, of which one writes.
-- - Examples: a concrete world, and the theorems and tests in it.
--
-- Loops are structural recursion, on the lists that the Go code ranges over; the loop over the pods of a
-- deployment runs on `rounds d.size`, the number of its turns, so nothing runs out of fuel.
--
-- Not modelled: logging, but for that of main; what the controller runtime does with a manager and
-- with the parsing of flags; getPodNames, which nothing uses; generated deep copies; Helm charts
-- and the Java rack utilities. Outside Concurrent, requests are served one after another, whereas
-- the controller runtime may run several at once; Concurrent has the four reconcile functions, not
-- whole requests. Go's random order of iteration over a map is the order of its entries; JSON and
-- %v are functions of the object alone. The client writes the server's answer back into the object
-- that it sends: that is kept for config maps, where the standalone controller reads it.
-- Quantities are texts that parse or do not. The integers of the specs are only compared and
-- copied, but for the count of an event, which wraps as an int32, and the port of a probe, which
-- is cut to one.
mod Prelude
pub mod GoMap
pub mod Api
pub mod Kube
pub mod Env
pub mod Action
pub mod Build
pub mod Reconcile
pub mod Controllers
pub mod Watch
pub mod Concurrent
pub mod Startup
mod Examples
