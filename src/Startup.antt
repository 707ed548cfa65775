-- ===== src/Startup.antt =====
-- operator/main.go: what `main` asks of the controller runtime, and operator/controllers/
-- controller_options.go. Parsing flags and answering the calls are the libraries'.
pub mod Order
pub mod Serving
use hbase_k8s_operator.Prelude.{
  String, ◌⧺◌, ℕ, ℤ, pos, Bool, false, Option, none, some, List, [], ◌∷◌,
}
use hbase_k8s_operator.GoMap.{Map}
use hbase_k8s_operator.Api.{NamespacedName}
use hbase_k8s_operator.Kube.{Kind}
use hbase_k8s_operator.Env.{Env, Error}
use hbase_k8s_operator.Action.{Action, Reply}
use hbase_k8s_operator.Controllers.Cluster.{reconcile_cluster}
use hbase_k8s_operator.Controllers.Tenant.{reconcile_tenant}
use hbase_k8s_operator.Controllers.Standalone.{reconcile_standalone}
use hbase_k8s_operator.Watch.{Shell, get_watch_namespaces, convert_to_namespace_map}

pub record Flags : Type 0 where
  pub metrics_addr : String
  pub probe_addr : String
  pub enable_leader_election : Bool
  pub max_reconcilers_tenant : ℤ

abbrev pub default_flags : Flags
default_flags = record {
  metrics_addr = ":8080";
  probe_addr = ":8081";
  enable_leader_election = false;
  max_reconcilers_tenant = pos 3;
}

-- ctrl.Options, with the fields that main sets; the scheme is left out.
pub record ManagerOptions : Type 0 where
  pub metrics_bind_address : String
  pub webhook_port : ℕ
  pub health_probe_bind_address : String
  pub leader_election : Bool
  pub leader_election_id : String
  pub default_namespaces : Map (Unit {0})

pub record Options : Type 0 where
  pub max_concurrent_reconciles : ℤ

-- What a builder of the controller runtime is given before Complete(r). Where WithOptions is not
-- called, the options are Go's zero value.
pub record Registration : Type 0 where
  pub options : Options
  pub for_kind : Kind
  pub owns : List Kind
  pub reconciler : Env → NamespacedName → Action Reply

-- The calls that can fail.
pub data Setup : Type 0 where
  get_config run_manager : Setup
  new_manager : ManagerOptions → Setup
  complete : Registration → Setup
  add_healthz_check add_readyz_check : String → Setup

-- The answer to a call, given the calls before it, the latest first.
abbrev pub Runtime : Type 0
Runtime = List Setup → Setup → Option Error

-- What is logged, without the keys and values after the message.
pub data LogEntry : Type 0 where
  info : String → LogEntry
  error : Error → String → LogEntry

pub record Boot : Type 0 where
  pub calls : List Setup
  pub log : List LogEntry

-- What is left of main, which ends with an exit code.
abbrev pub Rest : Type 0
Rest = Boot → ℕ × Boot

-- return, and os.Exit(1) after an error is logged
abbrev pub return : Rest
return b = (0, b)

abbrev pub exit_after : Error → String → Rest
exit_after e message b = (1, record b { log = error e message ∷ b.log })

-- setupLog.Info
abbrev pub log_info : String → Rest → Rest
log_info message next b = next (record b { log = info message ∷ b.log })

abbrev pub branch : Option Error → (Error → Rest) → Rest → Rest
branch none fail next b = next b
branch (some e) fail next b = fail e b

-- if err := call; err != nil { fail }
abbrev pub check : Runtime → Setup → (Error → Rest) → Rest → Rest
check runtime c fail next b =
    branch (runtime b.calls c) fail next (record b { calls = c ∷ b.calls })

-- if err := call; err != nil { setupLog.Error(err, message); os.Exit(1) }
abbrev pub or_exit : Runtime → Setup → String → Rest → Rest
or_exit runtime c message next = check runtime c (λ e. exit_after e message) next

-- GetConfigOrDie ends the program itself.
abbrev pub or_die : Runtime → Setup → Rest → Rest
or_die runtime c next = check runtime c (λ e b. (1, b)) next

abbrev pub setup_cluster : Registration
setup_cluster = record {
  options = record { max_concurrent_reconciles = pos 0 };
  for_kind = Kind.hbase_clusters;
  owns = Kind.stateful_sets ∷ [];
  reconciler = reconcile_cluster;
}

abbrev pub setup_tenant : Options → Registration
setup_tenant opts = record {
  options = record { max_concurrent_reconciles = opts.max_concurrent_reconciles };
  for_kind = Kind.hbase_tenants;
  owns = Kind.stateful_sets ∷ [];
  reconciler = reconcile_tenant;
}

abbrev pub setup_standalone : Registration
setup_standalone = record {
  options = record { max_concurrent_reconciles = pos 0 };
  for_kind = Kind.hbase_standalones;
  owns = [];
  reconciler = reconcile_standalone;
}

-- strings.Join(ns, ",")
abbrev pub join_comma : List String → String
join_comma [] = ""
join_comma (n ∷ []) = n
join_comma (n ∷ m ∷ ns) = n ⧺ "," ⧺ join_comma (m ∷ ns)

abbrev pub log_namespaces : List String → Option Error → Rest → Rest
log_namespaces ns none next b =
    log_info ("Watching for following namespaces: " ⧺ join_comma ns) next b
log_namespaces ns (some e) next b = next (record b {
  log =
      error e
        "unable to get WatchNamespace, the manager will watch and manage resources in all namespaces"
      ∷ b.log;
})

abbrev pub manager_options : Flags → List String → ManagerOptions
manager_options flags ns = record {
  metrics_bind_address = flags.metrics_addr;
  webhook_port = 9443;
  health_probe_bind_address = flags.probe_addr;
  leader_election = flags.enable_leader_election;
  leader_election_id = "8458a868.flipkart.com";
  default_namespaces = convert_to_namespace_map ns;
}

-- The three controllers, the two checks and the start, once there is a manager.
unfoldable pub set_up : Runtime → Flags → Rest
set_up runtime flags = or_exit runtime (complete setup_cluster) "unable to create controller" (
    or_exit runtime
      (complete
        (setup_tenant (record { max_concurrent_reconciles = flags.max_reconcilers_tenant })))
      "unable to create controller"
      (or_exit runtime (complete setup_standalone) "unable to create controller" (
        or_exit runtime (add_healthz_check "healthz") "unable to set up health check" (
          or_exit runtime (add_readyz_check "readyz") "unable to set up ready check" (
            log_info "starting manager"
              (or_exit runtime run_manager "problem running manager" return))))))

unfoldable pub main : Shell → Runtime → Flags → Rest
main sh runtime flags =
    let (ns, err) = get_watch_namespaces sh in
    log_namespaces ns err (
      or_die runtime get_config (
        or_exit runtime (new_manager (manager_options flags ns)) "unable to start manager"
          (set_up runtime flags)))
