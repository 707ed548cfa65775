-- ===== src/Reconcile/Hash.antt =====
-- operator/controllers/hbasecluster_controller.go: asSha256, and the keys of `hashStore`, which
-- operator/controllers/utils.go writes out at each use.
use hbase_k8s_operator.Prelude.{String, ◌⧺◌}
use hbase_k8s_operator.Kube.{ConfigMap, Service, StatefulSet, PodDisruptionBudget}
use hbase_k8s_operator.Env.{Env}

unfoldable pub as_sha256 : Env → String → String
as_sha256 env bytes = env.sha256_hex (env.sprint_bytes bytes)

-- "cfg-"+cfg.Name+cfg.Namespace
unfoldable pub config_map_key : ConfigMap → String
config_map_key cfg = "cfg-" ⧺ (cfg.meta.name ⧺ cfg.meta.namespace)

-- "svc-"+svc.Name
unfoldable pub service_key : Service → String
service_key svc = "svc-" ⧺ svc.meta.name

-- "ss-"+newSS.Name
unfoldable pub stateful_set_key : StatefulSet → String
stateful_set_key ss = "ss-" ⧺ ss.meta.name

-- "pdb-"+pdb.Name
unfoldable pub pdb_key : PodDisruptionBudget → String
pdb_key pdb = "pdb-" ⧺ pdb.meta.name

unfoldable pub config_map_hash : Env → ConfigMap → String
unfolding as_sha256
config_map_hash env cfg = as_sha256 env (env.marshal_data cfg.contents)

unfoldable pub service_hash : Env → Service → String
unfolding as_sha256
service_hash env svc = as_sha256 env (env.marshal_service_spec svc.spec)

unfoldable pub stateful_set_hash : Env → StatefulSet → String
unfolding as_sha256
stateful_set_hash env ss = as_sha256 env (env.marshal_stateful_set ss)

unfoldable pub pdb_hash : Env → PodDisruptionBudget → String
unfolding as_sha256
pdb_hash env pdb = as_sha256 env (env.marshal_pod_disruption_budget pdb)
