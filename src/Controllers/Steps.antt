-- ===== src/Controllers/Steps.antt =====
-- The steps that the Reconcile methods of operator/controllers share: the labels that switch the
-- reconciliation of configs, owned objects, config maps, and a deployment's StatefulSet and budget.
use hbase_k8s_operator.Prelude.{String, ◌⧺◌, Bool, false, ◌||◌, ◌==◌, ℤ, Option, none, some, List}
use hbase_k8s_operator.GoMap.{GoMap}
use hbase_k8s_operator.Api.{ObjectMeta, HbaseClusterConfiguration, HbaseClusterDeployment}
use hbase_k8s_operator.Kube.{Kind, ConfigMap, Service, StatefulSet, PodDisruptionBudget}
use hbase_k8s_operator.Env.{Env}
use hbase_k8s_operator.Action.{
  Action, Reply, ◌>>=◌, ◌>>◌, pure, panicked, finished, failed, ◌or_return◌,
}
use hbase_k8s_operator.Build.Outcome.{Outcome, built, invalid, panic}
use hbase_k8s_operator.Build.ConfigMap.{build_config_map}
use hbase_k8s_operator.Build.StatefulSet.{build_stateful_set, deployment_after}
use hbase_k8s_operator.Build.Pdb.{build_pod_disruption_budget}
use hbase_k8s_operator.Reconcile.Validate.{validate_configuration}
use hbase_k8s_operator.Reconcile.Events.{publish_event}
use hbase_k8s_operator.Reconcile.ConfigMaps.{reconcile_config_map}
use hbase_k8s_operator.Reconcile.StatefulSets.{reconcile_stateful_set}
use hbase_k8s_operator.Reconcile.Pdbs.{reconcile_pod_disruption_budget}

abbrev pub reconcile_config_label : String
reconcile_config_label = "hbase-operator.cfg-statefulset-update/enable"

-- exists && (value == "true" || value == "yes")
unfoldable pub is_restart_enabled : Option String → Bool
is_restart_enabled none = false
is_restart_enabled (some value) = value == "true" || value == "yes"

-- exists && (value == "config-only" || value == "true" || value == "yes")
unfoldable pub is_config_enabled : Option String → Bool
is_config_enabled none = false
is_config_enabled (some value) = value == "config-only" || value == "true" || value == "yes"

-- The custom resource that is reconciled: its kind and metadata.
pub record Owner : Type 0 where
  pub kind : Kind
  pub meta : ObjectMeta

-- ctrl.SetControllerReference on each kind of object
abbrev pub own_service : Env → Owner → Service → Service
own_service env o svc = record svc { meta = env.set_controller_reference o.kind o.meta svc.meta }

abbrev pub own_config_map : Env → Owner → ConfigMap → ConfigMap
own_config_map env o cfg = record cfg { meta = env.set_controller_reference o.kind o.meta cfg.meta }

abbrev pub own_stateful_set : Env → Owner → StatefulSet → StatefulSet
own_stateful_set env o ss = record ss { meta = env.set_controller_reference o.kind o.meta ss.meta }

abbrev pub own_pdb : Env → Owner → PodDisruptionBudget → PodDisruptionBudget
own_pdb env o pdb = record pdb { meta = env.set_controller_reference o.kind o.meta pdb.meta }

-- validateConfiguration, with the event and the return where it fails
unfoldable pub validate_or_return :
    Env → String → HbaseClusterConfiguration → Action Reply → Action Reply
unfolding ◌>>=◌
validate_or_return env namespace configuration rest =
    elim (validate_configuration env configuration) [
      | none ↦ rest
      | some e ↦
          publish_event env namespace "ConfigValidateFailed" e.message "Warning" "ConfigMap"
          >> pure (failed e)
    ]

-- buildConfigMap, SetControllerReference and reconcileConfigMap, for one config map
unfoldable pub apply_config_map :
    Env → Owner → String → String → GoMap → List GoMap → Action (Reply × ConfigMap)
apply_config_map env o name namespace config tenant_config =
    reconcile_config_map env namespace
      (own_config_map env o (build_config_map name namespace config tenant_config))

-- The same, where the config map is not used again.
unfoldable pub apply_config : Env → Owner → String → String → GoMap → List GoMap → Action Reply
unfolding ◌>>=◌
apply_config env o name namespace config tenant_config =
    apply_config_map env o name namespace config tenant_config >>= λ (reply, _). pure reply

-- The HBase and the Hadoop config map in one namespace.
unfoldable pub apply_configs : Env → Owner → String → HbaseClusterConfiguration → Action Reply
unfolding ◌or_return◌
apply_configs env o namespace c =
    apply_config env o c.hbase_config_name namespace c.hbase_config c.hbase_tenant_config
    or_return apply_config env o c.hadoop_config_name namespace c.hadoop_config
        c.hadoop_tenant_config

-- buildPodDisruptionBudget, and reconcilePodDisruptionBudget if there is a budget
unfoldable pub apply_pdb : Env → Owner → HbaseClusterDeployment → Action Reply
apply_pdb env o d = elim (build_pod_disruption_budget o.meta.name o.meta.namespace d) [
  | none ↦ pure finished
  | some pdb ↦ reconcile_pod_disruption_budget env (own_pdb env o pdb)
]

-- reconcileStatefulSet, or what follows an error of buildStatefulSet or its panic
unfoldable pub apply_built :
    Env → Owner → HbaseClusterDeployment → Outcome StatefulSet → Action Reply
unfolding ◌>>=◌
apply_built env o d (built ss) =
    reconcile_stateful_set env o.meta.namespace (own_stateful_set env o ss) d
apply_built env o d (invalid message) =
    publish_event env o.meta.namespace "StatefulSetBuildFailed" message "Warning"
      ("StatefulSet/" ⧺ d.name)
    >> pure (failed (record { message = message; is_not_found = false }))
apply_built env o d panic = λ s. (panicked, s)

-- What the cluster, the tenant and the standalone instance give buildStatefulSet.
pub record Template : Type 0 where
  pub base_image : String
  pub is_bootstrap : Bool
  pub configuration : HbaseClusterConfiguration
  pub config_version : String
  pub fs_group : ℤ
  pub is_multi_stateful_set : Bool

-- A deployment's StatefulSet and then its budget, which sees what buildStatefulSet has written into
-- the deployment's maps.
unfoldable pub apply_deployment : Env → Owner → Template → HbaseClusterDeployment → Action Reply
unfolding ◌or_return◌
apply_deployment env o t d =
    apply_built env o d (
      build_stateful_set env o.meta.name o.meta.namespace t.base_image t.is_bootstrap
        t.configuration t.config_version t.fs_group d t.is_multi_stateful_set)
    or_return apply_pdb env o
        (deployment_after o.meta.name t.config_version t.is_multi_stateful_set d)
