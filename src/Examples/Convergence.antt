-- ===== src/Examples/Convergence.antt =====
-- A cluster and a tenant that start from an empty server.
use hbase_k8s_operator.Prelude.{
  String, ◌+◌, ◌*◌, ◌≤◌, ◌≡◌, refl, Bool, true, false, none, List, length, arith, ltb, subst, ap,
}
use hbase_k8s_operator.Api.{NamespacedName}
use hbase_k8s_operator.Kube.{StatefulSet, stateful_sets}
use hbase_k8s_operator.Env.{Call, Answer, ok, err}
use hbase_k8s_operator.Action.{start}
use hbase_k8s_operator.Build.StatefulSet.Complete.{IsParsable}
use hbase_k8s_operator.Reconcile.Validate.{
  validate_entries, all_config, allowed_configs, is_valid_xml, validate_configuration,
}
use hbase_k8s_operator.Reconcile.StatefulSets.{is_rolling}
use hbase_k8s_operator.Controllers.Cluster.{reconcile_cluster, deployments_of}
use hbase_k8s_operator.Controllers.Tenant.{reconcile_tenant}
use hbase_k8s_operator.Controllers.Progress.Measure.{is_consistent}
use hbase_k8s_operator.Controllers.Progress.Rollouts.{RollsOut}
use hbase_k8s_operator.Controllers.Progress.Wants.{
  cluster_wants, tenant_wants, cluster_version_at, tenant_version_at,
}
use hbase_k8s_operator.Controllers.Converges.{
  IsFeasible, IsFeasibleTenant, serve_until, reconcile_cluster_converges,
  reconcile_tenant_converges,
}
use hbase_k8s_operator.Examples.World.{workload, key, cluster, tenant, deployment}
use hbase_k8s_operator.Examples.Cooperation.{
  helpful, has, answer, workload_at, helpful-IsCooperative,
}
use hbase_k8s_operator.GoMap.{merge, lookup, insert}
use hbase_k8s_operator.Reconcile.Hash.{
  config_map_hash, config_map_key, service_hash, service_key, as_sha256, stateful_set_hash,
  stateful_set_key, pdb_key, pdb_hash,
}
use hbase_k8s_operator.Build.ConfigMap.{
  build_config_map, config_data, collect_tenant_config, add_tenant_config, without_namespace,
}
use hbase_k8s_operator.Build.Service.{build_service, service_ports, ports_of_deployment}
use hbase_k8s_operator.Build.Labels.{
  get_shared_labels_map, template_labels_for_multi_stateful_set,
  match_labels_for_multi_stateful_set, labels_for_stateful_set,
}
use hbase_k8s_operator.Build.Pdb.{build_pod_disruption_budget}
use hbase_k8s_operator.Build.StatefulSet.{
  deployment_after, build_stateful_set, template_labels, selector_match_labels,
  template_annotations,
}
use hbase_k8s_operator.Build.Volumes.{build_volumes, build_volume_claims}
use hbase_k8s_operator.Build.Containers.{build_containers, build_init_containers}
use hbase_k8s_operator.Build.Outcome.{collect}
use hbase_k8s_operator.Controllers.Steps.{is_config_enabled, is_restart_enabled}
use hbase_k8s_operator.Reconcile.Annotations.{annotation_or_empty}

abbrev from_answer : {A : Type 0} → A → Answer A → A
from_answer a (ok b) = b
from_answer a (err e) = a

ready_late :
    (name : String) (h : List Call)
    → ltb (length h) 40 ≡ false
    → is_rolling (deployment name) (workload_at h) ≡ false
unfolding is_rolling
ready_late name h late = rw late refl

found_ready :
    (name : String) (b : Bool) (h : List Call) (existing : StatefulSet)
    → 40 ≤ length h
    → answer b (workload_at h) ≡ ok existing
    → is_rolling (deployment name) existing ≡ false
found_ready name true h existing late e =
    subst (λ x. is_rolling (deployment name) x ≡ false) (ap (from_answer workload) e)
      (ready_late name h (ground arith))
found_ready name false h existing late e = cc

rolls_out : (name : String) (k : NamespacedName) → RollsOut helpful 40 (deployment name) k
rolls_out name k h existing late e = found_ready name (has stateful_sets k h) h existing late e

is_accepted : validate_configuration helpful cluster.spec.configuration ≡ none
unfolding validate_configuration validate_entries all_config merge lookup allowed_configs
    is_valid_xml
is_accepted = refl

-- No StatefulSet has the annotation.
no_version : (b : Bool) (h : List Call) → annotation_or_empty (answer b (workload_at h)) ≡ ""
unfolding lookup
no_version true h = refl
no_version false h = refl

cluster_version : (h : List Call) → cluster_version_at helpful cluster h ≡ ""
unfolding is_restart_enabled lookup
cluster_version h = no_version (has stateful_sets _ h) h

cluster_consistent :
    is_consistent (cluster_wants helpful cluster "") (cluster_wants helpful cluster "") ≡ true
unfolding deployments_of insert lookup merge config_map_hash config_map_key build_config_map
    config_data collect_tenant_config add_tenant_config without_namespace service_hash service_key
    as_sha256 build_service service_ports ports_of_deployment get_shared_labels_map
    build_pod_disruption_budget deployment_after build_stateful_set template_labels
    selector_match_labels template_annotations template_labels_for_multi_stateful_set
    match_labels_for_multi_stateful_set labels_for_stateful_set build_volumes build_volume_claims
    build_containers build_init_containers collect stateful_set_hash stateful_set_key pdb_key
    pdb_hash is_config_enabled
cluster_consistent = refl

parses_all : (name : String) → IsParsable helpful (deployment name) false
parses_all name = record {
  volumes = tt;
  claims = tt;
  containers = tt;
  side_cars = tt;
  init_containers = tt;
}

cluster-IsFeasible : IsFeasible helpful key cluster 40 ""
unfolding deployments_of
cluster-IsFeasible = record {
  present = λ h. refl;
  valid = is_accepted;
  parses = (
    parses_all "zk",
    (parses_all "jn", (parses_all "nn", (parses_all "dn", (parses_all "hm", tt)))),
  );
  rolls = (
    rolls_out "zk" _,
    (rolls_out "jn" _, (rolls_out "nn" _, (rolls_out "dn" _, (rolls_out "hm" _, tt)))),
  );
  same_version = cluster_version;
  consistent = cluster_consistent;
}

reconcile_cluster_converges_example :
    (serve_until
      (reconcile_cluster helpful key)
      (2 * length (cluster_wants helpful cluster "") + 40 + 1)
      start).1
    ≡ true
reconcile_cluster_converges_example =
    reconcile_cluster_converges helpful has helpful-IsCooperative key 40 "" cluster start
      cluster-IsFeasible

tenant_version : (h : List Call) → tenant_version_at helpful tenant h ≡ ""
unfolding is_restart_enabled lookup
tenant_version h = no_version (has stateful_sets _ h) h

tenant_consistent :
    is_consistent (tenant_wants helpful tenant "") (tenant_wants helpful tenant "") ≡ true
unfolding deployments_of insert lookup merge config_map_hash config_map_key build_config_map
    config_data collect_tenant_config add_tenant_config without_namespace service_hash service_key
    as_sha256 build_service service_ports ports_of_deployment get_shared_labels_map
    build_pod_disruption_budget deployment_after build_stateful_set template_labels
    selector_match_labels template_annotations template_labels_for_multi_stateful_set
    match_labels_for_multi_stateful_set labels_for_stateful_set build_volumes build_volume_claims
    build_containers build_init_containers collect stateful_set_hash stateful_set_key pdb_key
    pdb_hash is_config_enabled
tenant_consistent = refl

tenant-IsFeasible : IsFeasibleTenant helpful key tenant 40 ""
tenant-IsFeasible = record {
  present = λ h. refl;
  valid = is_accepted;
  parses = parses_all "dn";
  rolls = rolls_out "dn" _;
  same_version = tenant_version;
  consistent = tenant_consistent;
}

reconcile_tenant_converges_example :
    (serve_until
      (reconcile_tenant helpful key)
      (2 * length (tenant_wants helpful tenant "") + 40 + 1)
      start).1
    ≡ true
reconcile_tenant_converges_example =
    reconcile_tenant_converges helpful has helpful-IsCooperative key 40 "" tenant start
      tenant-IsFeasible
