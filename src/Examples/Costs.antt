-- ===== src/Examples/Costs.antt =====
-- The calls of the three Reconcile methods, and runs that make as many as they can.
use hbase_k8s_operator.Prelude.{
  String, Bool, ℕ, ◌≡◌, ◌+◌, refl, none, some, [], ◌∷◌, length, true, false,
}
use hbase_k8s_operator.GoMap.{Map, merge, lookup, insert}
use hbase_k8s_operator.Api.{HbaseCluster, HbaseTenant, HbaseStandalone, HbaseClusterDeployment}
use hbase_k8s_operator.Env.{Env, ok}
use hbase_k8s_operator.Action.{State, Flow, Reply, start, succeeds, ◌>>=◌, ◌or_return◌}
use hbase_k8s_operator.Reconcile.Validate.{
  validate_configuration, validate_entries, all_config, allowed_configs, is_valid_xml,
}
use hbase_k8s_operator.Reconcile.Annotations.{
  get_existing_annotation_of_stateful_set, get_existing_annotation_of_cluster_stateful_set,
  get_stateful_set_annotation,
}
use hbase_k8s_operator.Reconcile.ConfigMaps.{
  reconcile_config_map, settle_config_map, create_config_map,
}
use hbase_k8s_operator.Reconcile.Hash.{
  config_map_hash, config_map_key, service_hash, service_key, as_sha256, stateful_set_hash,
  stateful_set_key, pdb_key, pdb_hash,
}
use hbase_k8s_operator.Reconcile.Services.{reconcile_service, settle_service, create_service}
use hbase_k8s_operator.Reconcile.StatefulSets.{
  reconcile_stateful_set, settle_stateful_set, wait_for_stateful_set, is_rolling,
}
use hbase_k8s_operator.Reconcile.Pdbs.{reconcile_pod_disruption_budget, settle_pdb, update_pdb}
use hbase_k8s_operator.Build.ConfigMap.{
  build_config_map, config_data, collect_tenant_config, add_tenant_config, without_namespace,
}
use hbase_k8s_operator.Build.Service.{build_service, service_ports, ports_of_deployment}
use hbase_k8s_operator.Build.Labels.{
  get_shared_labels_map, template_labels_for_multi_stateful_set,
  match_labels_for_multi_stateful_set,
}
use hbase_k8s_operator.Build.Pdb.{build_pod_disruption_budget}
use hbase_k8s_operator.Build.StatefulSet.{
  deployment_after, build_stateful_set, template_labels, selector_match_labels,
  template_annotations,
}
use hbase_k8s_operator.Build.Volumes.{build_volumes, build_volume_claims}
use hbase_k8s_operator.Build.Containers.{build_containers, build_init_containers}
use hbase_k8s_operator.Build.Outcome.{collect}
use hbase_k8s_operator.Controllers.Steps.{
  reconcile_config_label, is_config_enabled, is_restart_enabled, validate_or_return,
  apply_config_map, apply_config, apply_configs, apply_deployment, apply_built, apply_pdb,
}
use hbase_k8s_operator.Controllers.Cluster.{
  reconcile_cluster, deployments_of, apply_cluster, apply_namespaces, apply_pod_services,
  apply_cluster_deployment, apply_cluster_deployments, cluster_config_version,
}
use hbase_k8s_operator.Controllers.Tenant.{
  reconcile_tenant, apply_tenant, apply_tenant_configs, tenant_config_version,
}
use hbase_k8s_operator.Controllers.Standalone.{
  reconcile_standalone, apply_standalone, apply_standalone_objects,
}
use hbase_k8s_operator.Controllers.Calls.Cost.{Spent}
use hbase_k8s_operator.Controllers.Calls.Methods.{
  cluster_calls, reconcile_cluster-Spent, reconcile_tenant-Spent,
}
use hbase_k8s_operator.Controllers.Calls.Standalone.{reconcile_standalone-Spent}
use hbase_k8s_operator.Examples.World.{
  world, key, cluster, tenant, standalone, deployment, server_with, workload, budget,
}

reconcile_cluster-Spent_example :
    Spent
      (cluster_calls cluster)
      (cluster_calls cluster + 1)
      start
      (reconcile_cluster world key start).0
      (reconcile_cluster world key start).1
reconcile_cluster-Spent_example = reconcile_cluster-Spent world key cluster start refl

-- The cluster has five deployments without pod services, and config maps in two namespaces.
cluster_calls_of_example : cluster_calls cluster ≡ 22
unfolding deployments_of
cluster_calls_of_example = refl

abbrev guarded : HbaseClusterDeployment → HbaseClusterDeployment
guarded d = record d {
  pod_disruption_budget = some (record { min_available = none; max_unavailable = none });
}

-- A tenant that asks for its config maps and has a budget.
abbrev full_tenant : HbaseTenant
full_tenant = record tenant {
  spec = record (tenant.spec) {
    datanode = guarded (deployment "t");
    service_labels = some ((reconcile_config_label, "config-only") ∷ []);
  };
}

-- A cluster with a budget for each deployment.
abbrev full_cluster : HbaseCluster
full_cluster = record cluster {
  spec = record (cluster.spec) {
    deployments = record {
      zookeeper = guarded (deployment "zk");
      journalnode = guarded (deployment "jn");
      namenode = guarded (deployment "nn");
      datanode = guarded (deployment "dn");
      hmaster = guarded (deployment "hm");
    };
  };
}

abbrev full_standalone : HbaseStandalone
full_standalone = record standalone {
  spec = record (standalone.spec) { standalone = guarded (deployment "s") };
}

-- A server on which the StatefulSets are ready and the budgets are there, but nothing else.
abbrev sparse : Env
sparse = record world {
  stateful_sets = server_with workload;
  pod_disruption_budgets = server_with budget;
  get_hbase_cluster = λ h k. ok full_cluster;
  get_hbase_tenant = λ h k. ok full_tenant;
  get_hbase_standalone = λ h k. ok full_standalone;
  sha256_hex = λ s. "h";
}

-- What the operator has recorded: all, or all but the budgets that come last.
abbrev most_recorded : Map String
most_recorded =
    ("ss-zk", "h")
    ∷ ("ss-jn", "h")
    ∷ ("ss-nn", "h")
    ∷ ("ss-dn", "h")
    ∷ ("ss-hm", "h")
    ∷ ("ss-t", "h")
    ∷ ("ss-s", "h")
    ∷ ("pdb-zk-pdb", "h")
    ∷ ("pdb-jn-pdb", "h")
    ∷ ("pdb-nn-pdb", "h")
    ∷ ("pdb-dn-pdb", "h")
    ∷ []

abbrev all_recorded : State
all_recorded = record {
  hash_store = ("pdb-hm-pdb", "h") ∷ ("pdb-t-pdb", "h") ∷ ("pdb-s-pdb", "h") ∷ most_recorded;
  history = [];
}

abbrev last_missing : State
last_missing = record { hash_store = most_recorded; history = [] }

reconcile_tenant-Spent_example :
    Spent 10 11 all_recorded
      (reconcile_tenant sparse key all_recorded).0
      (reconcile_tenant sparse key all_recorded).1
reconcile_tenant-Spent_example = reconcile_tenant-Spent sparse key all_recorded

reconcile_standalone-Spent_example :
    Spent 9 10 all_recorded
      (reconcile_standalone sparse key all_recorded).0
      (reconcile_standalone sparse key all_recorded).1
reconcile_standalone-Spent_example = reconcile_standalone-Spent sparse key all_recorded

-- Whether a Reconcile succeeds, and how many calls of the client it makes.
abbrev made : Flow Reply × State → Bool × ℕ
made (f, t) = (succeeds f, length t.history)

-- The bounds are reached: with success, and where the last budget has to be updated.
cluster_reaches :
    (made (reconcile_cluster sparse key all_recorded) ≡ (true, 22))
    × (made (reconcile_cluster sparse key last_missing) ≡ (false, 23))
unfolding reconcile_cluster apply_cluster apply_namespaces apply_pod_services
    apply_cluster_deployment apply_cluster_deployments deployments_of cluster_config_version
    get_existing_annotation_of_cluster_stateful_set is_restart_enabled
    get_existing_annotation_of_stateful_set get_stateful_set_annotation apply_configs
    validate_or_return validate_configuration validate_entries all_config merge insert lookup
    allowed_configs is_valid_xml apply_config_map apply_config reconcile_config_map
    settle_config_map create_config_map config_map_hash config_map_key build_config_map config_data
    collect_tenant_config add_tenant_config without_namespace reconcile_service settle_service
    create_service service_hash service_key as_sha256 build_service service_ports
    ports_of_deployment get_shared_labels_map apply_deployment apply_built apply_pdb
    build_pod_disruption_budget deployment_after build_stateful_set template_labels
    selector_match_labels template_annotations build_volumes build_volume_claims build_containers
    build_init_containers collect reconcile_stateful_set settle_stateful_set wait_for_stateful_set
    is_rolling stateful_set_hash stateful_set_key reconcile_pod_disruption_budget settle_pdb
    update_pdb pdb_key pdb_hash ◌>>=◌ ◌or_return◌ template_labels_for_multi_stateful_set
    match_labels_for_multi_stateful_set
cluster_reaches = (refl, refl)

tenant_reaches :
    (made (reconcile_tenant sparse key all_recorded) ≡ (true, 10))
    × (made (reconcile_tenant sparse key last_missing) ≡ (false, 11))
unfolding reconcile_tenant apply_tenant apply_tenant_configs tenant_config_version is_config_enabled
    is_restart_enabled get_existing_annotation_of_stateful_set get_stateful_set_annotation
    apply_configs validate_or_return validate_configuration validate_entries all_config merge insert
    lookup allowed_configs is_valid_xml apply_config_map apply_config reconcile_config_map
    settle_config_map create_config_map config_map_hash config_map_key build_config_map config_data
    collect_tenant_config add_tenant_config without_namespace reconcile_service settle_service
    create_service service_hash service_key as_sha256 build_service service_ports
    ports_of_deployment get_shared_labels_map apply_deployment apply_built apply_pdb
    build_pod_disruption_budget deployment_after build_stateful_set template_labels
    selector_match_labels template_annotations build_volumes build_volume_claims build_containers
    build_init_containers collect reconcile_stateful_set settle_stateful_set wait_for_stateful_set
    is_rolling stateful_set_hash stateful_set_key reconcile_pod_disruption_budget settle_pdb
    update_pdb pdb_key pdb_hash ◌>>=◌ ◌or_return◌
tenant_reaches = (refl, refl)

standalone_reaches :
    (made (reconcile_standalone sparse key all_recorded) ≡ (true, 9))
    × (made (reconcile_standalone sparse key last_missing) ≡ (false, 10))
unfolding reconcile_standalone apply_standalone apply_standalone_objects
    template_labels_for_multi_stateful_set match_labels_for_multi_stateful_set validate_or_return
    validate_configuration validate_entries all_config merge insert lookup allowed_configs
    is_valid_xml apply_config_map apply_config reconcile_config_map settle_config_map
    create_config_map config_map_hash config_map_key build_config_map config_data
    collect_tenant_config add_tenant_config without_namespace reconcile_service settle_service
    create_service service_hash service_key as_sha256 build_service service_ports
    ports_of_deployment get_shared_labels_map apply_deployment apply_built apply_pdb
    build_pod_disruption_budget deployment_after build_stateful_set template_labels
    selector_match_labels template_annotations build_volumes build_volume_claims build_containers
    build_init_containers collect reconcile_stateful_set settle_stateful_set wait_for_stateful_set
    is_rolling stateful_set_hash stateful_set_key reconcile_pod_disruption_budget settle_pdb
    update_pdb pdb_key pdb_hash ◌>>=◌ ◌or_return◌
standalone_reaches = (refl, refl)
