-- ===== src/Examples/Outcomes.antt =====
-- The theorems on how a Reconcile method ends, at concrete resources.
use hbase_k8s_operator.Prelude.{String, ◌≡◌, refl, true, none, some, [], ◌∷◌, All}
use hbase_k8s_operator.GoMap.{lookup, merge, insert}
use hbase_k8s_operator.Api.{HbaseCluster, HbaseTenant, HbaseStandalone}
use hbase_k8s_operator.Kube.{hbase_clusters, hbase_tenants}
use hbase_k8s_operator.Env.{Env, ok}
use hbase_k8s_operator.Action.{State, start, finished, after_get, ◌>>=◌, ◌or_return◌}
use hbase_k8s_operator.Reconcile.Validate.{
  validate_configuration, validate_entries, all_config, allowed_configs, is_valid_xml, invalid_xml,
}
use hbase_k8s_operator.Controllers.Steps.{
  is_config_enabled, reconcile_config_label, validate_or_return, apply_config_map, apply_config,
  apply_configs, apply_deployment, apply_built, apply_pdb, is_restart_enabled,
}
use hbase_k8s_operator.Controllers.Cluster.{
  reconcile_cluster, cluster_owner, cluster_template, deployments_of, apply_cluster,
  apply_namespaces, cluster_config_version, apply_cluster_deployments, apply_cluster_deployment,
}
use hbase_k8s_operator.Controllers.Tenant.{
  reconcile_tenant, tenant_label, tenant_owner, tenant_template, apply_tenant, apply_tenant_configs,
  tenant_config_version,
}
use hbase_k8s_operator.Controllers.Standalone.{reconcile_standalone}
use hbase_k8s_operator.Controllers.Blocked.{
  services_and_events, events_only, Barred, reconcile_cluster-Barred, reconcile_tenant-Barred,
  reconcile_standalone-Barred,
}
use hbase_k8s_operator.Controllers.Ready.{Ready}
use hbase_k8s_operator.Controllers.Ready.Finish.{Finishes}
use hbase_k8s_operator.Controllers.Success.Cluster.{reconcile_cluster-Ready}
use hbase_k8s_operator.Controllers.Success.Tenant.{reconcile_tenant-Ready}
use hbase_k8s_operator.Reconcile.Annotations.{
  get_existing_annotation_of_cluster_stateful_set, get_existing_annotation_of_stateful_set,
  get_stateful_set_annotation,
}
use hbase_k8s_operator.Reconcile.ConfigMaps.{reconcile_config_map, settle_config_map}
use hbase_k8s_operator.Reconcile.Hash.{
  config_map_hash, config_map_key, service_hash, service_key, as_sha256, stateful_set_hash,
  stateful_set_key,
}
use hbase_k8s_operator.Build.ConfigMap.{
  build_config_map, config_data, collect_tenant_config, add_tenant_config, without_namespace,
}
use hbase_k8s_operator.Reconcile.Services.{reconcile_service, settle_service}
use hbase_k8s_operator.Build.Service.{build_service, service_ports, ports_of_deployment}
use hbase_k8s_operator.Build.Labels.{get_shared_labels_map}
use hbase_k8s_operator.Build.Pdb.{build_pod_disruption_budget}
use hbase_k8s_operator.Build.StatefulSet.{
  deployment_after, build_stateful_set, template_labels, selector_match_labels,
  template_annotations,
}
use hbase_k8s_operator.Build.Volumes.{build_volumes, build_volume_claims}
use hbase_k8s_operator.Build.Containers.{build_containers, build_init_containers}
use hbase_k8s_operator.Build.Outcome.{collect}
use hbase_k8s_operator.Reconcile.StatefulSets.{
  reconcile_stateful_set, settle_stateful_set, wait_for_stateful_set, is_rolling,
}
use hbase_k8s_operator.Examples.World.{
  world, key, cluster, tenant, standalone, bad_configuration, server_with, headless, site, workload,
}

abbrev bad_cluster : HbaseCluster
bad_cluster = record cluster { spec = record (cluster.spec) { configuration = bad_configuration } }

-- Its label asks for its config maps.
abbrev bad_tenant : HbaseTenant
bad_tenant = record tenant {
  spec = record (tenant.spec) {
    configuration = bad_configuration;
    service_labels = some ((reconcile_config_label, "config-only") ∷ []);
  };
}

abbrev bad_standalone : HbaseStandalone
bad_standalone = record standalone {
  spec = record (standalone.spec) { configuration = bad_configuration };
}

-- A world in which the configuration of every resource is refused.
abbrev strict : Env
strict = record world {
  get_hbase_cluster = λ h key. ok bad_cluster;
  get_hbase_tenant = λ h key. ok bad_tenant;
  get_hbase_standalone = λ h key. ok bad_standalone;
}

refuses : validate_configuration strict bad_configuration ≡ some (invalid_xml "hbase-site.xml")
unfolding validate_configuration all_config lookup validate_entries merge allowed_configs
    is_valid_xml
refuses = refl

reconcile_cluster-Barred_example :
    let (f, t) = reconcile_cluster strict key start in Barred services_and_events start f t
reconcile_cluster-Barred_example =
    reconcile_cluster-Barred strict (invalid_xml "hbase-site.xml") key start bad_cluster refl
      refuses

reconcile_standalone-Barred_example :
    let (f, t) = reconcile_standalone strict key start in Barred services_and_events start f t
reconcile_standalone-Barred_example =
    reconcile_standalone-Barred strict (invalid_xml "hbase-site.xml") key start bad_standalone refl
      refuses

asks_for_configs : is_config_enabled (tenant_label bad_tenant) ≡ true
unfolding is_config_enabled lookup
asks_for_configs = refl

reconcile_tenant-Barred_example :
    let (f, t) = reconcile_tenant strict key start in Barred events_only start f t
reconcile_tenant-Barred_example =
    reconcile_tenant-Barred strict (invalid_xml "hbase-site.xml") key start bad_tenant refl
      asks_for_configs refuses

-- A world in which every object exists and is ready, and has the content that is desired.
abbrev pub calm : Env
calm = record world {
  services = server_with headless;
  config_maps = server_with site;
  stateful_sets = server_with workload;
  sha256_hex = λ s. "h";
}

-- The operator has reconciled every object of the cluster and of the tenant before.
abbrev settled : State
settled = record {
  hash_store =
      ("svc-c", "h")
      ∷ ("svc-t", "h")
      ∷ ("cfg-hbase-configtenant", "h")
      ∷ ("cfg-hadoop-configtenant", "h")
      ∷ ("cfg-hbase-configns", "h")
      ∷ ("cfg-hadoop-configns", "h")
      ∷ ("ss-zk", "h")
      ∷ ("ss-jn", "h")
      ∷ ("ss-nn", "h")
      ∷ ("ss-dn", "h")
      ∷ ("ss-hm", "h")
      ∷ [];
  history = [];
}

abbrev after_cluster : State
after_cluster = (reconcile_cluster calm key settled).1

cluster-Finishes : Finishes (reconcile_cluster calm key) settled after_cluster
unfolding reconcile_cluster apply_cluster deployments_of apply_namespaces cluster_config_version
    apply_cluster_deployments apply_cluster_deployment
    get_existing_annotation_of_cluster_stateful_set validate_or_return validate_configuration
    validate_entries all_config merge insert lookup allowed_configs is_valid_xml apply_config_map
    apply_config apply_configs reconcile_config_map settle_config_map config_map_hash config_map_key
    build_config_map config_data collect_tenant_config add_tenant_config without_namespace
    reconcile_service settle_service service_hash service_key as_sha256 build_service service_ports
    ports_of_deployment get_shared_labels_map apply_deployment apply_built apply_pdb
    build_pod_disruption_budget deployment_after build_stateful_set template_labels
    selector_match_labels template_annotations build_volumes build_volume_claims build_containers
    build_init_containers collect reconcile_stateful_set settle_stateful_set wait_for_stateful_set
    is_rolling stateful_set_hash stateful_set_key get_stateful_set_annotation is_restart_enabled
    ◌>>=◌ ◌or_return◌
cluster-Finishes = record { reply = finished; ends = refl; succeeds = refl }

reconcile_cluster-Ready_example :
    (validate_configuration calm cluster.spec.configuration ≡ none)
    × (version : String) × All
        (Ready calm
          (cluster_owner cluster)
          (cluster_template cluster version)
          (after_get hbase_clusters key settled)
          after_cluster)
        (deployments_of cluster.spec.deployments)
reconcile_cluster-Ready_example =
    reconcile_cluster-Ready calm key cluster settled after_cluster refl cluster-Finishes

abbrev after_tenant : State
after_tenant = (reconcile_tenant calm key settled).1

tenant-Finishes : Finishes (reconcile_tenant calm key) settled after_tenant
unfolding reconcile_tenant apply_tenant apply_tenant_configs tenant_config_version is_config_enabled
    get_existing_annotation_of_stateful_set validate_or_return validate_configuration
    validate_entries all_config merge insert lookup allowed_configs is_valid_xml apply_config_map
    apply_config apply_configs reconcile_config_map settle_config_map config_map_hash config_map_key
    build_config_map config_data collect_tenant_config add_tenant_config without_namespace
    reconcile_service settle_service service_hash service_key as_sha256 build_service service_ports
    ports_of_deployment get_shared_labels_map apply_deployment apply_built apply_pdb
    build_pod_disruption_budget deployment_after build_stateful_set template_labels
    selector_match_labels template_annotations build_volumes build_volume_claims build_containers
    build_init_containers collect reconcile_stateful_set settle_stateful_set wait_for_stateful_set
    is_rolling stateful_set_hash stateful_set_key get_stateful_set_annotation is_restart_enabled
    ◌>>=◌ ◌or_return◌
tenant-Finishes = record { reply = finished; ends = refl; succeeds = refl }

reconcile_tenant-Ready_example :
    (version : String) × Ready calm
      (tenant_owner tenant)
      (tenant_template tenant version)
      (after_get hbase_tenants key settled)
      after_tenant
      tenant.spec.datanode
reconcile_tenant-Ready_example =
    reconcile_tenant-Ready calm key tenant settled after_tenant refl tenant-Finishes
