-- ===== src/Examples/Deployments.antt =====
-- A whole history of an operator: ten requests for a cluster, and the one that succeeds.
use hbase_k8s_operator.Prelude.{String, ◌≡◌, refl, true, [], ◌∷◌, All, ap, ◌==◌, ◌≢◌, List, false}
use hbase_k8s_operator.GoMap.{lookup, merge, insert}
use hbase_k8s_operator.Kube.{hbase_clusters}
use hbase_k8s_operator.Env.{Env}
use hbase_k8s_operator.Action.{State, start, finished, after_get, ◌>>=◌, ◌or_return◌}
use hbase_k8s_operator.Reconcile.Validate.{
  validate_configuration, validate_entries, all_config, allowed_configs, is_valid_xml,
}
use hbase_k8s_operator.Controllers.Steps.{
  validate_or_return, apply_config_map, apply_config, apply_configs, apply_deployment, apply_built,
  apply_pdb, is_restart_enabled,
}
use hbase_k8s_operator.Controllers.Cluster.{
  reconcile_cluster, cluster_owner, cluster_template, deployments_of, apply_cluster,
  apply_namespaces, cluster_config_version, apply_cluster_deployments, apply_cluster_deployment,
}
use hbase_k8s_operator.Controllers.Ready.Finish.{Finishes}
use hbase_k8s_operator.Reconcile.Annotations.{
  get_existing_annotation_of_cluster_stateful_set, get_stateful_set_annotation,
}
use hbase_k8s_operator.Reconcile.ConfigMaps.{
  reconcile_config_map, settle_config_map, update_config_map, send_config_map, annotate,
}
use hbase_k8s_operator.Reconcile.Hash.{
  config_map_hash, config_map_key, service_hash, service_key, as_sha256, stateful_set_hash,
  stateful_set_key,
}
use hbase_k8s_operator.Build.ConfigMap.{
  build_config_map, config_data, collect_tenant_config, add_tenant_config, without_namespace,
}
use hbase_k8s_operator.Reconcile.Services.{
  reconcile_service, settle_service, update_service, adopt_service,
}
use hbase_k8s_operator.Build.Service.{build_service, service_ports, ports_of_deployment}
use hbase_k8s_operator.Build.Labels.{get_shared_labels_map}
use hbase_k8s_operator.Build.Pdb.{build_pod_disruption_budget}
use hbase_k8s_operator.Build.StatefulSet.{
  deployment_after, build_stateful_set, template_labels, selector_match_labels,
  template_annotations,
}
use hbase_k8s_operator.Build.Volumes.{build_volumes, build_volume_claims}
use hbase_k8s_operator.Build.Containers.{build_containers, build_init_containers}
use hbase_k8s_operator.Build.Outcome.{collect}
use hbase_k8s_operator.Reconcile.StatefulSets.{
  reconcile_stateful_set, settle_stateful_set, wait_for_stateful_set, is_rolling,
  update_stateful_set,
}
use hbase_k8s_operator.Examples.World.{world, key, cluster, server_with, headless, site, workload}
use hbase_k8s_operator.Controllers.Requests.{Request, handle, serve}
use hbase_k8s_operator.Controllers.Requests
use hbase_k8s_operator.Controllers.Deployed.{IsDeployed, serve-IsDeployed}

-- A server in which every object exists and is ready, and which accepts every Update.
abbrev calm : Env
calm = record world {
  services = server_with headless;
  config_maps = server_with site;
  stateful_sets = server_with workload;
  sha256_hex = λ s. "h";
}

abbrev ten_requests : List Request
ten_requests = let r = Requests.cluster key in r ∷ r ∷ r ∷ r ∷ r ∷ r ∷ r ∷ r ∷ r ∷ r ∷ []

-- The state after ten requests, of which each sends one Update.
abbrev updated_all : State
updated_all = serve calm start ten_requests

abbrev at_the_end : State
at_the_end = (reconcile_cluster calm key updated_all).1

last-Finishes : Finishes (reconcile_cluster calm key) updated_all at_the_end
unfolding reconcile_cluster apply_cluster deployments_of apply_namespaces cluster_config_version
    apply_cluster_deployments apply_cluster_deployment
    get_existing_annotation_of_cluster_stateful_set validate_or_return validate_configuration
    validate_entries all_config merge insert lookup allowed_configs is_valid_xml apply_config_map
    apply_config apply_configs reconcile_config_map settle_config_map config_map_hash config_map_key
    build_config_map config_data collect_tenant_config add_tenant_config without_namespace
    reconcile_service settle_service service_hash service_key as_sha256 build_service service_ports
    ports_of_deployment get_shared_labels_map apply_deployment apply_built apply_pdb
    build_pod_disruption_budget deployment_after build_stateful_set template_labels
    selector_match_labels template_annotations build_volumes build_volume_claims build_containers
    build_init_containers collect reconcile_stateful_set settle_stateful_set wait_for_stateful_set
    is_rolling stateful_set_hash stateful_set_key get_stateful_set_annotation is_restart_enabled
    ◌>>=◌ ◌or_return◌ update_config_map send_config_map annotate update_service adopt_service
    update_stateful_set serve handle
last-Finishes = record { reply = finished; ends = refl; succeeds = refl }

not_empty : (text : String) → calm.sha256_hex text ≢ ""
not_empty text e = let h : false ≡ true = ap (λ s. s == "") e in cc

serve-IsDeployed_example :
    (version : String) × All
      (IsDeployed calm
        (cluster_owner cluster)
        (cluster_template cluster version)
        (after_get hbase_clusters key updated_all)
        at_the_end)
      (deployments_of cluster.spec.deployments)
serve-IsDeployed_example =
    serve-IsDeployed calm not_empty [] ten_requests key cluster at_the_end refl last-Finishes
