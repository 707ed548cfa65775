-- ===== src/Examples/Alone.antt =====
-- A standalone instance that is reconciled with success.
use hbase_k8s_operator.Prelude.{String, ◌≡◌, refl, none, [], ◌∷◌}
use hbase_k8s_operator.GoMap.{merge, lookup, insert}
use hbase_k8s_operator.Kube.{hbase_standalones}
use hbase_k8s_operator.Action.{State, finished, after_get, ◌>>=◌, ◌or_return◌}
use hbase_k8s_operator.Reconcile.Validate.{
  validate_configuration, validate_entries, all_config, allowed_configs, is_valid_xml,
}
use hbase_k8s_operator.Reconcile.ConfigMaps.{reconcile_config_map, settle_config_map}
use hbase_k8s_operator.Reconcile.Hash.{
  config_map_hash, config_map_key, service_hash, service_key, as_sha256, stateful_set_hash,
  stateful_set_key,
}
use hbase_k8s_operator.Build.ConfigMap.{
  build_config_map, config_data, collect_tenant_config, add_tenant_config, without_namespace,
}
use hbase_k8s_operator.Reconcile.Services.{reconcile_service, settle_service}
use hbase_k8s_operator.Build.Service.{build_service, service_ports, ports_of_deployment}
use hbase_k8s_operator.Build.Labels.{
  get_shared_labels_map, template_labels_for_multi_stateful_set,
  match_labels_for_multi_stateful_set,
}
use hbase_k8s_operator.Build.Pdb.{build_pod_disruption_budget}
use hbase_k8s_operator.Build.StatefulSet.{
  deployment_after, build_stateful_set, template_labels, selector_match_labels,
  template_annotations,
}
use hbase_k8s_operator.Build.Volumes.{build_volumes, build_volume_claims}
use hbase_k8s_operator.Build.Containers.{build_containers, build_init_containers}
use hbase_k8s_operator.Build.Outcome.{collect}
use hbase_k8s_operator.Reconcile.StatefulSets.{
  reconcile_stateful_set, settle_stateful_set, wait_for_stateful_set, is_rolling,
}
use hbase_k8s_operator.Controllers.Steps.{
  validate_or_return, apply_config_map, apply_config, apply_deployment, apply_built, apply_pdb,
}
use hbase_k8s_operator.Controllers.Standalone.{
  standalone_owner, standalone_template, reconcile_standalone, apply_standalone,
  apply_standalone_objects,
}
use hbase_k8s_operator.Controllers.Ready.{Ready}
use hbase_k8s_operator.Controllers.Ready.Finish.{Finishes}
use hbase_k8s_operator.Controllers.Success.Standalone.{reconcile_standalone-Ready}
use hbase_k8s_operator.Examples.World.{key, standalone}
use hbase_k8s_operator.Examples.Outcomes.{calm}

-- The operator has reconciled every object of the instance before.
abbrev known : State
known = record {
  hash_store =
      ("svc-s", "h")
      ∷ ("cfg-hbase-configns", "h")
      ∷ ("cfg-hadoop-configns", "h")
      ∷ ("ss-s", "h")
      ∷ [];
  history = [];
}

abbrev after_standalone : State
after_standalone = (reconcile_standalone calm key known).1

standalone-Finishes : Finishes (reconcile_standalone calm key) known after_standalone
unfolding reconcile_standalone apply_standalone apply_standalone_objects validate_or_return
    validate_configuration validate_entries all_config merge insert lookup allowed_configs
    is_valid_xml apply_config_map apply_config reconcile_config_map settle_config_map
    config_map_hash config_map_key build_config_map config_data collect_tenant_config
    add_tenant_config without_namespace reconcile_service settle_service service_hash service_key
    as_sha256 build_service service_ports ports_of_deployment get_shared_labels_map apply_deployment
    apply_built apply_pdb build_pod_disruption_budget deployment_after build_stateful_set
    template_labels selector_match_labels template_annotations
    template_labels_for_multi_stateful_set match_labels_for_multi_stateful_set build_volumes
    build_volume_claims build_containers build_init_containers collect reconcile_stateful_set
    settle_stateful_set wait_for_stateful_set is_rolling stateful_set_hash stateful_set_key ◌>>=◌
    ◌or_return◌
standalone-Finishes = record { reply = finished; ends = refl; succeeds = refl }

reconcile_standalone-Ready_example :
    (validate_configuration calm standalone.spec.configuration ≡ none)
    × (version : String) × Ready calm
        (standalone_owner standalone)
        (standalone_template standalone version)
        (after_get hbase_standalones key known)
        after_standalone
        standalone.spec.standalone
reconcile_standalone-Ready_example =
    reconcile_standalone-Ready calm key standalone known after_standalone refl standalone-Finishes
