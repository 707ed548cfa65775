-- ===== src/Build/StatefulSet.antt =====
-- operator/controllers/utils.go: buildStatefulSet. The Go function receives a copy of the
-- deployment whose label and annotation maps are shared with the caller's: what it writes into a
-- map that exists is seen by the caller afterwards, and a map that it makes itself is not.
pub mod Selectors
pub mod Complete
use hbase_k8s_operator.Prelude.{String, Bool, ℤ, pos, none, some, if◌then◌else◌}
use hbase_k8s_operator.GoMap.{Map, GoMap, entries, insert, merge}
use hbase_k8s_operator.Api.{HbaseClusterConfiguration, HbaseClusterDeployment, new_meta}
use hbase_k8s_operator.Kube.{StatefulSet}
use hbase_k8s_operator.Env.{Env}
use hbase_k8s_operator.Build.Outcome.{Outcome, built, ◌>>=◌, is_nonempty}
use hbase_k8s_operator.Build.Labels.{
  get_shared_labels_map, match_labels_for_multi_stateful_set,
  template_labels_for_multi_stateful_set,
}
use hbase_k8s_operator.Build.Volumes.{build_volumes, build_volume_claims}
use hbase_k8s_operator.Build.Containers.{build_containers, build_init_containers}

abbrev pub stateful_set_v2_annotation : String
stateful_set_v2_annotation = "hbase-operator/hbase-config-version"

-- The caller's map after the callee has written into its own: the same map, unless it was nil.
abbrev pub seen_by_caller : GoMap → Map String → GoMap
seen_by_caller none written = none
seen_by_caller (some _) written = some written

-- d.Labels when the function has written all that it writes
unfoldable pub template_labels : String → HbaseClusterDeployment → Bool → Map String
template_labels name d is_multi_stateful_set =
    let labels = merge (entries d.labels) (get_shared_labels_map name none) in
    if is_multi_stateful_set
    then template_labels_for_multi_stateful_set name d.name labels
    else labels

unfoldable pub selector_match_labels : String → HbaseClusterDeployment → Bool → Map String
selector_match_labels name d is_multi_stateful_set =
    if is_multi_stateful_set
    then match_labels_for_multi_stateful_set name d.name
    else get_shared_labels_map name none

-- d.Annotations when the function has written all that it writes
unfoldable pub template_annotations : String → HbaseClusterDeployment → Map String
template_annotations config_version d =
    if is_nonempty config_version
    then insert stateful_set_v2_annotation config_version (entries d.annotations)
    else entries d.annotations

-- The caller's deployment after the call.
unfoldable pub deployment_after :
    String → String → Bool → HbaseClusterDeployment → HbaseClusterDeployment
deployment_after name config_version is_multi_stateful_set d = record d {
  labels = seen_by_caller d.labels (template_labels name d is_multi_stateful_set);
  annotations = seen_by_caller d.annotations (template_annotations config_version d);
}

-- The fields that the Go code sets only where they are not empty keep their zero value otherwise,
-- which is the same.
unfoldable pub build_stateful_set :
    Env
    → String
    → String
    → String
    → Bool
    → HbaseClusterConfiguration
    → String
    → ℤ
    → HbaseClusterDeployment
    → Bool
    → Outcome StatefulSet
build_stateful_set env name namespace base_image is_bootstrap configuration config_version fsgroup d
      is_multi_stateful_set =
    do
      volumes ← build_volumes env configuration d.volumes
      volume_claims ← build_volume_claims env namespace d.volume_claims
      containers ← build_containers env base_image configuration d.containers d.side_car_containers
      init_containers ←
          build_init_containers env base_image configuration d.init_containers is_bootstrap
      built (record {
        meta = new_meta d.name namespace none;
        spec = record {
          replicas = d.size;
          service_name = name;
          pod_management_policy = d.pod_management_policy;
          selector = selector_match_labels name d is_multi_stateful_set;
          volume_claim_templates = volume_claims;
          template_labels = template_labels name d is_multi_stateful_set;
          template_annotations = some (template_annotations config_version d);
          template = record {
            fs_group = fsgroup;
            service_account_name = d.service_account_name;
            share_process_namespace = d.share_process_namespace;
            termination_grace_period_seconds = d.termination_grace_period_seconds;
            volumes = volumes;
            containers = containers;
            init_containers = init_containers;
            hostname = d.hostname;
            subdomain = d.subdomain;
            dns_policy = d.dns_policy;
            dns_config = d.dns_config;
            host_aliases = d.host_aliases;
            topology_spread_constraints = d.topology_spread_constraint;
          };
        };
        status = record { ready_replicas = pos 0; current_revision = ""; update_revision = "" };
      })
