-- ===== src/Reconcile/Annotations.antt =====
-- operator/controllers/utils.go: getConfigMap, getCfgResourceVersionIfV2OrNil and the functions that
-- read the config version back from a StatefulSet.
use hbase_k8s_operator.Prelude.{String, none, some}
use hbase_k8s_operator.GoMap.{entries, lookup}
use hbase_k8s_operator.Api.{NamespacedName, HbaseTenant, HbaseCluster}
use hbase_k8s_operator.Kube.{ConfigMap, StatefulSet, config_maps, stateful_sets}
use hbase_k8s_operator.Env.{Env, Answer, ok, err, got}
use hbase_k8s_operator.Action.{Action, ◌>>=◌, pure, call}
use hbase_k8s_operator.Build.ConfigMap.{text_or_empty}
use hbase_k8s_operator.Build.StatefulSet.{stateful_set_v2_annotation}

abbrev pub cfg_v2_annotation : String
cfg_v2_annotation = "hbase-operator/update-time"

unfoldable pub get_config_map : Env → String → String → Action (Answer ConfigMap)
get_config_map env config_map_name namespace_name =
    let key : NamespacedName = record { name = config_map_name; namespace = namespace_name } in
    call (got config_maps key) (λ h. env.config_maps.get h key)

-- The resource version, if the annotation exists.
abbrev pub version_if_v2 : Answer ConfigMap → String
version_if_v2 (err e) = ""
version_if_v2 (ok cfg) = elim (lookup cfg_v2_annotation (entries cfg.meta.annotations)) [
  | none ↦ ""
  | some _ ↦ cfg.meta.resource_version
]

unfoldable pub get_cfg_resource_version_if_v2_or_nil : Env → String → String → Action String
unfolding ◌>>=◌ get_config_map
get_cfg_resource_version_if_v2_or_nil env config_map_name namespace_name = do
  found ← get_config_map env config_map_name namespace_name
  pure (version_if_v2 found)

abbrev pub annotation_or_empty : Answer StatefulSet → String
annotation_or_empty (err e) = ""
annotation_or_empty (ok ss) =
    text_or_empty (lookup stateful_set_v2_annotation (entries ss.spec.template_annotations))

unfoldable pub get_stateful_set_annotation : Env → String → String → Action String
unfolding ◌>>=◌
get_stateful_set_annotation env stateful_set_name namespace =
    let key : NamespacedName = record { name = stateful_set_name; namespace = namespace } in
    call (got stateful_sets key) (λ h. env.stateful_sets.get h key) >>= λ existing.
    pure (annotation_or_empty existing)

unfoldable pub get_existing_annotation_of_stateful_set : Env → HbaseTenant → Action String
get_existing_annotation_of_stateful_set env tenant =
    get_stateful_set_annotation env tenant.spec.datanode.name tenant.meta.namespace

unfoldable pub get_existing_annotation_of_cluster_stateful_set : Env → HbaseCluster → Action String
get_existing_annotation_of_cluster_stateful_set env cluster =
    get_stateful_set_annotation env cluster.spec.deployments.datanode.name cluster.meta.namespace
