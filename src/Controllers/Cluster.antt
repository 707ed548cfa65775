-- ===== src/Controllers/Cluster.antt =====
-- operator/controllers/hbasecluster_controller.go: Reconcile of HbaseCluster.
use hbase_k8s_operator.Prelude.{
  String, ◌⧺◌, ℕ, zero, suc, ◌+◌, pos, eq_ℤ, rounds, none, List, [], ◌∷◌, ◌++◌, false, true,
  if◌then◌else◌,
}
use hbase_k8s_operator.GoMap.{entries, lookup}
use hbase_k8s_operator.Api.{
  NamespacedName, HbaseCluster, HbaseClusterDeployment, HbaseClusterDeployments,
}
use hbase_k8s_operator.Kube.{Service, hbase_clusters}
use hbase_k8s_operator.Env.{Env, ok, err, got}
use hbase_k8s_operator.Action.{Action, Reply, ◌>>=◌, pure, call, finished, failed_in_5, ◌or_return◌}
use hbase_k8s_operator.Build.Service.{build_service}
use hbase_k8s_operator.Reconcile.Annotations.{
  get_cfg_resource_version_if_v2_or_nil, get_existing_annotation_of_cluster_stateful_set,
}
use hbase_k8s_operator.Reconcile.Services.{reconcile_service}
use hbase_k8s_operator.Controllers.Steps.{
  reconcile_config_label, is_restart_enabled, Owner, own_service, validate_or_return, apply_configs,
  Template, apply_deployment,
}

-- The deployments in the order in which they are reconciled; Zookeeper only if it has a size.
unfoldable pub deployments_of : HbaseClusterDeployments → List HbaseClusterDeployment
deployments_of ds =
    let others = ds.journalnode ∷ ds.namenode ∷ ds.datanode ∷ ds.hmaster ∷ [] in
    if eq_ℤ ds.zookeeper.size (pos 0) then others else ds.zookeeper ∷ others

abbrev pub cluster_owner : HbaseCluster → Owner
cluster_owner cluster = record { kind = hbase_clusters; meta = cluster.meta }

-- for _, namespace := range namespaces
unfoldable pub apply_namespaces : Env → HbaseCluster → List String → Action Reply
unfolding ◌or_return◌
apply_namespaces env cluster [] = pure finished
apply_namespaces env cluster (namespace ∷ rest) =
    apply_configs env (cluster_owner cluster) namespace cluster.spec.configuration
    or_return apply_namespaces env cluster rest

-- The config version that goes into the pod templates.
unfoldable pub cluster_config_version : Env → HbaseCluster → Action String
cluster_config_version env cluster =
    if is_restart_enabled (lookup reconcile_config_label (entries cluster.spec.service_labels))
    then get_cfg_resource_version_if_v2_or_nil env cluster.spec.configuration.hbase_config_name
        cluster.meta.namespace
    else get_existing_annotation_of_cluster_stateful_set env cluster

-- `for index < d.Size`, with the rounds that are left
unfoldable pub apply_pod_services :
    Env → HbaseCluster → HbaseClusterDeployment → ℕ → ℕ → Action Reply
unfolding ◌or_return◌
apply_pod_services env cluster d index zero = pure finished
apply_pod_services env cluster d index (suc left) =
    reconcile_service env cluster.meta.namespace (
      own_service env (cluster_owner cluster) (
        build_service (d.name ⧺ ("-" ⧺ env.itoa index)) cluster.meta.name cluster.meta.namespace
          none none (d ∷ []) false))
    or_return apply_pod_services env cluster d (index + 1) left

abbrev pub cluster_template : HbaseCluster → String → Template
cluster_template cluster config_version = record {
  base_image = cluster.spec.base_image;
  is_bootstrap = cluster.spec.is_bootstrap;
  configuration = cluster.spec.configuration;
  config_version = config_version;
  fs_group = cluster.spec.fs_group;
  is_multi_stateful_set = true;
}

-- The body of `for _, d := range deployments`.
unfoldable pub apply_cluster_deployment :
    Env → HbaseCluster → String → HbaseClusterDeployment → Action Reply
unfolding ◌or_return◌
apply_cluster_deployment env cluster config_version d =
    (if d.is_pod_service_required
      then apply_pod_services env cluster d 0 (rounds d.size)
      else pure finished)
    or_return apply_deployment env (cluster_owner cluster) (cluster_template cluster config_version)
        d

unfoldable pub apply_cluster_deployments :
    Env → HbaseCluster → String → List HbaseClusterDeployment → Action Reply
unfolding ◌or_return◌
apply_cluster_deployments env cluster config_version [] = pure finished
apply_cluster_deployments env cluster config_version (d ∷ ds) =
    apply_cluster_deployment env cluster config_version d
    or_return apply_cluster_deployments env cluster config_version ds

-- The service of the whole cluster.
abbrev pub cluster_service : Env → HbaseCluster → Service
cluster_service env cluster = own_service env (cluster_owner cluster) (
    build_service cluster.meta.name cluster.meta.name cluster.meta.namespace
      cluster.spec.service_labels cluster.spec.service_selector_labels
      (deployments_of cluster.spec.deployments) true)

-- Reconcile once the resource has been read.
unfoldable pub apply_cluster : Env → HbaseCluster → Action Reply
unfolding ◌>>=◌ ◌or_return◌
apply_cluster env cluster =
    let deployments = deployments_of cluster.spec.deployments in
    reconcile_service env cluster.meta.namespace (cluster_service env cluster)
    or_return validate_or_return env cluster.meta.namespace cluster.spec.configuration (
        apply_namespaces env cluster (cluster.spec.tenant_namespaces ++ cluster.meta.namespace ∷ [])
        or_return (cluster_config_version env cluster >>= λ config_version.
            apply_cluster_deployments env cluster config_version deployments))

-- HbaseClusterReconciler.Reconcile
unfoldable pub reconcile_cluster : Env → NamespacedName → Action Reply
unfolding ◌>>=◌
reconcile_cluster env req =
    call (got hbase_clusters req) (λ h. env.get_hbase_cluster h req) >>= λ answer. elim answer [
      | ok cluster ↦ apply_cluster env cluster
      | err e ↦ if e.is_not_found then pure finished else pure (failed_in_5 e)
    ]
