-- ===== src/Controllers/Progress/Wants.antt =====
-- The objects that a cluster and a tenant ask for, in the order in which Reconcile gets to them, each
-- with its owner.
use hbase_k8s_operator.Prelude.{
  String, ◌⧺◌, ℕ, zero, suc, ◌+◌, rounds, Bool, false, none, some, Option, List, [], ◌∷◌, ◌++◌,
  if◌then◌else◌,
}
use hbase_k8s_operator.GoMap.{entries, lookup}
use hbase_k8s_operator.Api.{
  HbaseCluster, HbaseTenant, HbaseClusterDeployment, HbaseClusterConfiguration, NamespacedName,
}
use hbase_k8s_operator.Kube.{ConfigMap, Service, StatefulSet, PodDisruptionBudget}
use hbase_k8s_operator.Env.{Env, Call}
use hbase_k8s_operator.Build.Outcome.{Outcome, built, invalid, panic}
use hbase_k8s_operator.Build.ConfigMap.{build_config_map}
use hbase_k8s_operator.Build.Service.{build_service}
use hbase_k8s_operator.Build.StatefulSet.{build_stateful_set, deployment_after}
use hbase_k8s_operator.Build.Pdb.{build_pod_disruption_budget}
use hbase_k8s_operator.Reconcile.Annotations.{version_if_v2, annotation_or_empty}
use hbase_k8s_operator.Controllers.Steps.{
  reconcile_config_label, is_restart_enabled, is_config_enabled, Owner, Template, own_service,
  own_config_map, own_stateful_set, own_pdb,
}
use hbase_k8s_operator.Controllers.Cluster.{
  cluster_owner, cluster_template, cluster_service, deployments_of,
}
use hbase_k8s_operator.Controllers.Tenant.{
  tenant_owner, tenant_template, tenant_service, tenant_label,
}
use hbase_k8s_operator.Controllers.Progress.Measure.{Want}
use hbase_k8s_operator.Controllers.Progress.Objects.{
  want_service, want_config_map, want_stateful_set, want_pdb,
}

module _ (env : Env) where
  abbrev pub hbase_config_map : Owner → String → HbaseClusterConfiguration → ConfigMap
  hbase_config_map o namespace c =
      own_config_map env o
        (build_config_map c.hbase_config_name namespace c.hbase_config c.hbase_tenant_config)

  abbrev pub hadoop_config_map : Owner → String → HbaseClusterConfiguration → ConfigMap
  hadoop_config_map o namespace c =
      own_config_map env o
        (build_config_map c.hadoop_config_name namespace c.hadoop_config c.hadoop_tenant_config)

  abbrev pub config_wants : Owner → String → HbaseClusterConfiguration → List Want
  config_wants o namespace c =
      want_config_map env (hbase_config_map o namespace c)
      ∷ want_config_map env (hadoop_config_map o namespace c)
      ∷ []

  abbrev pub namespace_wants : HbaseCluster → List String → List Want
  namespace_wants cluster [] = []
  namespace_wants cluster (n ∷ ns) =
      config_wants (cluster_owner cluster) n cluster.spec.configuration
      ++ namespace_wants cluster ns

  -- The service of the pod with this index.
  abbrev pub pod_service : HbaseCluster → HbaseClusterDeployment → ℕ → Service
  pod_service cluster d index = own_service env (cluster_owner cluster) (
      build_service (d.name ⧺ ("-" ⧺ env.itoa index)) cluster.meta.name cluster.meta.namespace none
        none (d ∷ []) false)

  abbrev pub pod_wants : HbaseCluster → HbaseClusterDeployment → ℕ → ℕ → List Want
  pod_wants cluster d index zero = []
  pod_wants cluster d index (suc left) =
      want_service env (pod_service cluster d index) ∷ pod_wants cluster d (index + 1) left

  abbrev pub stateful_set_wants : Owner → Outcome StatefulSet → List Want
  stateful_set_wants o (built ss) = want_stateful_set env (own_stateful_set env o ss) ∷ []
  stateful_set_wants o (invalid message) = []
  stateful_set_wants o panic = []

  abbrev pub pdb_wants : Owner → Option PodDisruptionBudget → List Want
  pdb_wants o none = []
  pdb_wants o (some pdb) = want_pdb env (own_pdb env o pdb) ∷ []

  abbrev pub deployment_wants : Owner → Template → HbaseClusterDeployment → List Want
  deployment_wants o t d =
      stateful_set_wants o (
        build_stateful_set env o.meta.name o.meta.namespace t.base_image t.is_bootstrap
          t.configuration t.config_version t.fs_group d t.is_multi_stateful_set)
      ++ pdb_wants o (
          build_pod_disruption_budget o.meta.name o.meta.namespace
            (deployment_after o.meta.name t.config_version t.is_multi_stateful_set d))

  abbrev pub deployments_wants : HbaseCluster → String → List HbaseClusterDeployment → List Want
  deployments_wants cluster version [] = []
  deployments_wants cluster version (d ∷ ds) =
      ((if d.is_pod_service_required then pod_wants cluster d 0 (rounds d.size) else [])
        ++ deployment_wants (cluster_owner cluster) (cluster_template cluster version) d)
      ++ deployments_wants cluster version ds

  abbrev pub cluster_wants : HbaseCluster → String → List Want
  cluster_wants cluster version =
      want_service env (cluster_service env cluster)
        ∷ namespace_wants cluster (cluster.spec.tenant_namespaces ++ cluster.meta.namespace ∷ [])
      ++ deployments_wants cluster version (deployments_of cluster.spec.deployments)

  abbrev pub tenant_wants : HbaseTenant → String → List Want
  tenant_wants tenant version =
      (if is_config_enabled (tenant_label tenant)
        then config_wants (tenant_owner tenant) tenant.meta.namespace tenant.spec.configuration
        else [])
      ++ (want_service env (tenant_service env tenant)
          ∷ deployment_wants (tenant_owner tenant) (tenant_template tenant version)
              tenant.spec.datanode)

  -- The config version that a Get reads after these calls: from the config map if restarts are enabled,
  -- else from the StatefulSet.
  abbrev pub version_at : Bool → NamespacedName → NamespacedName → List Call → String
  version_at enabled config_map stateful_set h =
      if enabled
      then version_if_v2 (env.config_maps.get h config_map)
      else annotation_or_empty (env.stateful_sets.get h stateful_set)

  abbrev pub cluster_version_at : HbaseCluster → List Call → String
  cluster_version_at cluster =
      version_at
        (is_restart_enabled (lookup reconcile_config_label (entries cluster.spec.service_labels)))
        (record {
          name = cluster.spec.configuration.hbase_config_name;
          namespace = cluster.meta.namespace;
        })
        (record {
          name = cluster.spec.deployments.datanode.name;
          namespace = cluster.meta.namespace;
        })

  abbrev pub tenant_version_at : HbaseTenant → List Call → String
  tenant_version_at tenant =
      version_at (is_restart_enabled (tenant_label tenant))
        (record {
          name = tenant.spec.configuration.hbase_config_name;
          namespace = tenant.meta.namespace;
        })
        (record { name = tenant.spec.datanode.name; namespace = tenant.meta.namespace })
