-- ===== src/Examples/Carried.antt =====
-- A tenant and a cluster whose StatefulSets have the config version "7".
use hbase_k8s_operator.Prelude.{◌≡◌, refl, inl, false}
use hbase_k8s_operator.GoMap.{lookup, entries}
use hbase_k8s_operator.Kube.{StatefulSet}
use hbase_k8s_operator.Env.{Env, ok}
use hbase_k8s_operator.Action.{done, start}
use hbase_k8s_operator.Build.Outcome.{Outcome, built, invalid, panic, collect}
use hbase_k8s_operator.Build.StatefulSet.{build_stateful_set}
use hbase_k8s_operator.Build.Volumes.{build_volumes, build_volume_claims}
use hbase_k8s_operator.Build.Containers.{build_containers, build_init_containers}
use hbase_k8s_operator.Reconcile.Annotations.{get_stateful_set_annotation}
use hbase_k8s_operator.Controllers.Steps.{is_restart_enabled, reconcile_config_label}
use hbase_k8s_operator.Controllers.Cluster.{cluster_owner, cluster_template, cluster_config_version}
use hbase_k8s_operator.Controllers.Tenant.{
  tenant_label, tenant_owner, tenant_template, tenant_config_version,
}
use hbase_k8s_operator.Controllers.CarryOver.{
  built_for, get_stateful_set_annotation-build_stateful_set, tenant_config_version-kept,
  cluster_config_version-kept,
}
use hbase_k8s_operator.Examples.World.{world, workload, cluster, tenant}

abbrev built_or : StatefulSet → Outcome StatefulSet → StatefulSet
built_or ss (built a) = a
built_or ss (invalid message) = ss
built_or ss panic = ss

abbrev tenant_set : StatefulSet
tenant_set =
    built_or workload
      (built_for world (tenant_owner tenant) (tenant_template tenant "7") tenant.spec.datanode)

abbrev cluster_set : StatefulSet
cluster_set = built_or workload (
    built_for world (cluster_owner cluster) (cluster_template cluster "7")
      cluster.spec.deployments.datanode)

-- A server that answers with the given StatefulSet.
abbrev with_set : StatefulSet → Env
with_set ss = record world { stateful_sets = record (world.stateful_sets) { get = λ h key. ok ss } }

tenant_built :
    built_for
      (with_set tenant_set)
      (tenant_owner tenant)
      (tenant_template tenant "7")
      tenant.spec.datanode
    ≡ built tenant_set
unfolding build_stateful_set build_volumes build_volume_claims build_containers
    build_init_containers collect
tenant_built = refl

cluster_built :
    built_for
      (with_set cluster_set)
      (cluster_owner cluster)
      (cluster_template cluster "7")
      cluster.spec.deployments.datanode
    ≡ built cluster_set
unfolding build_stateful_set build_volumes build_volume_claims build_containers
    build_init_containers collect
cluster_built = refl

no_restart : is_restart_enabled (tenant_label tenant) ≡ false
unfolding is_restart_enabled lookup
no_restart = refl

no_cluster_restart :
    is_restart_enabled (lookup reconcile_config_label (entries cluster.spec.service_labels)) ≡ false
unfolding is_restart_enabled lookup
no_cluster_restart = refl

get_stateful_set_annotation-build_stateful_set_example :
    (get_stateful_set_annotation (with_set tenant_set) "dn" "ns" start).0 ≡ done "7"
get_stateful_set_annotation-build_stateful_set_example =
    get_stateful_set_annotation-build_stateful_set (with_set tenant_set) (tenant_owner tenant)
      (tenant_template tenant "7") tenant.spec.datanode "dn" "ns" start tenant_set tenant_set
      tenant_built refl refl (inl refl)

tenant_config_version-kept_example :
    (tenant_config_version (with_set tenant_set) tenant start).0 ≡ done "7"
tenant_config_version-kept_example =
    tenant_config_version-kept (with_set tenant_set) tenant "7" start tenant_set tenant_set
      no_restart tenant_built refl refl (inl refl)

cluster_config_version-kept_example :
    (cluster_config_version (with_set cluster_set) cluster start).0 ≡ done "7"
cluster_config_version-kept_example =
    cluster_config_version-kept (with_set cluster_set) cluster "7" start cluster_set cluster_set
      no_cluster_restart cluster_built refl refl (inl refl)
