-- ===== src/Controllers/Converges/Feasible.antt =====
-- Custom resources that can be reconciled with success.
use hbase_k8s_operator.Prelude.{String, ℕ, ◌≡◌, true, false, none, List, All}
use hbase_k8s_operator.Api.{NamespacedName, HbaseCluster, HbaseTenant}
use hbase_k8s_operator.Env.{Env, Call, ok}
use hbase_k8s_operator.Build.StatefulSet.Complete.{IsParsable}
use hbase_k8s_operator.Reconcile.Validate.{validate_configuration}
use hbase_k8s_operator.Controllers.Cluster.{deployments_of, cluster_owner}
use hbase_k8s_operator.Controllers.Tenant.{tenant_owner}
use hbase_k8s_operator.Controllers.Progress.Measure.{is_consistent}
use hbase_k8s_operator.Controllers.Progress.Rollouts.{RollsOut}
use hbase_k8s_operator.Controllers.Progress.Wants.{
  cluster_wants, tenant_wants, cluster_version_at, tenant_version_at,
}
use hbase_k8s_operator.Controllers.Progress.Parts.{deployment_key}

-- What a cluster needs to succeed, beside a cooperative server: it stays as it is, its configuration is
-- valid and its quantities parse, its rollouts are over after `patience` calls, the config version
-- that is read stays the same, and its objects do not contend for entries of the hash store.
pub record IsFeasible (env : Env) (req : NamespacedName) (cluster : HbaseCluster) (patience : ℕ)
    (version : String) : Type 0 where
  pub present : (h : List Call) → env.get_hbase_cluster h req ≡ ok cluster
  pub valid : validate_configuration env cluster.spec.configuration ≡ none
  pub parses :
      All
        (λ d. IsParsable env d cluster.spec.is_bootstrap)
        (deployments_of cluster.spec.deployments)
  pub rolls :
      All
        (λ d. RollsOut env patience d (deployment_key (cluster_owner cluster) d))
        (deployments_of cluster.spec.deployments)
  pub same_version : (h : List Call) → cluster_version_at env cluster h ≡ version
  pub consistent :
      is_consistent (cluster_wants env cluster version) (cluster_wants env cluster version) ≡ true

-- The same of a tenant.
pub record IsFeasibleTenant (env : Env) (req : NamespacedName) (tenant : HbaseTenant) (patience : ℕ)
    (version : String) : Type 0 where
  pub present : (h : List Call) → env.get_hbase_tenant h req ≡ ok tenant
  pub valid : validate_configuration env tenant.spec.configuration ≡ none
  pub parses : IsParsable env tenant.spec.datanode false
  pub rolls :
      RollsOut env patience tenant.spec.datanode
        (deployment_key (tenant_owner tenant) tenant.spec.datanode)
  pub same_version : (h : List Call) → tenant_version_at env tenant h ≡ version
  pub consistent :
      is_consistent (tenant_wants env tenant version) (tenant_wants env tenant version) ≡ true
