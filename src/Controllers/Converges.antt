-- ===== src/Controllers/Converges.antt =====
-- How often a request has to be served until it succeeds, against a cooperative server.
mod Feasible
pub use Feasible.{IsFeasible, IsFeasibleTenant}
use hbase_k8s_operator.Prelude.{
  String, ℕ, zero, suc, ◌+◌, ◌*◌, ◌<◌, ◌≡◌, refl, true, false, Bool, Bool-cases, inl, inr, none,
  List, [], ◌∷◌, ◌++◌, All, length, arith, if◌then◌else◌,
}
use hbase_k8s_operator.Api.{NamespacedName, HbaseCluster, HbaseTenant}
use hbase_k8s_operator.Kube.{hbase_clusters, hbase_tenants}
use hbase_k8s_operator.Env.{Env, Call, ok, got}
use hbase_k8s_operator.Action.{
  State, Action, Reply, ◌>>=◌, pure, finished, is_finished, succeeds, ◌or_return◌, after_get,
}
use hbase_k8s_operator.Build.Service.{build_service}
use hbase_k8s_operator.Build.StatefulSet.Complete.{IsParsable}
use hbase_k8s_operator.Reconcile.Services.{reconcile_service}
use hbase_k8s_operator.Reconcile.Validate.{validate_configuration}
use hbase_k8s_operator.Controllers.Steps.{
  is_config_enabled, validate_or_return, apply_configs, apply_deployment,
}
use hbase_k8s_operator.Controllers.Cluster.{
  deployments_of, cluster_owner, apply_cluster, reconcile_cluster, cluster_service,
  apply_namespaces, apply_cluster_deployments, cluster_config_version,
}
use hbase_k8s_operator.Controllers.Tenant.{
  tenant_owner, tenant_label, tenant_template, apply_tenant_configs, apply_tenant, reconcile_tenant,
  tenant_service, tenant_config_version,
}
use hbase_k8s_operator.Controllers.Progress.Server.{Presence, IsCooperative}
use hbase_k8s_operator.Controllers.Progress.Measure.{Want, is_consistent, left, left_bounded}
use hbase_k8s_operator.Controllers.Progress.Advance.{
  Advances, finished-Advances, or_return-Advances,
}
use hbase_k8s_operator.Controllers.Progress.Objects.{want_service, after_read}
use hbase_k8s_operator.Controllers.Progress.Rollouts.{RollsOut}
use hbase_k8s_operator.Controllers.Progress.Wants.{
  namespace_wants, deployments_wants, deployment_wants, config_wants, cluster_wants, tenant_wants,
  cluster_version_at, tenant_version_at,
}
use hbase_k8s_operator.Controllers.Progress.Parts.{
  Covers, Covers-append, Covers-self, deployment_key, own_service-Advances, apply_configs-Advances,
  validate_or_return-Advances, apply_deployment-Advances,
}
use hbase_k8s_operator.Controllers.Progress.Methods.{
  apply_namespaces-Advances, apply_cluster_deployments-Advances, cluster_config_version-Advances,
  tenant_config_version-Advances,
}

-- A request that is served up to so often, until it succeeds: the state at the end, and whether it
-- has.
unfoldable pub serve_until : Action Reply → ℕ → State → State × Bool
serve_until m zero s = (s, false)
serve_until m (suc n) s =
    let (f, t) = m s in let again = serve_until m n t in if succeeds f then (t, true) else again

-- With more turns than there is left to do, an action that makes progress succeeds.
serve_until-Advances :
    (has : Presence) (patience : ℕ) (ws : List Want) (m : Action Reply) (n : ℕ) (s : State)
    → Advances has patience ws m
    → left has patience ws s < n
    → (serve_until m n s).1 ≡ true
unfolding serve_until
serve_until-Advances has patience ws m zero s a lt = absurd (omega arith)
serve_until-Advances has patience ws m (suc n) s a lt =
    let (r, e, le, less) = a.at s in
    elim (Bool-cases (is_finished r)) [
      | inl b ↦ rw (e, b) refl
      | inr b ↦
          let p = less b in
          rw (e, b) (serve_until-Advances has patience ws m n (m s).1 a (omega arith))
    ]

module _ (env : Env) (has : Presence) (c : IsCooperative env has) (req : NamespacedName)
    (patience : ℕ) (version : String) where
  apply_cluster-Advances :
      (cluster : HbaseCluster)
      → IsFeasible env req cluster patience version
      → Advances has patience (cluster_wants env cluster version) (apply_cluster env cluster)
  unfolding apply_cluster build_service
  apply_cluster-Advances cluster f =
      let ws = cluster_wants env cluster version in
      let namespaces = cluster.spec.tenant_namespaces ++ cluster.meta.namespace ∷ [] in
      let deployments = deployments_of cluster.spec.deployments in
      let (first, rest) = Covers-self ws in
      let (configs, sets) =
        Covers-append ws (namespace_wants env cluster namespaces)
          (deployments_wants env cluster version deployments) rest in
      let second = apply_namespaces env cluster namespaces in
      let third : String → Action Reply =
        λ v. apply_cluster_deployments env cluster v deployments in
      or_return-Advances has patience ws
        (reconcile_service env cluster.meta.namespace (cluster_service env cluster))
        (validate_or_return env cluster.meta.namespace cluster.spec.configuration
          (second or_return (cluster_config_version env cluster >>= third)))
        (own_service-Advances env has c patience ws f.consistent (cluster_owner cluster)
          cluster.meta.namespace _ refl first)
        (validate_or_return-Advances env has c patience ws f.consistent _ _ _ f.valid (
          or_return-Advances has patience ws second (cluster_config_version env cluster >>= third)
            (apply_namespaces-Advances env has c patience ws f.consistent cluster namespaces
              configs)
            (cluster_config_version-Advances env has c patience ws f.consistent cluster version
              third f.same_version
              (apply_cluster_deployments-Advances env has c patience ws f.consistent cluster version
                deployments f.parses f.rolls sets))))

  -- On a server that no one else writes to, a cluster that is feasible is reconciled with success after
  -- at most two requests for each wanted object, one for its creation and one for its Update, and one
  -- for each call until the rollouts are over, and one more, whatever the state of the operator and
  -- of the server at the beginning.
  pub reconcile_cluster_converges :
      (cluster : HbaseCluster) (s : State)
      → IsFeasible env req cluster patience version
      → (serve_until
          (reconcile_cluster env req)
          (2 * length (cluster_wants env cluster version) + patience + 1)
          s).1
        ≡ true
  unfolding reconcile_cluster ◌>>=◌
  reconcile_cluster_converges cluster s f =
      let ws = cluster_wants env cluster version in
      serve_until-Advances has patience ws (reconcile_cluster env req)
        (2 * length ws + patience + 1) s
        (record {
          at = λ s. rw (f.present s.history) (
              after_read env has c patience ws f.consistent s _ _ (got hbase_clusters req)
                ((apply_cluster-Advances cluster f).at (after_get hbase_clusters req s)));
        })
        (omega (arith, left_bounded has patience ws s))

  apply_tenant-Advances :
      (tenant : HbaseTenant)
      → IsFeasibleTenant env req tenant patience version
      → Advances has patience (tenant_wants env tenant version) (apply_tenant env tenant)
  unfolding apply_tenant apply_tenant_configs build_service
  apply_tenant-Advances tenant f =
      let ws = tenant_wants env tenant version in
      let o = tenant_owner tenant in
      let configs =
        if is_config_enabled (tenant_label tenant)
        then config_wants env o tenant.meta.namespace tenant.spec.configuration
        else [] in
      let sets = deployment_wants env o (tenant_template tenant version) tenant.spec.datanode in
      let (first, (svc, rest)) =
        Covers-append ws configs (want_service env (tenant_service env tenant) ∷ sets)
          (Covers-self ws) in
      let second = reconcile_service env tenant.meta.namespace (tenant_service env tenant) in
      let third : String → Action Reply = λ v.
        second or_return apply_deployment env o (tenant_template tenant v) tenant.spec.datanode in
      or_return-Advances has patience ws (apply_tenant_configs env tenant)
        (tenant_config_version env tenant >>= third)
        (tenant_configs (is_config_enabled (tenant_label tenant)) first)
        (tenant_config_version-Advances env has c patience ws f.consistent tenant version third
          f.same_version
          (or_return-Advances has patience ws second
            (apply_deployment env o (tenant_template tenant version) tenant.spec.datanode)
            (own_service-Advances env has c patience ws f.consistent o tenant.meta.namespace _ refl
              svc)
            (apply_deployment-Advances env has c patience ws f.consistent o
              (tenant_template tenant version) tenant.spec.datanode f.parses f.rolls rest)))
    where
      tenant_configs :
          (b : Bool)
          → Covers (tenant_wants env tenant version) (
              if b
              then config_wants env
                  (tenant_owner tenant)
                  tenant.meta.namespace
                  tenant.spec.configuration
              else [])
          → Advances has patience (tenant_wants env tenant version) (
              if b
              then validate_or_return env tenant.meta.namespace tenant.spec.configuration (
                  apply_configs env
                    (tenant_owner tenant)
                    tenant.meta.namespace
                    tenant.spec.configuration)
              else pure finished)
      tenant_configs true h =
          validate_or_return-Advances env has c patience _ f.consistent _ _ _ f.valid
            (apply_configs-Advances env has c patience _ f.consistent (tenant_owner tenant) _ _ h)
      tenant_configs false h = finished-Advances has patience _

  -- On a server that no one else writes to, a tenant that is feasible is reconciled with success after
  -- at most two requests for each wanted object, one for its creation and one for its Update, and one
  -- for each call until the rollout is over, and one more, whatever the state of the operator and of
  -- the server at the beginning.
  pub reconcile_tenant_converges :
      (tenant : HbaseTenant) (s : State)
      → IsFeasibleTenant env req tenant patience version
      → (serve_until
          (reconcile_tenant env req)
          (2 * length (tenant_wants env tenant version) + patience + 1)
          s).1
        ≡ true
  unfolding reconcile_tenant ◌>>=◌
  reconcile_tenant_converges tenant s f =
      let ws = tenant_wants env tenant version in
      serve_until-Advances has patience ws (reconcile_tenant env req) (2 * length ws + patience + 1)
        s
        (record {
          at = λ s. rw (f.present s.history) (
              after_read env has c patience ws f.consistent s _ _ (got hbase_tenants req)
                ((apply_tenant-Advances tenant f).at (after_get hbase_tenants req s)));
        })
        (omega (arith, left_bounded has patience ws s))
