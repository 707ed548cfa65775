-- ===== src/Controllers/Progress/Methods.antt =====
-- Reconcile of a cluster and of a tenant makes progress on a cooperative server.
use hbase_k8s_operator.Prelude.{
  String, ℕ, zero, suc, ◌+◌, ◌≡◌, refl, true, false, Bool, Bool-cases, inl, inr, rounds, List, [],
  ◌∷◌, ◌++◌, All, if◌then◌else◌,
}
use hbase_k8s_operator.GoMap.{entries, lookup}
use hbase_k8s_operator.Api.{HbaseCluster, HbaseTenant, HbaseClusterDeployment}
use hbase_k8s_operator.Kube.{config_maps, stateful_sets}
use hbase_k8s_operator.Env.{Env, Call, got}
use hbase_k8s_operator.Action.{Action, Reply, ◌>>=◌, pure, finished}
use hbase_k8s_operator.Build.Service.{build_service}
use hbase_k8s_operator.Build.StatefulSet.Complete.{IsParsable}
use hbase_k8s_operator.Reconcile.Annotations.{
  get_cfg_resource_version_if_v2_or_nil, get_stateful_set_annotation,
  get_existing_annotation_of_cluster_stateful_set, get_existing_annotation_of_stateful_set,
}
use hbase_k8s_operator.Controllers.Steps.{reconcile_config_label, is_restart_enabled}
use hbase_k8s_operator.Controllers.Cluster.{
  cluster_owner, cluster_template, cluster_config_version, apply_namespaces, apply_pod_services,
  apply_cluster_deployment, apply_cluster_deployments,
}
use hbase_k8s_operator.Controllers.Tenant.{tenant_label, tenant_config_version}
use hbase_k8s_operator.Controllers.Progress.Server.{Presence, IsCooperative}
use hbase_k8s_operator.Controllers.Progress.Measure.{Want, is_consistent}
use hbase_k8s_operator.Controllers.Progress.Advance.{
  Advances, finished-Advances, or_return-Advances,
}
use hbase_k8s_operator.Controllers.Progress.Objects.{after_read}
use hbase_k8s_operator.Controllers.Progress.Rollouts.{RollsOut}
use hbase_k8s_operator.Controllers.Progress.Wants.{
  namespace_wants, pod_wants, deployments_wants, deployment_wants, cluster_version_at,
  tenant_version_at, config_wants,
}
use hbase_k8s_operator.Controllers.Progress.Parts.{
  Covers, Covers-append, deployment_key, own_service-Advances, apply_configs-Advances,
  apply_deployment-Advances,
}

module _ (env : Env) (has : Presence) (c : IsCooperative env has) (patience : ℕ) (ws : List Want)
    (consistent : is_consistent ws ws ≡ true) where
  pub apply_namespaces-Advances :
      (cluster : HbaseCluster) (ns : List String)
      → Covers ws (namespace_wants env cluster ns)
      → Advances has patience ws (apply_namespaces env cluster ns)
  unfolding apply_namespaces
  apply_namespaces-Advances cluster [] h = finished-Advances has patience ws
  apply_namespaces-Advances cluster (n ∷ ns) h =
      let (first, rest) =
        Covers-append ws (config_wants env (cluster_owner cluster) n cluster.spec.configuration)
          (namespace_wants env cluster ns) h in
      or_return-Advances has patience ws _ _
        (apply_configs-Advances env has c patience ws consistent _ n _ first)
        (apply_namespaces-Advances cluster ns rest)

  apply_pod_services-Advances :
      (cluster : HbaseCluster) (d : HbaseClusterDeployment) (index left : ℕ)
      → Covers ws (pod_wants env cluster d index left)
      → Advances has patience ws (apply_pod_services env cluster d index left)
  unfolding apply_pod_services build_service
  apply_pod_services-Advances cluster d index zero h = finished-Advances has patience ws
  apply_pod_services-Advances cluster d index (suc left) (h, hs) =
      or_return-Advances has patience ws _ _
        (own_service-Advances env has c patience ws consistent (cluster_owner cluster) _ _ refl h)
        (apply_pod_services-Advances cluster d (index + 1) left hs)

  apply_cluster_deployment-Advances :
      (cluster : HbaseCluster) (version : String) (d : HbaseClusterDeployment)
      → IsParsable env d cluster.spec.is_bootstrap
      → RollsOut env patience d (deployment_key (cluster_owner cluster) d)
      → Covers ws
          (if d.is_pod_service_required then pod_wants env cluster d 0 (rounds d.size) else [])
      → Covers ws
          (deployment_wants env (cluster_owner cluster) (cluster_template cluster version) d)
      → Advances has patience ws (apply_cluster_deployment env cluster version d)
  unfolding apply_cluster_deployment
  apply_cluster_deployment-Advances cluster version d parses rolls pods rest =
      or_return-Advances has patience ws _ _ (pod_services d.is_pod_service_required pods) (
        apply_deployment-Advances env has c patience ws consistent (cluster_owner cluster)
          (cluster_template cluster version) d parses rolls rest)
    where
      pod_services :
          (b : Bool)
          → Covers ws (if b then pod_wants env cluster d 0 (rounds d.size) else [])
          → Advances has patience ws
              (if b then apply_pod_services env cluster d 0 (rounds d.size) else pure finished)
      pod_services true h = apply_pod_services-Advances cluster d 0 (rounds d.size) h
      pod_services false h = finished-Advances has patience ws

  pub apply_cluster_deployments-Advances :
      (cluster : HbaseCluster) (version : String) (ds : List HbaseClusterDeployment)
      → All (λ d. IsParsable env d cluster.spec.is_bootstrap) ds
      → All (λ d. RollsOut env patience d (deployment_key (cluster_owner cluster) d)) ds
      → Covers ws (deployments_wants env cluster version ds)
      → Advances has patience ws (apply_cluster_deployments env cluster version ds)
  unfolding apply_cluster_deployments
  apply_cluster_deployments-Advances cluster version [] parses rolls h =
      finished-Advances has patience ws
  apply_cluster_deployments-Advances cluster version (d ∷ ds) (parses, ps) (rolls, rs) h =
      let pods =
        if d.is_pod_service_required then pod_wants env cluster d 0 (rounds d.size) else [] in
      let sets =
        deployment_wants env (cluster_owner cluster) (cluster_template cluster version) d in
      let (first, rest) =
        Covers-append ws (pods ++ sets) (deployments_wants env cluster version ds) h in
      let (p, q) = Covers-append ws pods sets first in
      or_return-Advances has patience ws _ _
        (apply_cluster_deployment-Advances cluster version d parses rolls p q)
        (apply_cluster_deployments-Advances cluster version ds ps rs rest)

  -- Reading the config version, which is this one.
  pub cluster_config_version-Advances :
      (cluster : HbaseCluster) (version : String) (k : String → Action Reply)
      → ((h : List Call) → cluster_version_at env cluster h ≡ version)
      → Advances has patience ws (k version)
      → Advances has patience ws (cluster_config_version env cluster >>= k)
  unfolding cluster_config_version get_cfg_resource_version_if_v2_or_nil
      get_existing_annotation_of_cluster_stateful_set get_stateful_set_annotation ◌>>=◌
  cluster_config_version-Advances cluster version k stable m =
      elim (Bool-cases (
        is_restart_enabled (lookup reconcile_config_label (entries cluster.spec.service_labels)))) [
          | inl e ↦ record {
            at = λ s.
                let e' = rw e at stable s.history in
                rw (e, e')
                  (after_read env has c patience ws consistent s _ _ (got config_maps _) (m.at _));
          }
          | inr e ↦ record {
            at = λ s.
                let e' = rw e at stable s.history in
                rw (e, e')
                  (after_read env has c patience ws consistent s _ _ (got stateful_sets _)
                    (m.at _));
          }
        ]

  pub tenant_config_version-Advances :
      (tenant : HbaseTenant) (version : String) (k : String → Action Reply)
      → ((h : List Call) → tenant_version_at env tenant h ≡ version)
      → Advances has patience ws (k version)
      → Advances has patience ws (tenant_config_version env tenant >>= k)
  unfolding tenant_config_version get_cfg_resource_version_if_v2_or_nil
      get_existing_annotation_of_stateful_set get_stateful_set_annotation ◌>>=◌
  tenant_config_version-Advances tenant version k stable m =
      elim (Bool-cases (is_restart_enabled (tenant_label tenant))) [
        | inl e ↦ record {
          at = λ s.
              let e' = rw e at stable s.history in
              rw (e, e')
                (after_read env has c patience ws consistent s _ _ (got config_maps _) (m.at _));
        }
        | inr e ↦ record {
          at = λ s.
              let e' = rw e at stable s.history in
              rw (e, e')
                (after_read env has c patience ws consistent s _ _ (got stateful_sets _) (m.at _));
        }
      ]
