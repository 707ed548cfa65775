-- ===== src/Controllers/Calls/Methods.antt =====
-- How many calls of the client the Reconcile methods of a cluster and a tenant make.
use hbase_k8s_operator.Prelude.{
  String, ℕ, zero, suc, ◌+◌, ◌*◌, ◌≡◌, refl, true, Bool, false, inl, inr, length, length-append,
  arith, if◌then◌else◌, List, [], ◌∷◌, ◌++◌, rounds,
}
use hbase_k8s_operator.Api.{NamespacedName, HbaseCluster, HbaseTenant, HbaseClusterDeployment}
use hbase_k8s_operator.Kube.{hbase_clusters, hbase_tenants}
use hbase_k8s_operator.Env.{Env, ok, Answer-cases}
use hbase_k8s_operator.Action.{State, Action, done, Reply, pure, finished, ◌>>=◌, after_get}
use hbase_k8s_operator.Reconcile.Annotations.{
  get_config_map, get_cfg_resource_version_if_v2_or_nil, get_stateful_set_annotation,
  get_existing_annotation_of_stateful_set, get_existing_annotation_of_cluster_stateful_set,
}
use hbase_k8s_operator.Controllers.Steps.{validate_or_return, apply_configs, is_config_enabled}
use hbase_k8s_operator.Controllers.Cluster.{
  deployments_of, apply_namespaces, cluster_config_version, apply_pod_services,
  apply_cluster_deployment, apply_cluster_deployments, apply_cluster, reconcile_cluster,
}
use hbase_k8s_operator.Controllers.Tenant.{
  tenant_label, apply_tenant_configs, tenant_config_version, apply_tenant, reconcile_tenant,
  tenant_owner,
}
use hbase_k8s_operator.Controllers.Calls.Cost.{
  Spent, Spent-call, Costs, finished-Costs, Costs-more, or_return-Costs,
}
use hbase_k8s_operator.Controllers.Calls.Parts.{
  reconcile_service-Costs, apply_configs-Costs, validate_or_return-Costs, apply_deployment-Costs,
}

-- Two calls for each pod service, which may have to be created, and one to read the StatefulSet and
-- one to read the budget: where either is created or updated, the reconciliation does not go on.
abbrev pub deployment_calls : HbaseClusterDeployment → ℕ
deployment_calls d = (if d.is_pod_service_required then 2 * rounds d.size else 0) + 2

abbrev pub deployments_calls : List HbaseClusterDeployment → ℕ
deployments_calls [] = 0
deployments_calls (d ∷ ds) = deployment_calls d + deployments_calls ds

-- Reading the resource, its service, four calls for the config maps of a namespace, reading the
-- config version, and the deployments.
abbrev pub cluster_calls : HbaseCluster → ℕ
cluster_calls cluster =
    4
    + 4 * (length cluster.spec.tenant_namespaces + 1)
    + deployments_calls (deployments_of cluster.spec.deployments)

module _ (env : Env) where
  apply_namespaces-Costs :
      (cluster : HbaseCluster) (namespaces : List String)
      → Costs
          (4 * length namespaces)
          (4 * length namespaces)
          (apply_namespaces env cluster namespaces)
  unfolding apply_namespaces
  apply_namespaces-Costs cluster [] = finished-Costs 0 0
  apply_namespaces-Costs cluster (n ∷ ns) =
      let l = 4 * length ns in
      Costs-more (4 + l) (4 + l) (4 * suc (length ns)) (4 * suc (length ns))
        (or_return-Costs 4 4 l l (4 + l) (omega arith) (omega arith) _ _
          (apply_configs-Costs env _ n _) (apply_namespaces-Costs cluster ns))
        (omega arith) (omega arith)

  apply_pod_services-Costs :
      (cluster : HbaseCluster) (d : HbaseClusterDeployment) (index left : ℕ)
      → Costs (2 * left) (2 * left + 2) (apply_pod_services env cluster d index left)
  unfolding apply_pod_services
  apply_pod_services-Costs cluster d index zero = finished-Costs 0 2
  apply_pod_services-Costs cluster d index (suc left) =
      let l = 2 * left in
      Costs-more (2 + l) (l + 4) (2 * suc left) (2 * suc left + 2)
        (or_return-Costs 2 4 l (l + 2) (l + 4) (omega arith) (omega arith) _ _
          (reconcile_service-Costs env _ _) (apply_pod_services-Costs cluster d (index + 1) left))
        (omega arith) (omega arith)

  pod_services-Costs :
      (cluster : HbaseCluster) (d : HbaseClusterDeployment) (b : Bool)
      → Costs
          (if b then 2 * rounds d.size else 0)
          ((if b then 2 * rounds d.size else 0) + 2)
          (if b then apply_pod_services env cluster d 0 (rounds d.size) else pure finished)
  pod_services-Costs cluster d true = apply_pod_services-Costs cluster d 0 (rounds d.size)
  pod_services-Costs cluster d false = finished-Costs 0 2

  apply_cluster_deployment-Costs :
      (cluster : HbaseCluster) (version : String) (d : HbaseClusterDeployment)
      → Costs
          (deployment_calls d)
          (deployment_calls d + 1)
          (apply_cluster_deployment env cluster version d)
  unfolding apply_cluster_deployment
  apply_cluster_deployment-Costs cluster version d =
      let l = if d.is_pod_service_required then 2 * rounds d.size else 0 in
      or_return-Costs l (l + 2) 2 3 (l + 2 + 1) (omega arith) (omega arith) _ _
        (pod_services-Costs cluster d d.is_pod_service_required) (apply_deployment-Costs env _ _ d)

  apply_cluster_deployments-Costs :
      (cluster : HbaseCluster) (version : String) (ds : List HbaseClusterDeployment)
      → Costs
          (deployments_calls ds)
          (deployments_calls ds + 1)
          (apply_cluster_deployments env cluster version ds)
  unfolding apply_cluster_deployments
  apply_cluster_deployments-Costs cluster version [] = finished-Costs 0 1
  apply_cluster_deployments-Costs cluster version (d ∷ ds) =
      let a = deployment_calls d in
      let b = deployments_calls ds in
      or_return-Costs a (a + 1) b (b + 1) (a + b + 1) (omega arith) (omega arith) _ _
        (apply_cluster_deployment-Costs cluster version d)
        (apply_cluster_deployments-Costs cluster version ds)

  -- One call that gives a text, and what is done with it.
  abbrev ReadsOnce : Action String → Type 0
  ReadsOnce m =
      (s : State)
      → (v : String) × (length (m s).1.history ≡ length s.history + 1) × ((m s).0 ≡ done v)

  then-Costs :
      (n k : ℕ) (m : Action String) (rest : String → Action Reply)
      → ReadsOnce m
      → ((v : String) → Costs n k (rest v))
      → Costs (1 + n) (1 + k) (m >>= rest)
  unfolding ◌>>=◌
  then-Costs n k m rest reads c = record {
    at = λ s.
        let (v, le, e) = reads s in
        let h = (c v).at (m s).1 in
        rw e (record {
          always = omega (arith, le, h.always);
          success = λ e'. omega (arith, le, h.success e');
        });
  }

  get_stateful_set_annotation-ReadsOnce :
      (name namespace : String) → ReadsOnce (get_stateful_set_annotation env name namespace)
  unfolding get_stateful_set_annotation ◌>>=◌
  get_stateful_set_annotation-ReadsOnce name namespace s = (_, omega arith, refl)

  get_cfg_resource_version-ReadsOnce :
      (name namespace : String)
      → ReadsOnce (get_cfg_resource_version_if_v2_or_nil env name namespace)
  unfolding get_cfg_resource_version_if_v2_or_nil get_config_map ◌>>=◌
  get_cfg_resource_version-ReadsOnce name namespace s = (_, omega arith, refl)

  either_ReadsOnce :
      (b : Bool) (m n : Action String) → ReadsOnce m → ReadsOnce n → ReadsOnce (if b then m else n)
  either_ReadsOnce true m n h k = h
  either_ReadsOnce false m n h k = k

  cluster_config_version-ReadsOnce :
      (cluster : HbaseCluster) → ReadsOnce (cluster_config_version env cluster)
  unfolding cluster_config_version get_existing_annotation_of_cluster_stateful_set
  cluster_config_version-ReadsOnce cluster =
      either_ReadsOnce _ _ _ (get_cfg_resource_version-ReadsOnce _ _)
        (get_stateful_set_annotation-ReadsOnce _ _)

  tenant_config_version-ReadsOnce :
      (tenant : HbaseTenant) → ReadsOnce (tenant_config_version env tenant)
  unfolding tenant_config_version get_existing_annotation_of_stateful_set
  tenant_config_version-ReadsOnce tenant =
      either_ReadsOnce _ _ _ (get_cfg_resource_version-ReadsOnce _ _)
        (get_stateful_set_annotation-ReadsOnce _ _)

  apply_cluster-Costs :
      (cluster : HbaseCluster)
      → let m = 4 * length (cluster.spec.tenant_namespaces ++ cluster.meta.namespace ∷ []) in
        let n = deployments_calls (deployments_of cluster.spec.deployments) in
        Costs (2 + (m + (1 + n))) (2 + (m + (1 + n)) + 1) (apply_cluster env cluster)
  unfolding apply_cluster
  apply_cluster-Costs cluster =
      let namespaces = cluster.spec.tenant_namespaces ++ cluster.meta.namespace ∷ [] in
      let m = 4 * length namespaces in
      let n = deployments_calls (deployments_of cluster.spec.deployments) in
      or_return-Costs 2 4 (m + (1 + n)) (m + (1 + n) + 1) (2 + (m + (1 + n)) + 1) (omega arith)
        (omega arith) _ _ (reconcile_service-Costs env _ _)
        (validate_or_return-Costs env (m + (1 + n)) (m + (1 + n) + 1) _ _ _ (omega arith) (
          or_return-Costs m m (1 + n) (1 + (n + 1)) (m + (1 + n) + 1) (omega arith) (omega arith) _
            _ (apply_namespaces-Costs cluster namespaces)
            (then-Costs n (n + 1) _ _ (cluster_config_version-ReadsOnce cluster)
              (λ v. apply_cluster_deployments-Costs cluster v _))))

  apply_tenant-Costs : (tenant : HbaseTenant) → Costs 9 10 (apply_tenant env tenant)
  unfolding apply_tenant apply_tenant_configs
  apply_tenant-Costs tenant =
      or_return-Costs 4 4 5 6 10 (omega arith) (omega arith) _ _
        (configs (is_config_enabled (tenant_label tenant)))
        (then-Costs 4 5 _ _ (tenant_config_version-ReadsOnce tenant) (λ v.
          or_return-Costs 2 4 2 3 5 (omega arith) (omega arith) _ _
            (reconcile_service-Costs env _ _) (apply_deployment-Costs env _ _ _)))
    where
      configs :
          (b : Bool)
          → Costs 4 4 (
              if b
              then validate_or_return env tenant.meta.namespace tenant.spec.configuration (
                  apply_configs env
                    (tenant_owner tenant)
                    tenant.meta.namespace
                    tenant.spec.configuration)
              else pure finished)
      configs true =
          validate_or_return-Costs env 4 4 _ _ _ (omega arith)
            (apply_configs-Costs env (tenant_owner tenant) _ _)
      configs false = finished-Costs 4 4

  -- Whatever the server answers, a Reconcile of a cluster that is there makes at most
  -- `cluster_calls cluster` calls of the client if it succeeds, and at most one more if it does not:
  -- 4 and, for each namespace with config maps, 4, and for each deployment, 2 and 2 for each pod
  -- service.
  pub reconcile_cluster-Spent :
      (req : NamespacedName) (cluster : HbaseCluster) (s : State)
      → env.get_hbase_cluster s.history req ≡ ok cluster
      → let (f, t) = reconcile_cluster env req s in
        Spent (cluster_calls cluster) (cluster_calls cluster + 1) s f t
  unfolding reconcile_cluster ◌>>=◌
  reconcile_cluster-Spent req cluster s found =
      let h = (apply_cluster-Costs cluster).at (after_get hbase_clusters req s) in
      let le = length-append cluster.spec.tenant_namespaces (cluster.meta.namespace ∷ []) in
      rw found (record {
        always = omega (arith, h.always, le);
        success = λ e. omega (arith, h.success e, le);
      })

  -- A Reconcile of a tenant makes at most 10 calls of the client if it succeeds, and at most 11 if it
  -- does not, whatever the server answers and however large the tenant is.
  pub reconcile_tenant-Spent :
      (req : NamespacedName) (s : State)
      → let (f, t) = reconcile_tenant env req s in Spent 10 11 s f t
  unfolding reconcile_tenant ◌>>=◌
  reconcile_tenant-Spent req s = elim (Answer-cases (env.get_hbase_tenant s.history req)) [
    | inl (tenant, e) ↦
        rw e (Spent-call _ 9 10 s ((apply_tenant-Costs tenant).at (after_get hbase_tenants req s)))
    | inr (x, e) ↦ rw e (record { always = ground arith; success = ground arith })
  ]
