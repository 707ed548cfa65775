-- ===== src/Controllers/Success/Cluster.antt =====
-- What the Reconcile method of HbaseCluster has seen when it succeeds.
use hbase_k8s_operator.Prelude.{String, ◌≡◌, none, List, [], ◌∷◌, ◌++◌, All, Bool-cases, inl, inr}
use hbase_k8s_operator.GoMap.{entries, lookup}
use hbase_k8s_operator.Api.{NamespacedName, HbaseCluster, HbaseClusterDeployment}
use hbase_k8s_operator.Kube.{config_maps, stateful_sets, hbase_clusters}
use hbase_k8s_operator.Env.{Env, ok}
use hbase_k8s_operator.Action.{State, Action, Reply, ◌>>=◌, ◌or_return◌, after_get}
use hbase_k8s_operator.Action.Steps.{Grown, same, more}
use hbase_k8s_operator.Reconcile.Services.{reconcile_service}
use hbase_k8s_operator.Reconcile.Validate.{validate_configuration}
use hbase_k8s_operator.Reconcile.Annotations.{
  get_cfg_resource_version_if_v2_or_nil, get_stateful_set_annotation,
  get_existing_annotation_of_cluster_stateful_set,
}
use hbase_k8s_operator.Controllers.Steps.{
  Owner, Template, reconcile_config_label, is_restart_enabled, validate_or_return,
}
use hbase_k8s_operator.Controllers.Cluster.{
  deployments_of, cluster_owner, cluster_template, cluster_config_version, apply_cluster_deployment,
  apply_cluster_deployments, apply_cluster, reconcile_cluster, apply_namespaces, cluster_service,
}
use hbase_k8s_operator.Controllers.Whole.{
  pod_services-Meets, apply_cluster_deployment-Meets, apply_cluster_deployments-Meets,
  apply_namespaces-Meets,
}
use hbase_k8s_operator.Controllers.Ready.{Ready, stays_Ready, starts_Ready, apply_deployment-Ready}
use hbase_k8s_operator.Controllers.Ready.Finish.{
  Finishes, again, or_return-Finishes, validate_or_return-Finishes,
}
use hbase_k8s_operator.Controllers.Ready.Growth.{Grown-trans, Finishes-Between}

module _ (env : Env) where
  starts_All :
      (o : Owner) (t : Template) (s u v : State) (ds : List HbaseClusterDeployment)
      → Grown s.history u.history
      → All (Ready env o t u v) ds
      → All (Ready env o t s v) ds
  starts_All o t s u v [] g h = tt
  starts_All o t s u v (d ∷ ds) g (h, hs) =
      (starts_Ready env o t s u v d g h, starts_All o t s u v ds g hs)

  apply_cluster_deployment-Ready :
      (cluster : HbaseCluster) (version : String) (d : HbaseClusterDeployment) (s u : State)
      → Finishes (apply_cluster_deployment env cluster version d) s u
      → Ready env (cluster_owner cluster) (cluster_template cluster version) s u d
  unfolding apply_cluster_deployment
  apply_cluster_deployment-Ready cluster version d s u h =
      let (v, first, rest) = or_return-Finishes _ _ s u h in
      starts_Ready env _ _ s v u d
        (Finishes-Between env _ s v (λ R c. pod_services-Meets c cluster d) first).grown
        (apply_deployment-Ready env _ _ d v u rest)

  apply_cluster_deployments-Ready :
      (cluster : HbaseCluster) (version : String) (ds : List HbaseClusterDeployment) (s u : State)
      → Finishes (apply_cluster_deployments env cluster version ds) s u
      → All (Ready env (cluster_owner cluster) (cluster_template cluster version) s u) ds
  unfolding apply_cluster_deployments
  apply_cluster_deployments-Ready cluster version [] s u h = tt
  apply_cluster_deployments-Ready cluster version (d ∷ ds) s u h =
      let (v, first, rest) = or_return-Finishes _ _ s u h in
      (
        stays_Ready env _ _ s v u d (apply_cluster_deployment-Ready cluster version d s v first) (
            Finishes-Between env _ v u (λ R c. apply_cluster_deployments-Meets c cluster version ds)
              rest),
        starts_All _ _ s v u ds
            (Finishes-Between env _ s v (λ R c. apply_cluster_deployment-Meets c cluster version d)
              first).grown
            (apply_cluster_deployments-Ready cluster version ds v u rest),
      )

  -- Reading the config version, in either way, is one Get.
  cluster_config_version-Finishes :
      (cluster : HbaseCluster) (k : String → Action Reply) (s u : State)
      → Finishes (cluster_config_version env cluster >>= k) s u
      → (version : String) × (t : State) × Grown s.history t.history × Finishes (k version) t u
  unfolding cluster_config_version get_cfg_resource_version_if_v2_or_nil
      get_existing_annotation_of_cluster_stateful_set get_stateful_set_annotation ◌>>=◌
  cluster_config_version-Finishes cluster k s u h =
      elim (Bool-cases (
        is_restart_enabled (lookup reconcile_config_label (entries cluster.spec.service_labels)))) [
          | inl e ↦ (_, after_get config_maps _ s, more _ same, again h (rw e at h.ends))
          | inr e ↦ (_, after_get stateful_sets _ s, more _ same, again h (rw e at h.ends))
        ]

  apply_cluster-Ready :
      (cluster : HbaseCluster) (s u : State)
      → Finishes (apply_cluster env cluster) s u
      → (validate_configuration env cluster.spec.configuration ≡ none)
        × (version : String) × All
            (Ready env (cluster_owner cluster) (cluster_template cluster version) s u)
            (deployments_of cluster.spec.deployments)
  unfolding apply_cluster
  apply_cluster-Ready cluster s u h =
      let first = reconcile_service env cluster.meta.namespace (cluster_service env cluster) in
      let second =
        apply_namespaces env cluster
          (cluster.spec.tenant_namespaces ++ cluster.meta.namespace ∷ []) in
      let third : String → Action Reply = λ version.
        apply_cluster_deployments env cluster version (deployments_of cluster.spec.deployments) in
      let (a, service, rest) =
        or_return-Finishes first
          (validate_or_return env cluster.meta.namespace cluster.spec.configuration
            (second or_return (cluster_config_version env cluster >>= third)))
          s u h in
      let (valid, rest') =
        validate_or_return-Finishes env cluster.meta.namespace cluster.spec.configuration
          (second or_return (cluster_config_version env cluster >>= third)) a u rest in
      let (b, configs, rest'') =
        or_return-Finishes second (cluster_config_version env cluster >>= third) a u rest' in
      let (version, c, g, last) = cluster_config_version-Finishes cluster third b u rest'' in
      let g' =
        Grown-trans
          (Finishes-Between env first s a
            (λ R c. record { at = c.services cluster.meta.namespace (cluster_service env cluster) })
            service).grown
          (Grown-trans
            (Finishes-Between env second a b
              (λ R c.
                apply_namespaces-Meets c cluster
                  (cluster.spec.tenant_namespaces ++ cluster.meta.namespace ∷ []))
              configs).grown
            g) in
      (
        valid,
        version,
        starts_All _ _ s c u _ g' (apply_cluster_deployments-Ready cluster version _ c u last),
      )

  -- When the Reconcile method of HbaseCluster ends with the empty result and no error, and the cluster
  -- exists, then its configuration is valid, and every deployment, Zookeeper only where it has a
  -- size, was found rolled out during the run: its StatefulSet was read, had as many ready replicas
  -- as the deployment's size and equal current and update revisions, and the hash store at the end
  -- has the hash of the StatefulSet that buildStatefulSet makes of the deployment, all with the same
  -- config version.
  pub reconcile_cluster-Ready :
      (req : NamespacedName) (cluster : HbaseCluster) (s u : State)
      → env.get_hbase_cluster s.history req ≡ ok cluster
      → Finishes (reconcile_cluster env req) s u
      → (validate_configuration env cluster.spec.configuration ≡ none)
        × (version : String) × All
            (Ready env
              (cluster_owner cluster)
              (cluster_template cluster version)
              (after_get hbase_clusters req s)
              u)
            (deployments_of cluster.spec.deployments)
  unfolding reconcile_cluster ◌>>=◌
  reconcile_cluster-Ready req cluster s u found h =
      apply_cluster-Ready cluster (after_get hbase_clusters req s) u (again h (rw found at h.ends))
