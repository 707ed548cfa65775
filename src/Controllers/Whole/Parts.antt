-- ===== src/Controllers/Whole/Parts.antt =====
-- What holds of each part of a reconciliation, by a contract.
use hbase_k8s_operator.Prelude.{
  String, Bool-cases, inl, inr, List, [], ◌∷◌, ℕ, zero, suc, ◌+◌, rounds, Option-cases,
  if◌then◌else◌,
}
use hbase_k8s_operator.GoMap.{GoMap}
use hbase_k8s_operator.Api.{HbaseCluster, HbaseClusterDeployment, HbaseClusterConfiguration}
use hbase_k8s_operator.Kube.{ConfigMap, StatefulSet}
use hbase_k8s_operator.Env.{Env}
use hbase_k8s_operator.Action.{
  State, Action, Flow, done, panicked, Reply, ◌>>=◌, continue, pure, is_finished, either_way,
  finished,
}
use hbase_k8s_operator.Build.Outcome.{Outcome, built, invalid, panic}
use hbase_k8s_operator.Build.Pdb.{build_pod_disruption_budget}
use hbase_k8s_operator.Reconcile.Validate.{validate_configuration}
use hbase_k8s_operator.Controllers.Steps.{
  Owner, Template, own_config_map, validate_or_return, apply_config_map, apply_config,
  apply_configs, apply_pdb, apply_built, apply_deployment,
}
use hbase_k8s_operator.Controllers.Cluster.{
  apply_namespaces, apply_pod_services, apply_cluster_deployment, apply_cluster_deployments,
}
use hbase_k8s_operator.Controllers.Contract.{
  Contract, Meets, reply_of, or_return-Meets, finished-Meets,
}

module _ {env : Env} {R : State → Flow Reply → State → Type 0} (c : Contract env R) where
  pub validate_or_return-Meets :
      (namespace : String) (config : HbaseClusterConfiguration) (rest : Action Reply)
      → Meets R rest
      → Meets R (validate_or_return env namespace config rest)
  unfolding validate_or_return ◌>>=◌
  validate_or_return-Meets namespace config rest k =
      elim (Option-cases (validate_configuration env config)) [
        | inl e ↦ rw (e, validate_or_return) k
        | inr (x, e) ↦
            rw (e, validate_or_return)
              (record { at = c.refuse namespace "ConfigValidateFailed" x.message "ConfigMap" x })
      ]

  -- After the config map: the rest, which may use it, or the reply.
  pub after_config_map :
      (rest : ConfigMap → Action Reply)
      → ((cfg : ConfigMap) → Meets R (rest cfg))
      → (s t : State) (f : Flow (Reply × ConfigMap)) → R s (reply_of f) t
      → let (g, u) = continue f (λ (r, cfg). if is_finished r then rest cfg else pure r) t in
        R s g u
  after_config_map rest k s t panicked h = h
  after_config_map rest k s t (done (r, cfg)) h = elim (Bool-cases (is_finished r)) [
    | inl e ↦ rw e (c.chain s t _ r _ h e ((k cfg).at t))
    | inr e ↦ rw e h
  ]

  reply_only :
      (s t : State) (f : Flow (Reply × ConfigMap))
      → R s (reply_of f) t
      → let (g, u) = continue f (λ (r, _). pure r) t in R s g u
  reply_only s t panicked h = h
  reply_only s t (done (r, cfg)) h = h

  pub apply_config-Meets :
      (o : Owner) (name namespace : String) (config : GoMap) (tenants : List GoMap)
      → Meets R (apply_config env o name namespace config tenants)
  unfolding apply_config apply_config_map ◌>>=◌
  apply_config-Meets o name namespace config tenants = record {
    at = λ s. reply_only s _ _ (c.config_maps namespace (own_config_map env o _) s);
  }

  pub apply_configs-Meets :
      (o : Owner) (namespace : String) (config : HbaseClusterConfiguration)
      → Meets R (apply_configs env o namespace config)
  unfolding apply_configs
  apply_configs-Meets o namespace config =
      or_return-Meets c _ _ (apply_config-Meets o _ namespace _ _)
        (apply_config-Meets o _ namespace _ _)

  pub apply_pdb-Meets : (o : Owner) (d : HbaseClusterDeployment) → Meets R (apply_pdb env o d)
  unfolding apply_pdb
  apply_pdb-Meets o d =
      elim (Option-cases (build_pod_disruption_budget o.meta.name o.meta.namespace d)) [
        | inl e ↦ rw (e, apply_pdb) (finished-Meets c)
        | inr (pdb, e) ↦ rw (e, apply_pdb) (record { at = c.budgets _ })
      ]

  apply_built-Meets :
      (o : Owner) (d : HbaseClusterDeployment) (b : Outcome StatefulSet)
      → Meets R (apply_built env o d b)
  unfolding apply_built ◌>>=◌
  apply_built-Meets o d (built ss) = record { at = c.stateful_sets o.meta.namespace _ d }
  apply_built-Meets o d (invalid message) = record {
    at = c.refuse o.meta.namespace "StatefulSetBuildFailed" message _ _;
  }
  apply_built-Meets o d panic = record { at = c.fault }

  pub apply_deployment-Meets :
      (o : Owner) (t : Template) (d : HbaseClusterDeployment) → Meets R (apply_deployment env o t d)
  unfolding apply_deployment
  apply_deployment-Meets o t d =
      or_return-Meets c _ _ (apply_built-Meets o d _) (apply_pdb-Meets o _)

  pub apply_namespaces-Meets :
      (cluster : HbaseCluster) (ns : List String) → Meets R (apply_namespaces env cluster ns)
  unfolding apply_namespaces
  apply_namespaces-Meets cluster [] = finished-Meets c
  apply_namespaces-Meets cluster (n ∷ ns) =
      or_return-Meets c _ _ (apply_configs-Meets _ n _) (apply_namespaces-Meets cluster ns)

  pub apply_pod_services-Meets :
      (cluster : HbaseCluster) (d : HbaseClusterDeployment) (index left : ℕ)
      → Meets R (apply_pod_services env cluster d index left)
  unfolding apply_pod_services
  apply_pod_services-Meets cluster d index zero = finished-Meets c
  apply_pod_services-Meets cluster d index (suc left) =
      or_return-Meets c _ _ (record { at = c.services _ _ })
        (apply_pod_services-Meets cluster d (index + 1) left)

  pub pod_services-Meets :
      (cluster : HbaseCluster) (d : HbaseClusterDeployment)
      → Meets R (
          if d.is_pod_service_required
          then apply_pod_services env cluster d 0 (rounds d.size)
          else pure finished)
  pod_services-Meets cluster d =
      either_way (Meets R) d.is_pod_service_required _ _ (apply_pod_services-Meets cluster d 0 _)
        (finished-Meets c)

  pub apply_cluster_deployment-Meets :
      (cluster : HbaseCluster) (version : String) (d : HbaseClusterDeployment)
      → Meets R (apply_cluster_deployment env cluster version d)
  unfolding apply_cluster_deployment
  apply_cluster_deployment-Meets cluster version d =
      or_return-Meets c _ _ (pod_services-Meets cluster d) (apply_deployment-Meets _ _ d)

  pub apply_cluster_deployments-Meets :
      (cluster : HbaseCluster) (version : String) (ds : List HbaseClusterDeployment)
      → Meets R (apply_cluster_deployments env cluster version ds)
  unfolding apply_cluster_deployments
  apply_cluster_deployments-Meets cluster version [] = finished-Meets c
  apply_cluster_deployments-Meets cluster version (d ∷ ds) =
      or_return-Meets c _ _ (apply_cluster_deployment-Meets cluster version d)
        (apply_cluster_deployments-Meets cluster version ds)
