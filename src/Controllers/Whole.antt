-- ===== src/Controllers/Whole.antt =====
-- A relation that meets the contract holds of each Reconcile method.
mod Parts
pub use Parts.{
  apply_config-Meets, apply_configs-Meets, apply_pdb-Meets, apply_deployment-Meets,
  apply_namespaces-Meets, apply_pod_services-Meets, pod_services-Meets,
  apply_cluster_deployment-Meets, apply_cluster_deployments-Meets,
}
use Parts.{validate_or_return-Meets, after_config_map}
use hbase_k8s_operator.Prelude.{
  String, Bool-cases, inl, inr, List, [], ◌∷◌, ℕ, zero, suc, ◌+◌, rounds, Option-cases,
  if◌then◌else◌,
}
use hbase_k8s_operator.GoMap.{GoMap, entries, lookup}
use hbase_k8s_operator.Api.{
  NamespacedName, HbaseCluster, HbaseTenant, HbaseStandalone, HbaseClusterDeployment,
  HbaseClusterConfiguration,
}
use hbase_k8s_operator.Kube.{
  Kind, ConfigMap, StatefulSet, hbase_clusters, hbase_tenants, hbase_standalones, config_maps,
  stateful_sets,
}
use hbase_k8s_operator.Env.{Env, Answer, ok, err}
use hbase_k8s_operator.Action.{
  after_get, State, Action, Flow, done, panicked, Reply, ◌>>=◌, continue, pure, is_finished,
  either_way, finished, failed_in_5,
}
use hbase_k8s_operator.Build.Outcome.{Outcome, built, invalid, panic}
use hbase_k8s_operator.Build.Pdb.{build_pod_disruption_budget}
use hbase_k8s_operator.Reconcile.Validate.{validate_configuration}
use hbase_k8s_operator.Reconcile.Annotations.{
  get_cfg_resource_version_if_v2_or_nil, get_stateful_set_annotation,
  get_existing_annotation_of_stateful_set, get_existing_annotation_of_cluster_stateful_set,
}
use hbase_k8s_operator.Controllers.Steps.{
  reconcile_config_label, is_restart_enabled, is_config_enabled, Owner, Template, own_config_map,
  validate_or_return, apply_config_map, apply_config, apply_configs, apply_pdb, apply_built,
  apply_deployment,
}
use hbase_k8s_operator.Controllers.Cluster.{
  apply_namespaces, cluster_config_version, apply_pod_services, apply_cluster_deployment,
  apply_cluster_deployments, apply_cluster, reconcile_cluster,
}
use hbase_k8s_operator.Controllers.Tenant.{
  apply_tenant_configs, tenant_config_version, tenant_label, apply_tenant, reconcile_tenant,
}
use hbase_k8s_operator.Controllers.Standalone.{
  apply_standalone_objects, apply_standalone, reconcile_standalone,
}
use hbase_k8s_operator.Controllers.Contract.{
  Contract, Meets, reply_of, or_return-Meets, finished-Meets,
}

module _ {env : Env} {R : State → Flow Reply → State → Type 0} (c : Contract env R) where
  -- Reading the config version, in either way, is one Get.
  cluster_config_version-Meets :
      (cluster : HbaseCluster) (k : String → Action Reply)
      → ((version : String) → Meets R (k version))
      → Meets R (cluster_config_version env cluster >>= k)
  unfolding cluster_config_version get_cfg_resource_version_if_v2_or_nil
      get_existing_annotation_of_cluster_stateful_set get_stateful_set_annotation ◌>>=◌
  cluster_config_version-Meets cluster k h =
      elim (Bool-cases (
        is_restart_enabled (lookup reconcile_config_label (entries cluster.spec.service_labels)))) [
          | inl e ↦ record { at = λ s. rw e (c.read config_maps _ s _ _ ((h _).at _)) }
          | inr e ↦ record { at = λ s. rw e (c.read stateful_sets _ s _ _ ((h _).at _)) }
        ]

  tenant_config_version-Meets :
      (tenant : HbaseTenant) (k : String → Action Reply)
      → ((version : String) → Meets R (k version))
      → Meets R (tenant_config_version env tenant >>= k)
  unfolding tenant_config_version get_cfg_resource_version_if_v2_or_nil
      get_existing_annotation_of_stateful_set get_stateful_set_annotation ◌>>=◌
  tenant_config_version-Meets tenant k h =
      elim (Bool-cases (is_restart_enabled (tenant_label tenant))) [
        | inl e ↦ record { at = λ s. rw e (c.read config_maps _ s _ _ ((h _).at _)) }
        | inr e ↦ record { at = λ s. rw e (c.read stateful_sets _ s _ _ ((h _).at _)) }
      ]

  apply_cluster-Meets : (cluster : HbaseCluster) → Meets R (apply_cluster env cluster)
  unfolding apply_cluster
  apply_cluster-Meets cluster =
      or_return-Meets c _ _ (record { at = c.services _ _ })
        (validate_or_return-Meets c _ _ _ (
          or_return-Meets c _ _ (apply_namespaces-Meets c cluster _) (
            cluster_config_version-Meets cluster _
              (λ version. apply_cluster_deployments-Meets c cluster version _))))

  pub apply_tenant_configs-Meets :
      (tenant : HbaseTenant) → Meets R (apply_tenant_configs env tenant)
  unfolding apply_tenant_configs
  apply_tenant_configs-Meets tenant =
      either_way (Meets R) (is_config_enabled (tenant_label tenant)) _ _
        (validate_or_return-Meets c _ _ _ (apply_configs-Meets c _ _ _)) (finished-Meets c)

  apply_tenant-Meets : (tenant : HbaseTenant) → Meets R (apply_tenant env tenant)
  unfolding apply_tenant
  apply_tenant-Meets tenant = or_return-Meets c _ _ (apply_tenant_configs-Meets tenant) (
      tenant_config_version-Meets tenant _ (λ version.
        or_return-Meets c _ _ (record { at = c.services _ _ }) (apply_deployment-Meets c _ _ _)))

  apply_standalone-Meets :
      (standalone : HbaseStandalone) → Meets R (apply_standalone env standalone)
  unfolding apply_standalone apply_standalone_objects apply_config_map ◌>>=◌
  apply_standalone-Meets standalone =
      or_return-Meets c _ _ (record { at = c.services _ _ })
        (validate_or_return-Meets c _ _ _ (
          or_return-Meets c _ _ (apply_config-Meets c _ _ _ _ _) (record {
            at = λ s.
                after_config_map c _ (λ cfg. apply_deployment-Meets c _ _ _) s _ _
                  (c.config_maps _ _ s);
          })))

  -- The resource that is reconciled has been read, is not there, or cannot be read.
  read_resource :
      {A : Type 0} (kind : Kind) (key : NamespacedName) (k : A → Action Reply)
      → ((a : A) → Meets R (k a))
      → (answer : Answer A) (s : State)
      → let m : Action Reply = elim answer [
        | ok a ↦ k a
        | err e ↦ if e.is_not_found then pure finished else pure (failed_in_5 e)
      ] in
        let (f, t) = m (after_get kind key s) in R s f t
  read_resource kind key k h (ok a) s = c.read kind key s _ _ ((h a).at _)
  read_resource kind key k h (err e) s =
      either_way (λ m. let (f, t) = m (after_get kind key s) in R s f t) e.is_not_found _ _
        (c.read kind key s _ _ (c.finish _)) (c.read kind key s _ _ (c.unreadable e _))

  pub reconcile_cluster-Meets : (req : NamespacedName) → Meets R (reconcile_cluster env req)
  unfolding reconcile_cluster ◌>>=◌
  reconcile_cluster-Meets req = record {
    at = λ s. read_resource hbase_clusters req _ apply_cluster-Meets _ s;
  }

  pub reconcile_tenant-Meets : (req : NamespacedName) → Meets R (reconcile_tenant env req)
  unfolding reconcile_tenant ◌>>=◌
  reconcile_tenant-Meets req = record {
    at = λ s. read_resource hbase_tenants req _ apply_tenant-Meets _ s;
  }

  pub reconcile_standalone-Meets : (req : NamespacedName) → Meets R (reconcile_standalone env req)
  unfolding reconcile_standalone ◌>>=◌
  reconcile_standalone-Meets req = record {
    at = λ s. read_resource hbase_standalones req _ apply_standalone-Meets _ s;
  }
