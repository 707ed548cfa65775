-- ===== src/Controllers/Success/Tenant.antt =====
-- What the Reconcile method of HbaseTenant has seen when it succeeds.
use hbase_k8s_operator.Prelude.{String, ◌≡◌, Bool-cases, inl, inr}
use hbase_k8s_operator.Api.{NamespacedName, HbaseTenant}
use hbase_k8s_operator.Kube.{config_maps, stateful_sets, hbase_tenants}
use hbase_k8s_operator.Env.{Env, ok}
use hbase_k8s_operator.Action.{State, Action, Reply, ◌>>=◌, ◌or_return◌, after_get}
use hbase_k8s_operator.Action.Steps.{Grown, same, more}
use hbase_k8s_operator.Reconcile.Services.{reconcile_service}
use hbase_k8s_operator.Reconcile.Annotations.{
  get_cfg_resource_version_if_v2_or_nil, get_stateful_set_annotation,
  get_existing_annotation_of_stateful_set,
}
use hbase_k8s_operator.Controllers.Steps.{is_restart_enabled, apply_deployment}
use hbase_k8s_operator.Controllers.Tenant.{
  tenant_owner, tenant_template, tenant_label, tenant_config_version, apply_tenant_configs,
  apply_tenant, reconcile_tenant, tenant_service,
}
use hbase_k8s_operator.Controllers.Whole.{apply_tenant_configs-Meets}
use hbase_k8s_operator.Controllers.Ready.{Ready, starts_Ready, apply_deployment-Ready}
use hbase_k8s_operator.Controllers.Ready.Finish.{Finishes, again, or_return-Finishes}
use hbase_k8s_operator.Controllers.Ready.Growth.{Grown-trans, Finishes-Between}

module _ (env : Env) where
  tenant_config_version-Finishes :
      (tenant : HbaseTenant) (k : String → Action Reply) (s u : State)
      → Finishes (tenant_config_version env tenant >>= k) s u
      → (version : String) × (t : State) × Grown s.history t.history × Finishes (k version) t u
  unfolding tenant_config_version get_cfg_resource_version_if_v2_or_nil
      get_existing_annotation_of_stateful_set get_stateful_set_annotation ◌>>=◌
  tenant_config_version-Finishes tenant k s u h =
      elim (Bool-cases (is_restart_enabled (tenant_label tenant))) [
        | inl e ↦ (_, after_get config_maps _ s, more _ same, again h (rw e at h.ends))
        | inr e ↦ (_, after_get stateful_sets _ s, more _ same, again h (rw e at h.ends))
      ]

  apply_tenant-Ready :
      (tenant : HbaseTenant) (s u : State)
      → Finishes (apply_tenant env tenant) s u
      → (version : String) × Ready env
          (tenant_owner tenant)
          (tenant_template tenant version)
          s
          u
          tenant.spec.datanode
  unfolding apply_tenant
  apply_tenant-Ready tenant s u h =
      let first = apply_tenant_configs env tenant in
      let second = reconcile_service env tenant.meta.namespace (tenant_service env tenant) in
      let third : String → Action Reply = λ version.
        second
        or_return apply_deployment env (tenant_owner tenant) (tenant_template tenant version)
            tenant.spec.datanode in
      let (a, configs, rest) =
        or_return-Finishes first (tenant_config_version env tenant >>= third) s u h in
      let (version, b, g, rest') = tenant_config_version-Finishes tenant third a u rest in
      let (c, service, last) =
        or_return-Finishes second
          (apply_deployment env (tenant_owner tenant) (tenant_template tenant version)
            tenant.spec.datanode)
          b u rest' in
      let g' =
        Grown-trans
          (Finishes-Between env first s a (λ R c. apply_tenant_configs-Meets c tenant)
            configs).grown
          (Grown-trans g
            (Finishes-Between env second b c
              (λ R c. record { at = c.services tenant.meta.namespace (tenant_service env tenant) })
              service).grown) in
      (version, starts_Ready env _ _ s c u _ g' (apply_deployment-Ready env _ _ _ c u last))

  -- When the Reconcile method of HbaseTenant ends with the empty result and no error, and the tenant
  -- exists, then its StatefulSet was found rolled out during the run, and the hash store at the end
  -- has the hash of the StatefulSet that buildStatefulSet makes of its deployment.
  pub reconcile_tenant-Ready :
      (req : NamespacedName) (tenant : HbaseTenant) (s u : State)
      → env.get_hbase_tenant s.history req ≡ ok tenant
      → Finishes (reconcile_tenant env req) s u
      → (version : String) × Ready env
          (tenant_owner tenant)
          (tenant_template tenant version)
          (after_get hbase_tenants req s)
          u
          tenant.spec.datanode
  unfolding reconcile_tenant ◌>>=◌
  reconcile_tenant-Ready req tenant s u found h =
      apply_tenant-Ready tenant (after_get hbase_tenants req s) u (again h (rw found at h.ends))
