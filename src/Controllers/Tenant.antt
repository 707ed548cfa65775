-- ===== src/Controllers/Tenant.antt =====
-- operator/controllers/hbasetenant_controller.go: Reconcile of HbaseTenant.
use hbase_k8s_operator.Prelude.{String, Option, [], ◌∷◌, false, true, if◌then◌else◌}
use hbase_k8s_operator.GoMap.{entries, lookup}
use hbase_k8s_operator.Api.{NamespacedName, HbaseTenant}
use hbase_k8s_operator.Kube.{Service, hbase_tenants}
use hbase_k8s_operator.Env.{Env, ok, err, got}
use hbase_k8s_operator.Action.{Action, Reply, ◌>>=◌, pure, call, finished, failed_in_5, ◌or_return◌}
use hbase_k8s_operator.Build.Service.{build_service}
use hbase_k8s_operator.Reconcile.Annotations.{
  get_cfg_resource_version_if_v2_or_nil, get_existing_annotation_of_stateful_set,
}
use hbase_k8s_operator.Reconcile.Services.{reconcile_service}
use hbase_k8s_operator.Controllers.Steps.{
  reconcile_config_label, is_restart_enabled, is_config_enabled, Owner, own_service,
  validate_or_return, apply_configs, Template, apply_deployment,
}

abbrev pub tenant_owner : HbaseTenant → Owner
tenant_owner tenant = record { kind = hbase_tenants; meta = tenant.meta }

-- value, exists := hbasetenant.Spec.ServiceLabels[RECONCILE_CONFIG_LABEL]
abbrev pub tenant_label : HbaseTenant → Option String
tenant_label tenant = lookup reconcile_config_label (entries tenant.spec.service_labels)

-- The config maps, if the label asks for them; "config-only" updates them and restarts nothing.
unfoldable pub apply_tenant_configs : Env → HbaseTenant → Action Reply
apply_tenant_configs env tenant =
    if is_config_enabled (tenant_label tenant)
    then validate_or_return env tenant.meta.namespace tenant.spec.configuration
        (apply_configs env (tenant_owner tenant) tenant.meta.namespace tenant.spec.configuration)
    else pure finished

unfoldable pub tenant_config_version : Env → HbaseTenant → Action String
tenant_config_version env tenant =
    if is_restart_enabled (tenant_label tenant)
    then get_cfg_resource_version_if_v2_or_nil env tenant.spec.configuration.hbase_config_name
        tenant.meta.namespace
    else get_existing_annotation_of_stateful_set env tenant

abbrev pub tenant_template : HbaseTenant → String → Template
tenant_template tenant config_version = record {
  base_image = tenant.spec.base_image;
  is_bootstrap = false;
  configuration = tenant.spec.configuration;
  config_version = config_version;
  fs_group = tenant.spec.fs_group;
  is_multi_stateful_set = false;
}

abbrev pub tenant_service : Env → HbaseTenant → Service
tenant_service env tenant = own_service env (tenant_owner tenant) (
    build_service tenant.meta.name tenant.meta.name tenant.meta.namespace tenant.spec.service_labels
      tenant.spec.service_selector_labels (tenant.spec.datanode ∷ []) true)

-- Reconcile once the resource has been read.
unfoldable pub apply_tenant : Env → HbaseTenant → Action Reply
unfolding ◌>>=◌ ◌or_return◌
apply_tenant env tenant =
    apply_tenant_configs env tenant
    or_return (tenant_config_version env tenant >>= λ config_version.
        reconcile_service env tenant.meta.namespace (tenant_service env tenant)
        or_return apply_deployment env (tenant_owner tenant) (tenant_template tenant config_version)
            tenant.spec.datanode)

-- HbaseTenantReconciler.Reconcile
unfoldable pub reconcile_tenant : Env → NamespacedName → Action Reply
unfolding ◌>>=◌
reconcile_tenant env req =
    call (got hbase_tenants req) (λ h. env.get_hbase_tenant h req) >>= λ answer. elim answer [
      | ok tenant ↦ apply_tenant env tenant
      | err e ↦ if e.is_not_found then pure finished else pure (failed_in_5 e)
    ]
