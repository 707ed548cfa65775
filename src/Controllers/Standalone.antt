-- ===== src/Controllers/Standalone.antt =====
-- operator/controllers/hbasestandalone_controller.go: Reconcile of HbaseStandalone. The config
-- version is the resource version that the Hadoop config map has after its reconciliation.
use hbase_k8s_operator.Prelude.{String, [], ◌∷◌, false, true, if◌then◌else◌}
use hbase_k8s_operator.Api.{NamespacedName, HbaseStandalone}
use hbase_k8s_operator.Kube.{hbase_standalones}
use hbase_k8s_operator.Env.{Env, ok, err, got}
use hbase_k8s_operator.Action.{
  Action, Reply, ◌>>=◌, pure, call, finished, failed_in_5, ◌or_return◌, is_finished,
}
use hbase_k8s_operator.Build.Service.{build_service}
use hbase_k8s_operator.Reconcile.Services.{reconcile_service}
use hbase_k8s_operator.Controllers.Steps.{
  Owner, own_service, validate_or_return, apply_config, apply_config_map, Template,
  apply_deployment,
}

abbrev pub standalone_owner : HbaseStandalone → Owner
standalone_owner standalone = record { kind = hbase_standalones; meta = standalone.meta }

abbrev pub standalone_template : HbaseStandalone → String → Template
standalone_template standalone config_version = record {
  base_image = standalone.spec.base_image;
  is_bootstrap = false;
  configuration = standalone.spec.configuration;
  config_version = config_version;
  fs_group = standalone.spec.fs_group;
  is_multi_stateful_set = true;
}

-- The config maps, and then the StatefulSet and the budget.
unfoldable pub apply_standalone_objects : Env → HbaseStandalone → Action Reply
unfolding ◌>>=◌ ◌or_return◌
apply_standalone_objects env standalone =
    let c = standalone.spec.configuration in
    let o = standalone_owner standalone in
    apply_config env o c.hbase_config_name standalone.meta.namespace c.hbase_config
      c.hbase_tenant_config
    or_return (apply_config_map env o c.hadoop_config_name standalone.meta.namespace c.hadoop_config
          c.hadoop_tenant_config
        >>= λ (reply, cfg).
            if is_finished reply
            then apply_deployment env o (standalone_template standalone cfg.meta.resource_version)
                standalone.spec.standalone
            else pure reply)

-- Reconcile once the resource has been read.
unfoldable pub apply_standalone : Env → HbaseStandalone → Action Reply
unfolding ◌or_return◌
apply_standalone env standalone =
    reconcile_service env standalone.meta.namespace (
      own_service env (standalone_owner standalone) (
        build_service standalone.meta.name standalone.meta.name standalone.meta.namespace
          standalone.spec.service_labels standalone.spec.service_selector_labels
          (standalone.spec.standalone ∷ []) true))
    or_return validate_or_return env standalone.meta.namespace standalone.spec.configuration
        (apply_standalone_objects env standalone)

-- HbaseStandaloneReconciler.Reconcile
unfoldable pub reconcile_standalone : Env → NamespacedName → Action Reply
unfolding ◌>>=◌
reconcile_standalone env req =
    call (got hbase_standalones req) (λ h. env.get_hbase_standalone h req) >>= λ answer.
    elim answer [
      | ok standalone ↦ apply_standalone env standalone
      | err e ↦ if e.is_not_found then pure finished else pure (failed_in_5 e)
    ]
