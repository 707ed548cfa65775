-- ===== src/Reconcile/Services.antt =====
-- operator/controllers/utils.go: reconcileService. The hash is that of the desired spec, taken before
-- the address that the server assigned is put in.
use hbase_k8s_operator.Prelude.{String, ◌⧺◌, ◌==◌, if◌then◌else◌}
use hbase_k8s_operator.Api.{NamespacedName}
use hbase_k8s_operator.Kube.{Service, service, services}
use hbase_k8s_operator.Env.{Env, Answer, ok, err, got, created, updated}
use hbase_k8s_operator.Action.{
  Action, Reply, ◌>>=◌, ◌>>◌, pure, call, stored_hash, store_hash, finished, again_in_5,
  failed_in_5,
}
use hbase_k8s_operator.Build.ConfigMap.{text_or_empty}
use hbase_k8s_operator.Reconcile.Hash.{service_key, service_hash}
use hbase_k8s_operator.Reconcile.Events.{publish_event}

unfoldable pub create_service : Env → Service → Action Reply
unfolding ◌>>=◌
create_service env svc = call (created (service svc)) (λ h. env.services.create h svc) >>= λ answer.
    elim answer [
      | ok _ ↦ pure finished
      | err e ↦
          publish_event env svc.meta.namespace "CreateServiceFailed" e.message "Warning"
            ("Service/" ⧺ svc.meta.name)
          >> pure (failed_in_5 e)
    ]

-- The service that an Update sends: the address where the spec has none, and the resource version,
-- are those of the service that exists.
unfoldable pub adopt_service : Service → Service → Service
adopt_service svc existing = record svc {
  meta = record (svc.meta) { resource_version = existing.meta.resource_version };
  spec = record (svc.spec) {
    cluster_ip =
        if svc.spec.cluster_ip == "" then existing.spec.cluster_ip else svc.spec.cluster_ip;
  };
}

unfoldable pub update_service : Env → Service → Service → Action Reply
unfolding ◌>>=◌
update_service env svc existing =
    let sent = adopt_service svc existing in
    call (updated (service sent)) (λ h. env.services.update h sent) >>= λ answer. elim answer [
      | ok _ ↦ store_hash (service_key svc) (service_hash env svc) >> pure again_in_5
      | err e ↦ pure (failed_in_5 e)
    ]

-- What follows the Get.
unfoldable pub settle_service : Env → Service → Answer Service → Action Reply
unfolding ◌>>=◌ create_service update_service
settle_service env svc (err e) =
    if e.is_not_found then create_service env svc else pure (failed_in_5 e)
settle_service env svc (ok existing) = do
  stored ← stored_hash (service_key svc)
  if service_hash env svc == text_or_empty stored
      then pure finished
      else update_service env svc existing

unfoldable pub reconcile_service : Env → String → Service → Action Reply
unfolding ◌>>=◌ settle_service
reconcile_service env namespace svc =
    let key : NamespacedName = record { name = svc.meta.name; namespace = namespace } in
    call (got services key) (λ h. env.services.get h key) >>= λ existing.
    settle_service env svc existing
