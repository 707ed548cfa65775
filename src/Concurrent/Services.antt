-- ===== src/Concurrent/Services.antt =====
-- operator/controllers/utils.go: publishEvent and reconcileService, step by step.
use hbase_k8s_operator.Prelude.{
  String, ◌⧺◌, ◌≡◌, refl, ◌==◌, if◌then◌else◌, arith, Bool-cases, inl, inr,
}
use hbase_k8s_operator.GoMap.{lookup}
use hbase_k8s_operator.Api.{NamespacedName}
use hbase_k8s_operator.Kube.{Service, service, services, Event, event, events}
use hbase_k8s_operator.Env.{Env, Answer, Answer-cases, ok, err, got, created, updated}
use hbase_k8s_operator.Action.{State, Reply, pure, finished, again_in_5, failed_in_5, ◌>>=◌, ◌>>◌}
use hbase_k8s_operator.Build.ConfigMap.{text_or_empty}
use hbase_k8s_operator.Build.Event.{build_event}
use hbase_k8s_operator.Reconcile.Events.{recount, write_event, publish_event}
use hbase_k8s_operator.Reconcile.Hash.{service_key, service_hash}
use hbase_k8s_operator.Reconcile.Services.{
  adopt_service, create_service, update_service, settle_service, reconcile_service,
}
use hbase_k8s_operator.Concurrent.Program.{Program, finish, ask, moment, look, store, run}

unfoldable pub write_event_steps : Env → Event → Answer Event → Program Reply → Program Reply
write_event_steps env evt (ok existing) rest =
    ask (updated (event (recount evt existing))) (λ _. rest)
write_event_steps env evt (err e) rest =
    if e.is_not_found then ask (created (event evt)) (λ _. rest) else rest

-- publishEvent, and what comes after it.
unfoldable pub publish_steps :
    Env → String → String → String → String → String → Program Reply → Program Reply
unfolding write_event_steps
publish_steps env namespace reason message level kind rest = moment λ h0.
    let evt = build_event (env.now h0) namespace reason message level kind in
    let key : NamespacedName = record { name = evt.meta.name; namespace = namespace } in
    ask (got events key) (λ h. write_event_steps env evt (env.events.get h key) rest)

abbrev pub created_service : Env → Service → Answer Service → Program Reply
created_service env svc (ok _) = finish finished
created_service env svc (err e) =
    publish_steps env svc.meta.namespace "CreateServiceFailed" e.message "Warning"
      ("Service/" ⧺ svc.meta.name) (finish (failed_in_5 e))

abbrev pub updated_service : Env → Service → Answer Service → Program Reply
updated_service env svc (ok _) = store (service_key svc) (service_hash env svc) (finish again_in_5)
updated_service env svc (err e) = finish (failed_in_5 e)

unfoldable pub settle_service_steps : Env → Service → Answer Service → Program Reply
settle_service_steps env svc (err e) =
    if e.is_not_found
    then ask (created (service svc)) (λ h. created_service env svc (env.services.create h svc))
    else finish (failed_in_5 e)
settle_service_steps env svc (ok existing) = look λ hashes.
    if service_hash env svc == text_or_empty (lookup (service_key svc) hashes)
    then finish finished
    else ask (updated (service (adopt_service svc existing)))
        (λ h. updated_service env svc (env.services.update h (adopt_service svc existing)))

unfoldable pub reconcile_service_steps : Env → String → Service → Program Reply
unfolding settle_service_steps
reconcile_service_steps env namespace svc =
    let key : NamespacedName = record { name = svc.meta.name; namespace = namespace } in
    ask (got services key) (λ h. settle_service_steps env svc (env.services.get h key))

module _ (env : Env) where
  publish-run :
      (namespace reason message level kind : String) (r : Reply) (s : State)
      → run (publish_steps env namespace reason message level kind (finish r)) s
        ≡ (publish_event env namespace reason message level kind >> pure r) s
  unfolding run publish_steps write_event_steps publish_event write_event ◌>>=◌
  publish-run namespace reason message level kind r s = ground arith

  create-run :
      (svc : Service) (s : State)
      → run
          (ask (created (service svc)) (λ h. created_service env svc (env.services.create h svc)))
          s
        ≡ create_service env svc s
  unfolding run create_service ◌>>=◌
  create-run svc s = elim (Answer-cases (env.services.create s.history svc)) [
    | inl (x, p) ↦ rw (run, p, create_service) refl
    | inr (e, p) ↦ rw (run, p, create_service) (publish-run _ _ e.message _ _ (failed_in_5 e) _)
  ]

  settle-run :
      (svc : Service) (answer : Answer Service) (s : State)
      → run (settle_service_steps env svc answer) s ≡ settle_service env svc answer s
  unfolding run settle_service_steps settle_service create_service update_service ◌>>=◌
  settle-run svc (err e) s = elim (Bool-cases e.is_not_found) [
    | inl b ↦ rw b (create-run svc s)
    | inr b ↦ rw b refl
  ]
  settle-run svc (ok existing) s = ground arith

  -- Run alone, the steps of reconcileService do what `reconcile_service` does.
  pub run-reconcile_service_steps :
      (namespace : String) (svc : Service) (s : State)
      → run (reconcile_service_steps env namespace svc) s ≡ reconcile_service env namespace svc s
  unfolding run reconcile_service_steps reconcile_service ◌>>=◌
  run-reconcile_service_steps namespace svc s = settle-run svc _ _
