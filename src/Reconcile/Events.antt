-- ===== src/Reconcile/Events.antt =====
-- operator/controllers/utils.go: publishEvent. Its errors are only logged.
use hbase_k8s_operator.Prelude.{String, next_int32, if◌then◌else◌}
use hbase_k8s_operator.Api.{NamespacedName}
use hbase_k8s_operator.Kube.{Event, event, events}
use hbase_k8s_operator.Env.{Env, Answer, ok, err, got, created, updated}
use hbase_k8s_operator.Action.{Action, ◌>>=◌, pure, call, at_now}
use hbase_k8s_operator.Build.Event.{build_event}

-- The event that replaces one which exists.
abbrev pub recount : Event → Event → Event
recount evt existing = record evt {
  first_timestamp = existing.first_timestamp;
  count = next_int32 existing.count;
  meta = record (evt.meta) { resource_version = existing.meta.resource_version };
}

-- What follows the Get.
unfoldable pub write_event : Env → Event → Answer Event → Action Unit
unfolding ◌>>=◌
write_event env evt (ok existing) =
    let evt' = recount evt existing in
    call (updated (event evt')) (λ h. env.events.update h evt') >>= λ _. pure tt
write_event env evt (err e) =
    if e.is_not_found
    then (call (created (event evt)) (λ h. env.events.create h evt) >>= λ answer. pure tt)
    else pure tt

unfoldable pub publish_event : Env → String → String → String → String → String → Action Unit
unfolding ◌>>=◌ write_event
publish_event env namespace reason message level kind = at_now env.now >>= λ time.
    let evt = build_event time namespace reason message level kind in
    let key : NamespacedName = record { name = evt.meta.name; namespace = namespace } in
    call (got events key) (λ h. env.events.get h key) >>= λ existing. write_event env evt existing
