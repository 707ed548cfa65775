-- ===== src/Build/Event.antt =====
-- operator/controllers/utils.go: buildEvent. The time is that of its two calls of time.Now(), between
-- which the program calls nothing else.
use hbase_k8s_operator.Prelude.{String, ℕ, pos, none}
use hbase_k8s_operator.Api.{new_meta}
use hbase_k8s_operator.Kube.{Event}

unfoldable pub build_event : ℕ → String → String → String → String → String → Event
build_event time namespace reason message level kind = record {
  meta = new_meta reason namespace none;
  involved_kind = kind;
  involved_namespace = namespace;
  event_type = level;
  reason = reason;
  message = message;
  count = pos 1;
  first_timestamp = time;
  last_timestamp = time;
}
