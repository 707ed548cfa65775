-- ===== src/Examples/Starting.antt =====
-- Starts of the operator: one that the runtime accepts, and one whose tenant controller it refuses.
use hbase_k8s_operator.Prelude.{
  ◌≡◌, refl, none, some, [], if◌then◌else◌, Bool, true, false, length, Any, inl,
}
use hbase_k8s_operator.Kube.{Kind}
use hbase_k8s_operator.Env.{Error}
use hbase_k8s_operator.Watch.{get_watch_namespaces}
use hbase_k8s_operator.Startup.{Runtime, Boot, default_flags, main, set_up, complete}
use hbase_k8s_operator.Startup.Order.{Upto, planned, main-Upto}
use hbase_k8s_operator.Examples.Watching.{shell}
use hbase_k8s_operator.Examples.World.{key}
use hbase_k8s_operator.Startup.Serving.{is_run, Answers, main-Answers}
use hbase_k8s_operator.Controllers.Requests.{tenant}

abbrev refusal : Error
refusal = record { message = "refused"; is_not_found = false }

-- Only the controller for tenants is refused.
abbrev is_tenants : Kind → Bool
is_tenants Kind.hbase_tenants = true
is_tenants _ = false

abbrev runtime : Runtime
runtime h (complete r) = if is_tenants r.for_kind then some refusal else none
runtime h _ = none

abbrev boot : Boot
boot = record { calls = []; log = [] }

main-Upto_example :
    Upto runtime []
      (planned shell default_flags)
      (main shell runtime default_flags boot).1.calls
      (main shell runtime default_flags boot).0
main-Upto_example = main-Upto shell runtime default_flags boot

-- It stops at the fourth call, with exit code 1 and two entries in the log.
stops : (main shell runtime default_flags boot).0 ≡ 1
unfolding main set_up get_watch_namespaces
stops = refl

stops_at : length (main shell runtime default_flags boot).1.calls ≡ 4
unfolding main set_up get_watch_namespaces
stops_at = refl

logs : length (main shell runtime default_flags boot).1.log ≡ 2
unfolding main set_up get_watch_namespaces
logs = refl

-- A runtime that refuses nothing gets all eight calls.
abbrev willing : Runtime
willing h c = none

runs : (main shell willing default_flags boot).0 ≡ 0
unfolding main set_up get_watch_namespaces
runs = refl

makes_all : length (main shell willing default_flags boot).1.calls ≡ 8
unfolding main set_up get_watch_namespaces
makes_all = refl

ran : Any (λ c. is_run c ≡ true) (main shell willing default_flags boot).1.calls
unfolding main set_up get_watch_namespaces
ran = inl refl

main-Answers_example : Any (Answers (tenant key)) (main shell willing default_flags boot).1.calls
main-Answers_example = main-Answers shell willing default_flags [] ran (tenant key)
