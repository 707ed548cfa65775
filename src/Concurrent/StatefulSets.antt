-- ===== src/Concurrent/StatefulSets.antt =====
-- operator/controllers/utils.go: reconcileStatefulSet, step by step.
use hbase_k8s_operator.Prelude.{String, ◌≡◌, not, ◌==◌, if◌then◌else◌, arith}
use hbase_k8s_operator.GoMap.{lookup}
use hbase_k8s_operator.Api.{NamespacedName, HbaseClusterDeployment}
use hbase_k8s_operator.Kube.{StatefulSet, stateful_set, stateful_sets}
use hbase_k8s_operator.Env.{Env, Answer, ok, err, got, created, updated}
use hbase_k8s_operator.Action.{State, Reply, finished, requeue_in, failed_in_5, ◌>>=◌}
use hbase_k8s_operator.Build.ConfigMap.{text_or_empty}
use hbase_k8s_operator.Reconcile.Hash.{stateful_set_key, stateful_set_hash}
use hbase_k8s_operator.Reconcile.StatefulSets.{
  is_rolling, wait_for_stateful_set, create_stateful_set, update_stateful_set, settle_stateful_set,
  reconcile_stateful_set,
}
use hbase_k8s_operator.Concurrent.Program.{Program, finish, ask, look, store, run}

abbrev pub created_reply : Answer StatefulSet → Program Reply
created_reply (ok _) = finish (requeue_in 5)
created_reply (err e) = finish (failed_in_5 e)

abbrev pub updated_reply : Env → StatefulSet → Answer StatefulSet → Program Reply
updated_reply env ss (ok _) =
    store (stateful_set_key ss) (stateful_set_hash env ss) (finish (requeue_in 10))
updated_reply env ss (err e) = finish (failed_in_5 e)

unfoldable pub settle_steps :
    Env → StatefulSet → HbaseClusterDeployment → Answer StatefulSet → Program Reply
settle_steps env ss d (err e) =
    if e.is_not_found
    then ask (created (stateful_set ss)) (λ h. created_reply (env.stateful_sets.create h ss))
    else finish (failed_in_5 e)
settle_steps env ss d (ok existing) = look λ hashes.
    if not (stateful_set_hash env ss == text_or_empty (lookup (stateful_set_key ss) hashes))
    then ask (updated (stateful_set ss)) (λ h. updated_reply env ss (env.stateful_sets.update h ss))
    else finish (if is_rolling d existing then requeue_in 10 else finished)

unfoldable pub reconcile_steps : Env → String → StatefulSet → HbaseClusterDeployment → Program Reply
unfolding settle_steps
reconcile_steps env namespace ss d =
    let key : NamespacedName = record { name = d.name; namespace = namespace } in
    ask (got stateful_sets key) (λ h. settle_steps env ss d (env.stateful_sets.get h key))

module _ (env : Env) (ss : StatefulSet) (d : HbaseClusterDeployment) where
  settle-run :
      (answer : Answer StatefulSet) (s : State)
      → run (settle_steps env ss d answer) s ≡ settle_stateful_set env ss d answer s
  unfolding run settle_steps settle_stateful_set create_stateful_set update_stateful_set
      wait_for_stateful_set ◌>>=◌
  settle-run (err e) s = ground arith
  settle-run (ok existing) s = ground arith

  -- Run alone, the steps of reconcileStatefulSet do what `reconcile_stateful_set` does.
  pub run-reconcile_steps :
      (namespace : String) (s : State)
      → run (reconcile_steps env namespace ss d) s ≡ reconcile_stateful_set env namespace ss d s
  unfolding run reconcile_steps reconcile_stateful_set ◌>>=◌
  run-reconcile_steps namespace s = settle-run _ _
