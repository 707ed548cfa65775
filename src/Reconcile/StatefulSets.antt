-- ===== src/Reconcile/StatefulSets.antt =====
-- operator/controllers/utils.go: reconcileStatefulSet.
use hbase_k8s_operator.Prelude.{String, Bool, not, ◌||◌, ◌==◌, eq_ℤ, if◌then◌else◌}
use hbase_k8s_operator.Api.{NamespacedName, HbaseClusterDeployment}
use hbase_k8s_operator.Kube.{StatefulSet, stateful_set, stateful_sets}
use hbase_k8s_operator.Env.{Env, Answer, ok, err, got, created, updated}
use hbase_k8s_operator.Action.{
  Action, Reply, ◌>>=◌, ◌>>◌, pure, call, stored_hash, store_hash, finished, requeue_in,
  failed_in_5,
}
use hbase_k8s_operator.Build.ConfigMap.{text_or_empty}
use hbase_k8s_operator.Reconcile.Hash.{stateful_set_key, stateful_set_hash}

unfoldable pub create_stateful_set : Env → StatefulSet → Action Reply
unfolding ◌>>=◌
create_stateful_set env ss =
    call (created (stateful_set ss)) (λ h. env.stateful_sets.create h ss) >>= λ answer.
    elim answer [ ok _ ↦ pure (requeue_in 5) | err e ↦ pure (failed_in_5 e) ]

unfoldable pub update_stateful_set : Env → StatefulSet → Action Reply
unfolding ◌>>=◌
update_stateful_set env ss =
    call (updated (stateful_set ss)) (λ h. env.stateful_sets.update h ss) >>= λ answer.
    elim answer [
      | ok _ ↦ store_hash (stateful_set_key ss) (stateful_set_hash env ss) >> pure (requeue_in 10)
      | err e ↦ pure (failed_in_5 e)
    ]

-- ReadyReplicas != d.Size || CurrentRevision != UpdateRevision
unfoldable pub is_rolling : HbaseClusterDeployment → StatefulSet → Bool
is_rolling d existing =
    not (eq_ℤ existing.status.ready_replicas d.size)
    || not (existing.status.current_revision == existing.status.update_revision)

-- The last two branches: wait for the rollout, or go on.
unfoldable pub wait_for_stateful_set : HbaseClusterDeployment → StatefulSet → Action Reply
wait_for_stateful_set d existing =
    if is_rolling d existing then pure (requeue_in 10) else pure finished

-- What follows the Get.
unfoldable pub settle_stateful_set :
    Env → StatefulSet → HbaseClusterDeployment → Answer StatefulSet → Action Reply
unfolding ◌>>=◌ create_stateful_set update_stateful_set
settle_stateful_set env ss d (err e) =
    if e.is_not_found then create_stateful_set env ss else pure (failed_in_5 e)
settle_stateful_set env ss d (ok existing) = do
  stored ← stored_hash (stateful_set_key ss)
  if not (stateful_set_hash env ss == text_or_empty stored)
      then update_stateful_set env ss
      else wait_for_stateful_set d existing

unfoldable pub reconcile_stateful_set :
    Env → String → StatefulSet → HbaseClusterDeployment → Action Reply
unfolding ◌>>=◌ settle_stateful_set
reconcile_stateful_set env namespace ss d =
    let key : NamespacedName = record { name = d.name; namespace = namespace } in
    call (got stateful_sets key) (λ h. env.stateful_sets.get h key) >>= λ existing.
    settle_stateful_set env ss d existing
