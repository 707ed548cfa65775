-- ===== src/Reconcile/Pdbs.antt =====
-- operator/controllers/utils.go: reconcilePodDisruptionBudget.
use hbase_k8s_operator.Prelude.{not, ◌==◌, if◌then◌else◌}
use hbase_k8s_operator.Api.{NamespacedName}
use hbase_k8s_operator.Kube.{PodDisruptionBudget, pod_disruption_budget, pod_disruption_budgets}
use hbase_k8s_operator.Env.{Env, Answer, ok, err, got, created, updated}
use hbase_k8s_operator.Action.{
  Action, Reply, ◌>>=◌, ◌>>◌, pure, call, stored_hash, store_hash, finished, requeue_in,
  failed_in_5,
}
use hbase_k8s_operator.Build.ConfigMap.{text_or_empty}
use hbase_k8s_operator.Reconcile.Hash.{pdb_key, pdb_hash}

unfoldable pub create_pdb : Env → PodDisruptionBudget → Action Reply
unfolding ◌>>=◌
create_pdb env pdb =
    call (created (pod_disruption_budget pdb)) (λ h. env.pod_disruption_budgets.create h pdb)
    >>= λ answer. elim answer [ ok _ ↦ pure (requeue_in 5) | err e ↦ pure (failed_in_5 e) ]

-- The budget that an Update sends.
unfoldable pub adopt_pdb : PodDisruptionBudget → PodDisruptionBudget → PodDisruptionBudget
adopt_pdb pdb existing = record pdb {
  meta = record (pdb.meta) { resource_version = existing.meta.resource_version };
}

unfoldable pub update_pdb : Env → PodDisruptionBudget → PodDisruptionBudget → Action Reply
unfolding ◌>>=◌
update_pdb env pdb existing =
    let sent = adopt_pdb pdb existing in
    call (updated (pod_disruption_budget sent)) (λ h. env.pod_disruption_budgets.update h sent)
    >>= λ answer. elim answer [
      | ok _ ↦ store_hash (pdb_key pdb) (pdb_hash env pdb) >> pure (requeue_in 10)
      | err e ↦ pure (failed_in_5 e)
    ]

-- What follows the Get.
unfoldable pub settle_pdb : Env → PodDisruptionBudget → Answer PodDisruptionBudget → Action Reply
unfolding ◌>>=◌ create_pdb update_pdb
settle_pdb env pdb (err e) = if e.is_not_found then create_pdb env pdb else pure (failed_in_5 e)
settle_pdb env pdb (ok existing) = do
  stored ← stored_hash (pdb_key pdb)
  if not (pdb_hash env pdb == text_or_empty stored)
      then update_pdb env pdb existing
      else pure finished

unfoldable pub reconcile_pod_disruption_budget : Env → PodDisruptionBudget → Action Reply
unfolding ◌>>=◌ settle_pdb
reconcile_pod_disruption_budget env pdb =
    let key : NamespacedName = record { name = pdb.meta.name; namespace = pdb.meta.namespace } in
    call (got pod_disruption_budgets key) (λ h. env.pod_disruption_budgets.get h key)
    >>= λ existing. settle_pdb env pdb existing
