-- ===== src/Concurrent/Pdbs.antt =====
-- operator/controllers/utils.go: reconcilePodDisruptionBudget, step by step.
use hbase_k8s_operator.Prelude.{◌≡◌, not, ◌==◌, if◌then◌else◌, arith}
use hbase_k8s_operator.GoMap.{lookup}
use hbase_k8s_operator.Api.{NamespacedName}
use hbase_k8s_operator.Kube.{PodDisruptionBudget, pod_disruption_budget, pod_disruption_budgets}
use hbase_k8s_operator.Env.{Env, Answer, ok, err, got, created, updated}
use hbase_k8s_operator.Action.{State, Reply, finished, requeue_in, failed_in_5, ◌>>=◌}
use hbase_k8s_operator.Build.ConfigMap.{text_or_empty}
use hbase_k8s_operator.Reconcile.Hash.{pdb_key, pdb_hash}
use hbase_k8s_operator.Reconcile.Pdbs.{
  adopt_pdb, create_pdb, update_pdb, settle_pdb, reconcile_pod_disruption_budget,
}
use hbase_k8s_operator.Concurrent.Program.{Program, finish, ask, look, store, run}

abbrev pub created_budget : Answer PodDisruptionBudget → Program Reply
created_budget (ok _) = finish (requeue_in 5)
created_budget (err e) = finish (failed_in_5 e)

abbrev pub updated_budget : Env → PodDisruptionBudget → Answer PodDisruptionBudget → Program Reply
updated_budget env pdb (ok _) = store (pdb_key pdb) (pdb_hash env pdb) (finish (requeue_in 10))
updated_budget env pdb (err e) = finish (failed_in_5 e)

unfoldable pub settle_budget_steps :
    Env → PodDisruptionBudget → Answer PodDisruptionBudget → Program Reply
settle_budget_steps env pdb (err e) =
    if e.is_not_found
    then ask (created (pod_disruption_budget pdb))
        (λ h. created_budget (env.pod_disruption_budgets.create h pdb))
    else finish (failed_in_5 e)
settle_budget_steps env pdb (ok existing) = look λ hashes.
    if not (pdb_hash env pdb == text_or_empty (lookup (pdb_key pdb) hashes))
    then ask (updated (pod_disruption_budget (adopt_pdb pdb existing)))
        (λ h. updated_budget env pdb (env.pod_disruption_budgets.update h (adopt_pdb pdb existing)))
    else finish finished

unfoldable pub reconcile_budget_steps : Env → PodDisruptionBudget → Program Reply
unfolding settle_budget_steps
reconcile_budget_steps env pdb =
    let key : NamespacedName = record { name = pdb.meta.name; namespace = pdb.meta.namespace } in
    ask (got pod_disruption_budgets key)
      (λ h. settle_budget_steps env pdb (env.pod_disruption_budgets.get h key))

module _ (env : Env) (pdb : PodDisruptionBudget) where
  settle-run :
      (answer : Answer PodDisruptionBudget) (s : State)
      → run (settle_budget_steps env pdb answer) s ≡ settle_pdb env pdb answer s
  unfolding run settle_budget_steps settle_pdb create_pdb update_pdb ◌>>=◌
  settle-run (err e) s = ground arith
  settle-run (ok existing) s = ground arith

  -- Run alone, the steps do what `reconcile_pod_disruption_budget` does.
  pub run-reconcile_budget_steps :
      (s : State)
      → run (reconcile_budget_steps env pdb) s ≡ reconcile_pod_disruption_budget env pdb s
  unfolding run reconcile_budget_steps reconcile_pod_disruption_budget ◌>>=◌
  run-reconcile_budget_steps s = settle-run _ _
