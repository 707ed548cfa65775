-- ===== src/Concurrent/Justified.antt =====
-- The steps of the four reconcile functions record only what has been accepted.
use hbase_k8s_operator.Prelude.{
  String, refl, Bool, true, false, not, inl, inr, ◌==◌, if◌then◌else◌, List, ◌∷◌,
}
use hbase_k8s_operator.GoMap.{lookup}
use hbase_k8s_operator.Api.{HbaseClusterDeployment}
use hbase_k8s_operator.Kube.{
  Service, StatefulSet, PodDisruptionBudget, Event, service, stateful_set, pod_disruption_budget,
  event,
}
use hbase_k8s_operator.Env.{Env, Answer, Answer-cases, ok, err, Call, created, updated}
use hbase_k8s_operator.Action.{Reply, requeue_in, finished, failed_in_5}
use hbase_k8s_operator.Build.ConfigMap.{text_or_empty}
use hbase_k8s_operator.Reconcile.Hash.{
  service_key, service_hash, stateful_set_key, stateful_set_hash, pdb_key, pdb_hash,
}
use hbase_k8s_operator.Reconcile.Services.{adopt_service}
use hbase_k8s_operator.Reconcile.StatefulSets.{is_rolling}
use hbase_k8s_operator.Reconcile.Pdbs.{adopt_pdb}
use hbase_k8s_operator.Concurrent.Program.{Program, finish, ask}
use hbase_k8s_operator.Concurrent.StatefulSets.{
  created_reply, updated_reply, settle_steps, reconcile_steps,
}
use hbase_k8s_operator.Concurrent.Pdbs.{
  created_budget, updated_budget, settle_budget_steps, reconcile_budget_steps,
}
use hbase_k8s_operator.Concurrent.Services.{
  write_event_steps, publish_steps, created_service, updated_service, settle_service_steps,
  reconcile_service_steps,
}
use hbase_k8s_operator.Concurrent.Honest.{Justified}

module _ (env : Env) where
  pub either_Justified :
      (h : List Call) (b : Bool) (p q : Program Reply)
      → Justified env h p
      → Justified env h q
      → Justified env h (if b then p else q)
  either_Justified h true p q j k = j
  either_Justified h false p q j k = k

  created_reply-Justified :
      (h : List Call) (answer : Answer StatefulSet) → Justified env h (created_reply answer)
  created_reply-Justified h (ok _) = tt
  created_reply-Justified h (err _) = tt

  updated_reply-Justified :
      (h : List Call) (ss : StatefulSet)
      → Justified env
          (updated (stateful_set ss) ∷ h)
          (updated_reply env ss (env.stateful_sets.update h ss))
  updated_reply-Justified h ss = elim (Answer-cases (env.stateful_sets.update h ss)) [
    | inl (x, e) ↦ rw e (inl (x, e, refl, refl), tt)
    | inr (x, e) ↦ rw e tt
  ]

  settle_steps-Justified :
      (ss : StatefulSet) (d : HbaseClusterDeployment) (h : List Call) (answer : Answer StatefulSet)
      → Justified env h (settle_steps env ss d answer)
  unfolding settle_steps
  settle_steps-Justified ss d h (err e) =
      either_Justified h e.is_not_found
        (ask (created (stateful_set ss)) (λ h'. created_reply (env.stateful_sets.create h' ss)))
        (finish (failed_in_5 e)) (λ h' g. created_reply-Justified _ _) tt
  settle_steps-Justified ss d h (ok existing) = λ hashes.
      either_Justified h
        (not (stateful_set_hash env ss == text_or_empty (lookup (stateful_set_key ss) hashes)))
        (ask (updated (stateful_set ss))
          (λ h'. updated_reply env ss (env.stateful_sets.update h' ss)))
        (finish (if is_rolling d existing then requeue_in 10 else finished))
        (λ h' g. updated_reply-Justified h' ss) tt

  pub reconcile_steps-Justified :
      (h : List Call) (namespace : String) (ss : StatefulSet) (d : HbaseClusterDeployment)
      → Justified env h (reconcile_steps env namespace ss d)
  unfolding reconcile_steps
  reconcile_steps-Justified h namespace ss d = λ h' g. settle_steps-Justified ss d _ _

  created_budget-Justified :
      (h : List Call) (answer : Answer PodDisruptionBudget)
      → Justified env h (created_budget answer)
  created_budget-Justified h (ok _) = tt
  created_budget-Justified h (err _) = tt

  updated_budget-Justified :
      (h : List Call) (pdb existing : PodDisruptionBudget)
      → Justified env
          (updated (pod_disruption_budget (adopt_pdb pdb existing)) ∷ h)
          (updated_budget env pdb (env.pod_disruption_budgets.update h (adopt_pdb pdb existing)))
  updated_budget-Justified h pdb existing =
      elim (Answer-cases (env.pod_disruption_budgets.update h (adopt_pdb pdb existing))) [
        | inl (x, e) ↦ rw e (inl (x, pdb, existing, e, refl, refl, refl), tt)
        | inr (x, e) ↦ rw e tt
      ]

  settle_budget_steps-Justified :
      (pdb : PodDisruptionBudget) (h : List Call) (answer : Answer PodDisruptionBudget)
      → Justified env h (settle_budget_steps env pdb answer)
  unfolding settle_budget_steps
  settle_budget_steps-Justified pdb h (err e) =
      either_Justified h e.is_not_found
        (ask (created (pod_disruption_budget pdb))
          (λ h'. created_budget (env.pod_disruption_budgets.create h' pdb)))
        (finish (failed_in_5 e)) (λ h' g. created_budget-Justified _ _) tt
  settle_budget_steps-Justified pdb h (ok existing) = λ hashes.
      either_Justified h (not (pdb_hash env pdb == text_or_empty (lookup (pdb_key pdb) hashes)))
        (ask (updated (pod_disruption_budget (adopt_pdb pdb existing))) (λ h'.
          updated_budget env pdb (env.pod_disruption_budgets.update h' (adopt_pdb pdb existing))))
        (finish finished) (λ h' g. updated_budget-Justified h' pdb existing) tt

  pub reconcile_budget_steps-Justified :
      (h : List Call) (pdb : PodDisruptionBudget) → Justified env h (reconcile_budget_steps env pdb)
  unfolding reconcile_budget_steps
  reconcile_budget_steps-Justified h pdb = λ h' g. settle_budget_steps-Justified pdb _ _

  write_event_steps-Justified :
      (evt : Event) (h : List Call) (answer : Answer Event) (r : Reply)
      → Justified env h (write_event_steps env evt answer (finish r))
  unfolding write_event_steps
  write_event_steps-Justified evt h (ok existing) r = λ h' g. tt
  write_event_steps-Justified evt h (err e) r =
      either_Justified h e.is_not_found (ask (created (event evt)) (λ _. finish r)) (finish r)
        (λ h' g. tt) tt

  created_service-Justified :
      (svc : Service) (h : List Call) (answer : Answer Service)
      → Justified env h (created_service env svc answer)
  unfolding publish_steps
  created_service-Justified svc h (ok _) = tt
  created_service-Justified svc h (err e) =
      λ h' g. λ h'' g'. write_event_steps-Justified _ _ _ (failed_in_5 e)

  updated_service-Justified :
      (h : List Call) (svc existing : Service)
      → Justified env
          (updated (service (adopt_service svc existing)) ∷ h)
          (updated_service env svc (env.services.update h (adopt_service svc existing)))
  updated_service-Justified h svc existing =
      elim (Answer-cases (env.services.update h (adopt_service svc existing))) [
        | inl (x, e) ↦ rw e (inl (x, svc, existing, e, refl, refl, refl), tt)
        | inr (x, e) ↦ rw e tt
      ]

  settle_service_steps-Justified :
      (svc : Service) (h : List Call) (answer : Answer Service)
      → Justified env h (settle_service_steps env svc answer)
  unfolding settle_service_steps
  settle_service_steps-Justified svc h (err e) =
      either_Justified h e.is_not_found
        (ask (created (service svc)) (λ h'. created_service env svc (env.services.create h' svc)))
        (finish (failed_in_5 e)) (λ h' g. created_service-Justified svc _ _) tt
  settle_service_steps-Justified svc h (ok existing) = λ hashes.
      either_Justified h (service_hash env svc == text_or_empty (lookup (service_key svc) hashes))
        (finish finished)
        (ask (updated (service (adopt_service svc existing)))
          (λ h'. updated_service env svc (env.services.update h' (adopt_service svc existing))))
        tt (λ h' g. updated_service-Justified h' svc existing)

  pub reconcile_service_steps-Justified :
      (h : List Call) (namespace : String) (svc : Service)
      → Justified env h (reconcile_service_steps env namespace svc)
  unfolding reconcile_service_steps
  reconcile_service_steps-Justified h namespace svc = λ h' g. settle_service_steps-Justified svc _ _
