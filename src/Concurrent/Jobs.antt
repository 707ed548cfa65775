-- ===== src/Concurrent/Jobs.antt =====
-- Calls of the four reconcile functions that run at the same time, whoever makes them.
use hbase_k8s_operator.Prelude.{
  String, ℕ, ◌≡◌, refl, Option, none, some, inl, inr, ◌==◌, List, [], ◌∷◌, All,
}
use hbase_k8s_operator.GoMap.{lookup}
use hbase_k8s_operator.Api.{HbaseClusterDeployment}
use hbase_k8s_operator.Kube.{ConfigMap, Service, StatefulSet, PodDisruptionBudget, config_map}
use hbase_k8s_operator.Env.{Env, Answer, Answer-cases, ok, err, Call, created, updated}
use hbase_k8s_operator.Action.{State, Action, Reply, pure, finished, failed_in_5, ◌>>=◌}
use hbase_k8s_operator.Build.ConfigMap.{text_or_empty}
use hbase_k8s_operator.Reconcile.Hash.{config_map_key, config_map_hash}
use hbase_k8s_operator.Reconcile.ConfigMaps.{annotate, reconcile_config_map}
use hbase_k8s_operator.Reconcile.Services.{reconcile_service}
use hbase_k8s_operator.Reconcile.StatefulSets.{reconcile_stateful_set}
use hbase_k8s_operator.Reconcile.Pdbs.{reconcile_pod_disruption_budget}
use hbase_k8s_operator.Controllers.Honest.{IsHonest}
use hbase_k8s_operator.Concurrent.Program.{Program, finish, ask, look, run, interleave}
use hbase_k8s_operator.Concurrent.StatefulSets.{reconcile_steps, run-reconcile_steps}
use hbase_k8s_operator.Concurrent.Pdbs.{reconcile_budget_steps, run-reconcile_budget_steps}
use hbase_k8s_operator.Concurrent.Services.{reconcile_service_steps, run-reconcile_service_steps}
use hbase_k8s_operator.Concurrent.ConfigMaps.{
  created_config, sent_config, update_steps, settle_config_steps, reconcile_config_steps,
  run-reconcile_config_steps,
}
use hbase_k8s_operator.Concurrent.Honest.{Justified, interleave-IsHonest}
use hbase_k8s_operator.Concurrent.Justified.{
  either_Justified, reconcile_steps-Justified, reconcile_budget_steps-Justified,
  reconcile_service_steps-Justified,
}

-- One call of reconcileService, reconcileConfigMap, reconcileStatefulSet or
-- reconcilePodDisruptionBudget, with its arguments.
pub data Job : Type 0 where
  service_job : String → Service → Job
  config_map_job : String → ConfigMap → Job
  stateful_set_job : String → StatefulSet → HbaseClusterDeployment → Job
  budget_job : PodDisruptionBudget → Job

abbrev pub steps_of : Env → Job → Program Reply
steps_of env (service_job namespace svc) = reconcile_service_steps env namespace svc
steps_of env (config_map_job namespace cfg) = reconcile_config_steps env namespace cfg
steps_of env (stateful_set_job namespace ss d) = reconcile_steps env namespace ss d
steps_of env (budget_job pdb) = reconcile_budget_steps env pdb

abbrev pub action_of : Env → Job → Action Reply
action_of env (service_job namespace svc) = reconcile_service env namespace svc
action_of env (config_map_job namespace cfg) =
    reconcile_config_map env namespace cfg >>= λ (r, _). pure r
action_of env (stateful_set_job namespace ss d) = reconcile_stateful_set env namespace ss d
action_of env (budget_job pdb) = reconcile_pod_disruption_budget env pdb

abbrev pub programs : Env → List Job → List (Program Reply)
programs env [] = []
programs env (j ∷ jobs) = steps_of env j ∷ programs env jobs

module _ (env : Env) where
  created_config-Justified :
      (h : List Call) (answer : Answer ConfigMap) → Justified env h (created_config answer)
  created_config-Justified h (ok _) = tt
  created_config-Justified h (err _) = tt

  sent_config-Justified :
      (h : List Call) (cfg : ConfigMap)
      → Justified env
          (updated (config_map cfg) ∷ h)
          (sent_config cfg (config_map_hash env cfg) (env.config_maps.update h cfg))
  sent_config-Justified h cfg = elim (Answer-cases (env.config_maps.update h cfg)) [
    | inl (x, e) ↦ rw e (inl (x, e, refl, refl), tt)
    | inr (x, e) ↦ rw e tt
  ]

  -- The annotation changes neither the key nor the hash.
  update_steps-Justified :
      (h : List Call) (cfg : ConfigMap) (stored : Option String)
      → Justified env h (update_steps env cfg stored)
  unfolding config_map_hash annotate
  update_steps-Justified h cfg none = λ h' g. sent_config-Justified h' cfg
  update_steps-Justified h cfg (some _) =
      λ h0 g0. λ h' g. sent_config-Justified h' (annotate (env.time_text (env.now h0)) cfg)

  settle_config_steps-Justified :
      (cfg : ConfigMap) (h : List Call) (answer : Answer ConfigMap)
      → Justified env h (settle_config_steps env cfg answer)
  unfolding settle_config_steps
  settle_config_steps-Justified cfg h (err e) =
      either_Justified env h e.is_not_found
        (ask (created (config_map cfg)) (λ h'. created_config (env.config_maps.create h' cfg)))
        (finish (failed_in_5 e)) (λ h' g. created_config-Justified _ _) tt
  settle_config_steps-Justified cfg h (ok existing) = λ hashes.
      either_Justified env h
        (config_map_hash env cfg == text_or_empty (lookup (config_map_key cfg) hashes))
        (finish finished)
        (look λ hashes'. update_steps env cfg (lookup (config_map_key cfg) hashes')) tt
        (λ hashes'. update_steps-Justified h cfg (lookup (config_map_key cfg) hashes'))

  steps-Justified : (h : List Call) (j : Job) → Justified env h (steps_of env j)
  unfolding reconcile_config_steps
  steps-Justified h (service_job namespace svc) =
      reconcile_service_steps-Justified env h namespace svc
  steps-Justified h (config_map_job namespace cfg) = λ h' g. settle_config_steps-Justified cfg _ _
  steps-Justified h (stateful_set_job namespace ss d) =
      reconcile_steps-Justified env h namespace ss d
  steps-Justified h (budget_job pdb) = reconcile_budget_steps-Justified env h pdb

  programs-Justified : (h : List Call) (jobs : List Job) → All (Justified env h) (programs env jobs)
  programs-Justified h [] = tt
  programs-Justified h (j ∷ jobs) = (steps-Justified h j, programs-Justified h jobs)

  -- An operator starts with an empty hash store. However many calls of the four reconcile functions
  -- run at the same time, and in whatever order their calls of the client and their uses of the hash
  -- store come, whatever the server answers, each entry of the hash store stands for an Update that
  -- the server has accepted: of an object with that key, whose desired content has that hash.
  pub concurrent-IsHonest :
      (before : List Call) (jobs : List Job) (schedule : List ℕ)
      → IsHonest env
          (interleave schedule (programs env jobs) (record { hash_store = []; history = before })).1
  unfolding lookup
  concurrent-IsHonest before jobs schedule =
      interleave-IsHonest env schedule _ _ (record { recorded = λ key hash e. cc })
        (programs-Justified before jobs)

  -- The steps of each of the four reconcile functions, run alone, do what the function does, in the
  -- reply, the calls and the hash store. The config map that reconcileConfigMap leaves in its
  -- argument is not kept.
  run-steps_of : (j : Job) (s : State) → run (steps_of env j) s ≡ action_of env j s
  run-steps_of (service_job namespace svc) s = run-reconcile_service_steps env namespace svc s
  run-steps_of (config_map_job namespace cfg) s = run-reconcile_config_steps env namespace cfg s
  run-steps_of (stateful_set_job namespace ss d) s = run-reconcile_steps env ss d namespace s
  run-steps_of (budget_job pdb) s = run-reconcile_budget_steps env pdb s
