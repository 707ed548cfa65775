-- ===== src/Controllers/Honest/Parts.antt =====
-- The hash store against the calls that the server has accepted, for each part of a reconciliation.
use hbase_k8s_operator.Controllers.Honest.Entries.{IsHonest, accept, extend, publish-IsHonest}
use hbase_k8s_operator.Prelude.{String, refl, inl, inr, Option, none, some}
use hbase_k8s_operator.GoMap.{lookup}
use hbase_k8s_operator.Api.{HbaseClusterDeployment}
use hbase_k8s_operator.Kube.{
  ConfigMap, Service, StatefulSet, PodDisruptionBudget, config_map, service, stateful_set,
  pod_disruption_budget,
}
use hbase_k8s_operator.Env.{Env, Answer, ok, err, Answer-cases, updated}
use hbase_k8s_operator.Action.{State, pure, either_way, finished, failed_in_5, requeue_in}
use hbase_k8s_operator.Reconcile.Hash.{config_map_key, config_map_hash}
use hbase_k8s_operator.Reconcile.ConfigMaps.{
  reconcile_config_map, settle_config_map, create_config_map, update_config_map, send_config_map,
  annotate,
}
use hbase_k8s_operator.Reconcile.Services.{
  reconcile_service, settle_service, create_service, update_service, adopt_service,
}
use hbase_k8s_operator.Reconcile.StatefulSets.{
  reconcile_stateful_set, settle_stateful_set, create_stateful_set, update_stateful_set,
  wait_for_stateful_set, is_rolling,
}
use hbase_k8s_operator.Reconcile.Pdbs.{
  reconcile_pod_disruption_budget, settle_pdb, create_pdb, update_pdb, adopt_pdb,
}

module _ (env : Env) where
  create_service-IsHonest :
      (svc : Service) (s : State) → IsHonest env s → IsHonest env (create_service env svc s).1
  unfolding create_service
  create_service-IsHonest svc s p = elim (Answer-cases (env.services.create s.history svc)) [
    | inl (x, q) ↦ rw (q, create_service) (extend env s _ p)
    | inr (e, q) ↦
        rw (q, create_service)
          (publish-IsHonest env _ _ e.message _ _ (failed_in_5 e) _ (extend env s _ p))
  ]

  update_service-IsHonest :
      (svc existing : Service) (s : State)
      → IsHonest env s
      → IsHonest env (update_service env svc existing s).1
  unfolding update_service
  update_service-IsHonest svc existing s p =
      elim (Answer-cases (env.services.update s.history (adopt_service svc existing))) [
        | inl (x, q) ↦
            rw (q, update_service)
              (accept env s (updated (service (adopt_service svc existing))) _ _
                (x, svc, existing, q, refl, refl, refl) p)
        | inr (e, q) ↦ rw (q, update_service) (extend env s _ p)
      ]

  settle_service-IsHonest :
      (svc : Service) (answer : Answer Service) (s : State)
      → IsHonest env s
      → IsHonest env (settle_service env svc answer s).1
  unfolding settle_service
  settle_service-IsHonest svc (err e) s p =
      either_way (λ m. IsHonest env (m s).1) e.is_not_found (create_service env svc)
        (pure (failed_in_5 e)) (create_service-IsHonest svc s p) p
  settle_service-IsHonest svc (ok existing) s p =
      either_way (λ m. IsHonest env (m s).1) _ (pure finished) (update_service env svc existing) p
        (update_service-IsHonest svc existing s p)

  pub reconcile_service-IsHonest :
      (namespace : String) (svc : Service) (s : State)
      → IsHonest env s
      → IsHonest env (reconcile_service env namespace svc s).1
  unfolding reconcile_service
  reconcile_service-IsHonest namespace svc s p = settle_service-IsHonest svc _ _ (extend env s _ p)

  create_config_map-IsHonest :
      (cfg : ConfigMap) (s : State) → IsHonest env s → IsHonest env (create_config_map env cfg s).1
  unfolding create_config_map
  create_config_map-IsHonest cfg s p = elim (Answer-cases (env.config_maps.create s.history cfg)) [
    | inl (x, q) ↦ rw (q, create_config_map) (extend env s _ p)
    | inr (e, q) ↦ rw (q, create_config_map) (extend env s _ p)
  ]

  send_config_map-IsHonest :
      (cfg : ConfigMap) (s : State)
      → IsHonest env s
      → IsHonest env (send_config_map env cfg (config_map_hash env cfg) s).1
  unfolding send_config_map
  send_config_map-IsHonest cfg s p = elim (Answer-cases (env.config_maps.update s.history cfg)) [
    | inl (x, q) ↦
        rw (q, send_config_map) (accept env s (updated (config_map cfg)) _ _ (x, q, refl, refl) p)
    | inr (e, q) ↦ rw (q, send_config_map) (extend env s _ p)
  ]

  -- The annotation changes neither the key nor the hash.
  update_config_map-IsHonest :
      (cfg : ConfigMap) (stored : Option String) (s : State)
      → IsHonest env s
      → IsHonest env (update_config_map env cfg stored s).1
  unfolding update_config_map config_map_hash
  update_config_map-IsHonest cfg none s p = send_config_map-IsHonest cfg s p
  update_config_map-IsHonest cfg (some h) s p = send_config_map-IsHonest (annotate _ cfg) s p

  settle_config_map-IsHonest :
      (cfg : ConfigMap) (answer : Answer ConfigMap) (s : State)
      → IsHonest env s
      → IsHonest env (settle_config_map env cfg answer s).1
  unfolding settle_config_map
  settle_config_map-IsHonest cfg (err e) s p =
      either_way (λ m. IsHonest env (m s).1) e.is_not_found (create_config_map env cfg)
        (pure (failed_in_5 e, cfg)) (create_config_map-IsHonest cfg s p) p
  settle_config_map-IsHonest cfg (ok existing) s p =
      either_way (λ m. IsHonest env (m s).1) _ (pure (finished, cfg))
        (update_config_map env cfg (lookup (config_map_key cfg) s.hash_store)) p
        (update_config_map-IsHonest cfg _ s p)

  pub reconcile_config_map-IsHonest :
      (namespace : String) (cfg : ConfigMap) (s : State)
      → IsHonest env s
      → IsHonest env (reconcile_config_map env namespace cfg s).1
  unfolding reconcile_config_map
  reconcile_config_map-IsHonest namespace cfg s p =
      settle_config_map-IsHonest cfg _ _ (extend env s _ p)

  create_stateful_set-IsHonest :
      (ss : StatefulSet) (s : State)
      → IsHonest env s
      → IsHonest env (create_stateful_set env ss s).1
  unfolding create_stateful_set
  create_stateful_set-IsHonest ss s p =
      elim (Answer-cases (env.stateful_sets.create s.history ss)) [
        | inl (x, q) ↦ rw (q, create_stateful_set) (extend env s _ p)
        | inr (e, q) ↦ rw (q, create_stateful_set) (extend env s _ p)
      ]

  update_stateful_set-IsHonest :
      (ss : StatefulSet) (s : State)
      → IsHonest env s
      → IsHonest env (update_stateful_set env ss s).1
  unfolding update_stateful_set
  update_stateful_set-IsHonest ss s p =
      elim (Answer-cases (env.stateful_sets.update s.history ss)) [
        | inl (x, q) ↦
            rw (q, update_stateful_set)
              (accept env s (updated (stateful_set ss)) _ _ (x, q, refl, refl) p)
        | inr (e, q) ↦ rw (q, update_stateful_set) (extend env s _ p)
      ]

  wait_for_stateful_set-IsHonest :
      (d : HbaseClusterDeployment) (existing : StatefulSet) (s : State)
      → IsHonest env s
      → IsHonest env (wait_for_stateful_set d existing s).1
  unfolding wait_for_stateful_set
  wait_for_stateful_set-IsHonest d existing s p =
      either_way (λ m. IsHonest env (m s).1) (is_rolling d existing) (pure (requeue_in 10))
        (pure finished) p p

  settle_stateful_set-IsHonest :
      (ss : StatefulSet) (d : HbaseClusterDeployment) (answer : Answer StatefulSet) (s : State)
      → IsHonest env s
      → IsHonest env (settle_stateful_set env ss d answer s).1
  unfolding settle_stateful_set
  settle_stateful_set-IsHonest ss d (err e) s p =
      either_way (λ m. IsHonest env (m s).1) e.is_not_found (create_stateful_set env ss)
        (pure (failed_in_5 e)) (create_stateful_set-IsHonest ss s p) p
  settle_stateful_set-IsHonest ss d (ok existing) s p =
      either_way (λ m. IsHonest env (m s).1) _ (update_stateful_set env ss)
        (wait_for_stateful_set d existing) (update_stateful_set-IsHonest ss s p)
        (wait_for_stateful_set-IsHonest d existing s p)

  pub reconcile_stateful_set-IsHonest :
      (namespace : String) (ss : StatefulSet) (d : HbaseClusterDeployment) (s : State)
      → IsHonest env s
      → IsHonest env (reconcile_stateful_set env namespace ss d s).1
  unfolding reconcile_stateful_set
  reconcile_stateful_set-IsHonest namespace ss d s p =
      settle_stateful_set-IsHonest ss d _ _ (extend env s _ p)

  create_pdb-IsHonest :
      (pdb : PodDisruptionBudget) (s : State)
      → IsHonest env s
      → IsHonest env (create_pdb env pdb s).1
  unfolding create_pdb
  create_pdb-IsHonest pdb s p =
      elim (Answer-cases (env.pod_disruption_budgets.create s.history pdb)) [
        | inl (x, q) ↦ rw (q, create_pdb) (extend env s _ p)
        | inr (e, q) ↦ rw (q, create_pdb) (extend env s _ p)
      ]

  update_pdb-IsHonest :
      (pdb existing : PodDisruptionBudget) (s : State)
      → IsHonest env s
      → IsHonest env (update_pdb env pdb existing s).1
  unfolding update_pdb
  update_pdb-IsHonest pdb existing s p =
      elim (Answer-cases (env.pod_disruption_budgets.update s.history (adopt_pdb pdb existing))) [
        | inl (x, q) ↦
            rw (q, update_pdb)
              (accept env s (updated (pod_disruption_budget (adopt_pdb pdb existing))) _ _
                (x, pdb, existing, q, refl, refl, refl) p)
        | inr (e, q) ↦ rw (q, update_pdb) (extend env s _ p)
      ]

  settle_pdb-IsHonest :
      (pdb : PodDisruptionBudget) (answer : Answer PodDisruptionBudget) (s : State)
      → IsHonest env s
      → IsHonest env (settle_pdb env pdb answer s).1
  unfolding settle_pdb
  settle_pdb-IsHonest pdb (err e) s p =
      either_way (λ m. IsHonest env (m s).1) e.is_not_found (create_pdb env pdb)
        (pure (failed_in_5 e)) (create_pdb-IsHonest pdb s p) p
  settle_pdb-IsHonest pdb (ok existing) s p =
      either_way (λ m. IsHonest env (m s).1) _ (update_pdb env pdb existing) (pure finished)
        (update_pdb-IsHonest pdb existing s p) p

  pub reconcile_pod_disruption_budget-IsHonest :
      (pdb : PodDisruptionBudget) (s : State)
      → IsHonest env s
      → IsHonest env (reconcile_pod_disruption_budget env pdb s).1
  unfolding reconcile_pod_disruption_budget
  reconcile_pod_disruption_budget-IsHonest pdb s p = settle_pdb-IsHonest pdb _ _ (extend env s _ p)
