-- ===== src/Reconcile/Footprint.antt =====
-- Which kinds of objects each function reads and writes.
use hbase_k8s_operator.Prelude.{String, ◌≡◌, Bool, true, inl, inr, ◌∷◌, Option, none, some}
use hbase_k8s_operator.GoMap.{lookup}
use hbase_k8s_operator.Api.{HbaseClusterDeployment}
use hbase_k8s_operator.Kube.{
  Kind, ConfigMap, Service, StatefulSet, PodDisruptionBudget, Event, config_maps, services,
  stateful_sets, pod_disruption_budgets, events, event,
}
use hbase_k8s_operator.Env.{Env, Answer, ok, err, Answer-cases, created}
use hbase_k8s_operator.Action.{
  State, Flow, done, panicked, Reply, pure, continue, either_way, finished, failed_in_5, requeue_in,
}
use hbase_k8s_operator.Action.Steps.{Steps, here, called, stored, Steps-trans}
use hbase_k8s_operator.Reconcile.Hash.{config_map_key}
use hbase_k8s_operator.Reconcile.Events.{publish_event, write_event}
use hbase_k8s_operator.Reconcile.ConfigMaps.{
  reconcile_config_map, settle_config_map, create_config_map, update_config_map, send_config_map,
}
use hbase_k8s_operator.Reconcile.Services.{
  reconcile_service, settle_service, create_service, update_service, adopt_service,
}
use hbase_k8s_operator.Reconcile.StatefulSets.{
  reconcile_stateful_set, settle_stateful_set, create_stateful_set, update_stateful_set,
  wait_for_stateful_set, is_rolling,
}
use hbase_k8s_operator.Reconcile.Pdbs.{
  reconcile_pod_disruption_budget, settle_pdb, create_pdb, update_pdb, adopt_pdb,
}

module _ (env : Env) (allowed : Kind → Bool) (on_events : allowed events ≡ true) where
  write_event-Steps :
      (evt : Event) (answer : Answer Event) (s : State)
      → Steps allowed s (write_event env evt answer s).1
  unfolding write_event
  write_event-Steps evt (ok existing) s = called _ here on_events
  write_event-Steps evt (err e) s =
      either_way (λ m. Steps allowed s (m s).1) e.is_not_found
        (λ (s : State). (done tt, record s { history = created (event evt) ∷ s.history })) (pure tt)
        (called _ here on_events) here

  publish_event-Steps :
      (namespace reason message level kind : String) (s : State)
      → Steps allowed s (publish_event env namespace reason message level kind s).1
  unfolding publish_event
  publish_event-Steps namespace reason message level kind s =
      Steps-trans (called _ here on_events) (write_event-Steps _ _ _)

  -- An event, and a reply.
  pub publish-Steps :
      (namespace reason message level kind : String) (r : Reply) (s : State)
      → let (f, t) = publish_event env namespace reason message level kind s in
        Steps allowed s (continue f (λ _. pure r) t).1
  publish-Steps namespace reason message level kind r s =
      reply _ _ (publish_event-Steps namespace reason message level kind s)
    where
      reply :
          (f : Flow Unit) (t : State)
          → Steps allowed s t
          → Steps allowed s (continue f (λ _. pure r) t).1
      reply (done x) t q = q
      reply panicked t q = q

  module _ (on_services : allowed services ≡ true) where
    create_service-Steps :
        (svc : Service) (s : State) → Steps allowed s (create_service env svc s).1
    unfolding create_service
    create_service-Steps svc s = elim (Answer-cases (env.services.create s.history svc)) [
      | inl (x, q) ↦ rw (q, create_service) (called _ here on_services)
      | inr (e, q) ↦
          rw (q, create_service)
            (Steps-trans (called _ here on_services)
              (publish-Steps _ _ e.message _ _ (failed_in_5 e) _))
    ]

    update_service-Steps :
        (svc existing : Service) (s : State) → Steps allowed s (update_service env svc existing s).1
    unfolding update_service
    update_service-Steps svc existing s =
        elim (Answer-cases (env.services.update s.history (adopt_service svc existing))) [
          | inl (x, q) ↦ rw (q, update_service) (stored _ _ (called _ here on_services))
          | inr (e, q) ↦ rw (q, update_service) (called _ here on_services)
        ]

    settle_service-Steps :
        (svc : Service) (answer : Answer Service) (s : State)
        → Steps allowed s (settle_service env svc answer s).1
    unfolding settle_service
    settle_service-Steps svc (err e) s =
        either_way (λ m. Steps allowed s (m s).1) e.is_not_found (create_service env svc)
          (pure (failed_in_5 e)) (create_service-Steps svc s) here
    settle_service-Steps svc (ok existing) s =
        either_way (λ m. Steps allowed s (m s).1) _ (pure finished)
          (update_service env svc existing) here (update_service-Steps svc existing s)

    -- reconcileService reads and writes services and events alone.
    pub reconcile_service-Steps :
        (namespace : String) (svc : Service) (s : State)
        → Steps allowed s (reconcile_service env namespace svc s).1
    unfolding reconcile_service
    reconcile_service-Steps namespace svc s =
        Steps-trans (called _ here on_services) (settle_service-Steps svc _ _)

module _ (env : Env) (allowed : Kind → Bool) where
  module _ (on_config_maps : allowed config_maps ≡ true) where
    create_config_map-Steps :
        (cfg : ConfigMap) (s : State) → Steps allowed s (create_config_map env cfg s).1
    unfolding create_config_map
    create_config_map-Steps cfg s = elim (Answer-cases (env.config_maps.create s.history cfg)) [
      | inl (x, q) ↦ rw (q, create_config_map) (called _ here on_config_maps)
      | inr (e, q) ↦ rw (q, create_config_map) (called _ here on_config_maps)
    ]

    send_config_map-Steps :
        (cfg : ConfigMap) (hash : String) (s : State)
        → Steps allowed s (send_config_map env cfg hash s).1
    unfolding send_config_map
    send_config_map-Steps cfg hash s = elim (Answer-cases (env.config_maps.update s.history cfg)) [
      | inl (x, q) ↦ rw (q, send_config_map) (stored _ _ (called _ here on_config_maps))
      | inr (e, q) ↦ rw (q, send_config_map) (called _ here on_config_maps)
    ]

    update_config_map-Steps :
        (cfg : ConfigMap) (old : Option String) (s : State)
        → Steps allowed s (update_config_map env cfg old s).1
    unfolding update_config_map
    update_config_map-Steps cfg none s = send_config_map-Steps cfg _ s
    update_config_map-Steps cfg (some h) s = send_config_map-Steps _ _ s

    settle_config_map-Steps :
        (cfg : ConfigMap) (answer : Answer ConfigMap) (s : State)
        → Steps allowed s (settle_config_map env cfg answer s).1
    unfolding settle_config_map
    settle_config_map-Steps cfg (err e) s =
        either_way (λ m. Steps allowed s (m s).1) e.is_not_found (create_config_map env cfg)
          (pure (failed_in_5 e, cfg)) (create_config_map-Steps cfg s) here
    settle_config_map-Steps cfg (ok existing) s =
        either_way (λ m. Steps allowed s (m s).1) _ (pure (finished, cfg))
          (update_config_map env cfg (lookup (config_map_key cfg) s.hash_store)) here
          (update_config_map-Steps cfg _ s)

    -- reconcileConfigMap reads and writes config maps alone.
    pub reconcile_config_map-Steps :
        (namespace : String) (cfg : ConfigMap) (s : State)
        → Steps allowed s (reconcile_config_map env namespace cfg s).1
    unfolding reconcile_config_map
    reconcile_config_map-Steps namespace cfg s =
        Steps-trans (called _ here on_config_maps) (settle_config_map-Steps cfg _ _)

  module _ (on_stateful_sets : allowed stateful_sets ≡ true) where
    create_stateful_set-Steps :
        (ss : StatefulSet) (s : State) → Steps allowed s (create_stateful_set env ss s).1
    unfolding create_stateful_set
    create_stateful_set-Steps ss s = elim (Answer-cases (env.stateful_sets.create s.history ss)) [
      | inl (x, q) ↦ rw (q, create_stateful_set) (called _ here on_stateful_sets)
      | inr (e, q) ↦ rw (q, create_stateful_set) (called _ here on_stateful_sets)
    ]

    update_stateful_set-Steps :
        (ss : StatefulSet) (s : State) → Steps allowed s (update_stateful_set env ss s).1
    unfolding update_stateful_set
    update_stateful_set-Steps ss s = elim (Answer-cases (env.stateful_sets.update s.history ss)) [
      | inl (x, q) ↦ rw (q, update_stateful_set) (stored _ _ (called _ here on_stateful_sets))
      | inr (e, q) ↦ rw (q, update_stateful_set) (called _ here on_stateful_sets)
    ]

    settle_stateful_set-Steps :
        (ss : StatefulSet) (d : HbaseClusterDeployment) (answer : Answer StatefulSet) (s : State)
        → Steps allowed s (settle_stateful_set env ss d answer s).1
    unfolding settle_stateful_set wait_for_stateful_set
    settle_stateful_set-Steps ss d (err e) s =
        either_way (λ m. Steps allowed s (m s).1) e.is_not_found (create_stateful_set env ss)
          (pure (failed_in_5 e)) (create_stateful_set-Steps ss s) here
    settle_stateful_set-Steps ss d (ok existing) s =
        either_way (λ m. Steps allowed s (m s).1) _ (update_stateful_set env ss)
          (wait_for_stateful_set d existing) (update_stateful_set-Steps ss s)
          (either_way (λ m. Steps allowed s (m s).1) (is_rolling d existing) (pure (requeue_in 10))
            (pure finished) here here)

    -- reconcileStatefulSet reads and writes StatefulSets alone.
    pub reconcile_stateful_set-Steps :
        (namespace : String) (ss : StatefulSet) (d : HbaseClusterDeployment) (s : State)
        → Steps allowed s (reconcile_stateful_set env namespace ss d s).1
    unfolding reconcile_stateful_set
    reconcile_stateful_set-Steps namespace ss d s =
        Steps-trans (called _ here on_stateful_sets) (settle_stateful_set-Steps ss d _ _)

  module _ (on_budgets : allowed pod_disruption_budgets ≡ true) where
    create_pdb-Steps :
        (pdb : PodDisruptionBudget) (s : State) → Steps allowed s (create_pdb env pdb s).1
    unfolding create_pdb
    create_pdb-Steps pdb s = elim (Answer-cases (env.pod_disruption_budgets.create s.history pdb)) [
      | inl (x, q) ↦ rw (q, create_pdb) (called _ here on_budgets)
      | inr (e, q) ↦ rw (q, create_pdb) (called _ here on_budgets)
    ]

    update_pdb-Steps :
        (pdb existing : PodDisruptionBudget) (s : State)
        → Steps allowed s (update_pdb env pdb existing s).1
    unfolding update_pdb
    update_pdb-Steps pdb existing s =
        elim (Answer-cases (env.pod_disruption_budgets.update s.history (adopt_pdb pdb existing))) [
          | inl (x, q) ↦ rw (q, update_pdb) (stored _ _ (called _ here on_budgets))
          | inr (e, q) ↦ rw (q, update_pdb) (called _ here on_budgets)
        ]

    settle_pdb-Steps :
        (pdb : PodDisruptionBudget) (answer : Answer PodDisruptionBudget) (s : State)
        → Steps allowed s (settle_pdb env pdb answer s).1
    unfolding settle_pdb
    settle_pdb-Steps pdb (err e) s =
        either_way (λ m. Steps allowed s (m s).1) e.is_not_found (create_pdb env pdb)
          (pure (failed_in_5 e)) (create_pdb-Steps pdb s) here
    settle_pdb-Steps pdb (ok existing) s =
        either_way (λ m. Steps allowed s (m s).1) _ (update_pdb env pdb existing) (pure finished)
          (update_pdb-Steps pdb existing s) here

    -- reconcilePodDisruptionBudget reads and writes budgets alone.
    pub reconcile_pod_disruption_budget-Steps :
        (pdb : PodDisruptionBudget) (s : State)
        → Steps allowed s (reconcile_pod_disruption_budget env pdb s).1
    unfolding reconcile_pod_disruption_budget
    reconcile_pod_disruption_budget-Steps pdb s =
        Steps-trans (called _ here on_budgets) (settle_pdb-Steps pdb _ _)
