-- ===== src/Controllers/OneChange/Parts.antt =====
-- What each part of a reconciliation changes.
use hbase_k8s_operator.Prelude.{
  String, ℕ, suc, ◌+◌, ◌≤◌, ◌≡◌, refl, inl, inr, Bool, true, false, Option, none, some, List, [],
  ◌∷◌, arith, if◌then◌else◌,
}
use hbase_k8s_operator.GoMap.{lookup}
use hbase_k8s_operator.Api.{HbaseClusterDeployment}
use hbase_k8s_operator.Kube.{
  ConfigMap, Service, StatefulSet, PodDisruptionBudget, stateful_set, pod_disruption_budget, event,
}
use hbase_k8s_operator.Env.{Env, Answer, ok, err, Answer-cases, Call, got, created, updated}
use hbase_k8s_operator.Action.{
  after_get, State, Flow, done, panicked, Reply, pure, continue, is_finished, either_way,
  failed_in_5, finished, requeue_in,
}
use hbase_k8s_operator.Reconcile.Hash.{config_map_key}
use hbase_k8s_operator.Reconcile.Events.{publish_event}
use hbase_k8s_operator.Reconcile.ConfigMaps.{
  reconcile_config_map, settle_config_map, create_config_map, update_config_map, send_config_map,
}
use hbase_k8s_operator.Reconcile.Services.{
  reconcile_service, settle_service, create_service, update_service,
}
use hbase_k8s_operator.Reconcile.StatefulSets.{
  reconcile_stateful_set, settle_stateful_set, create_stateful_set, update_stateful_set, is_rolling,
  wait_for_stateful_set,
}
use hbase_k8s_operator.Reconcile.Pdbs.{
  reconcile_pod_disruption_budget, settle_pdb, create_pdb, update_pdb,
}
use hbase_k8s_operator.Controllers.Contract.{reply_of}

-- An attempt to change an object that exists, or to create a StatefulSet or a budget. Events, and
-- the creation of services and config maps, do not count.
abbrev pub is_change : Call → Bool
is_change (got _ _) = false
is_change (created (stateful_set _)) = true
is_change (created (pod_disruption_budget _)) = true
is_change (created _) = false
is_change (updated (event _)) = false
is_change (updated _) = true

abbrev pub changes : List Call → ℕ
changes [] = 0
changes (c ∷ h) = if is_change c then suc (changes h) else changes h

abbrev pub has_error : Reply → Bool
has_error r = elim r.error [ none ↦ false | some _ ↦ true ]

-- Nothing has changed from the one state to the other but the calls that do not count.
abbrev pub Unchanged : State → State → Type 0
Unchanged s t = (changes t.history ≡ changes s.history) × (t.hash_store ≡ s.hash_store)

abbrev pub Gentle : State → Flow Reply → State → Type 0
Gentle s panicked t = Unchanged s t
Gentle s (done r) t =
    (changes t.history ≤ changes s.history + 1)
    × (is_finished r ≡ true → Unchanged s t)
    × (has_error r ≡ true → t.hash_store ≡ s.hash_store)

module _ (env : Env) where
  publish_event-quiet :
      (namespace reason message level kind : String) (s : State)
      → let (f, t) = publish_event env namespace reason message level kind s in
        (f ≡ done tt) × Unchanged s t
  unfolding publish_event
  publish_event-quiet namespace reason message level kind s = ground arith

  -- An event and then a reply that is not the empty one.
  pub publish-Gentle :
      (namespace reason message level kind : String) (r : Reply) (s : State)
      → is_finished r ≡ false
      → let (f, t) = publish_event env namespace reason message level kind s in
        Gentle s (continue f (λ _. pure r) t).0 (continue f (λ _. pure r) t).1
  publish-Gentle namespace reason message level kind r s h =
      let q = publish_event-quiet namespace reason message level kind s in
      rw (q.0) (omega (arith, q.1.0), (λ e. cc), (λ e. q.1.1))

  create_service-Gentle :
      (svc : Service) (s : State) → let (f, t) = create_service env svc s in Gentle s f t
  unfolding create_service
  create_service-Gentle svc s = elim (Answer-cases (env.services.create s.history svc)) [
    | inl (x, p) ↦ rw (p, create_service) (ground arith)
    | inr (e, p) ↦ rw (p, create_service) (publish-Gentle _ _ e.message _ _ (failed_in_5 e) _ refl)
  ]

  update_service-Gentle :
      (svc existing : Service) (s : State)
      → let (f, t) = update_service env svc existing s in Gentle s f t
  unfolding update_service
  update_service-Gentle svc existing s = ground arith

  settle_service-Gentle :
      (svc : Service) (answer : Answer Service) (s : State)
      → let (f, t) = settle_service env svc answer s in Gentle s f t
  unfolding settle_service
  settle_service-Gentle svc (err e) s =
      either_way (λ m. Gentle s (m s).0 (m s).1) e.is_not_found (create_service env svc)
        (pure (failed_in_5 e)) (create_service-Gentle svc s) (ground arith)
  settle_service-Gentle svc (ok existing) s =
      either_way (λ m. Gentle s (m s).0 (m s).1) _ (pure finished) (update_service env svc existing)
        (ground arith) (update_service-Gentle svc existing s)

  pub reconcile_service-Gentle :
      (namespace : String) (svc : Service) (s : State)
      → let (f, t) = reconcile_service env namespace svc s in Gentle s f t
  unfolding reconcile_service
  reconcile_service-Gentle namespace svc s = settle_service-Gentle svc _ (after_get _ _ s)

  create_config_map-Gentle :
      (cfg : ConfigMap) (s : State)
      → let (f, t) = create_config_map env cfg s in Gentle s (reply_of f) t
  unfolding create_config_map
  create_config_map-Gentle cfg s = ground arith

  send_config_map-Gentle :
      (cfg : ConfigMap) (hash : String) (s : State)
      → let (f, t) = send_config_map env cfg hash s in Gentle s (reply_of f) t
  unfolding send_config_map
  send_config_map-Gentle cfg hash s = ground arith

  update_config_map-Gentle :
      (cfg : ConfigMap) (stored : Option String) (s : State)
      → let (f, t) = update_config_map env cfg stored s in Gentle s (reply_of f) t
  unfolding update_config_map
  update_config_map-Gentle cfg none s = send_config_map-Gentle cfg _ s
  update_config_map-Gentle cfg (some h) s = send_config_map-Gentle _ _ s

  settle_config_map-Gentle :
      (cfg : ConfigMap) (answer : Answer ConfigMap) (s : State)
      → let (f, t) = settle_config_map env cfg answer s in Gentle s (reply_of f) t
  unfolding settle_config_map
  settle_config_map-Gentle cfg (err e) s =
      either_way (λ m. Gentle s (reply_of (m s).0) (m s).1) e.is_not_found
        (create_config_map env cfg) (pure (failed_in_5 e, cfg)) (create_config_map-Gentle cfg s)
        (ground arith)
  settle_config_map-Gentle cfg (ok existing) s =
      either_way (λ m. Gentle s (reply_of (m s).0) (m s).1) _ (pure (finished, cfg))
        (update_config_map env cfg (lookup (config_map_key cfg) s.hash_store)) (ground arith)
        (update_config_map-Gentle cfg _ s)

  pub reconcile_config_map-Gentle :
      (namespace : String) (cfg : ConfigMap) (s : State)
      → let (f, t) = reconcile_config_map env namespace cfg s in Gentle s (reply_of f) t
  unfolding reconcile_config_map
  reconcile_config_map-Gentle namespace cfg s = settle_config_map-Gentle cfg _ (after_get _ _ s)

  create_stateful_set-Gentle :
      (ss : StatefulSet) (s : State) → let (f, t) = create_stateful_set env ss s in Gentle s f t
  unfolding create_stateful_set
  create_stateful_set-Gentle ss s = ground arith

  update_stateful_set-Gentle :
      (ss : StatefulSet) (s : State) → let (f, t) = update_stateful_set env ss s in Gentle s f t
  unfolding update_stateful_set
  update_stateful_set-Gentle ss s = ground arith

  wait_for_stateful_set-Gentle :
      (d : HbaseClusterDeployment) (existing : StatefulSet) (s : State)
      → let (f, t) = wait_for_stateful_set d existing s in Gentle s f t
  unfolding wait_for_stateful_set
  wait_for_stateful_set-Gentle d existing s =
      either_way (λ m. Gentle s (m s).0 (m s).1) (is_rolling d existing) (pure (requeue_in 10))
        (pure finished) (ground arith) (ground arith)

  settle_stateful_set-Gentle :
      (ss : StatefulSet) (d : HbaseClusterDeployment) (answer : Answer StatefulSet) (s : State)
      → let (f, t) = settle_stateful_set env ss d answer s in Gentle s f t
  unfolding settle_stateful_set
  settle_stateful_set-Gentle ss d (err e) s =
      either_way (λ m. Gentle s (m s).0 (m s).1) e.is_not_found (create_stateful_set env ss)
        (pure (failed_in_5 e)) (create_stateful_set-Gentle ss s) (ground arith)
  settle_stateful_set-Gentle ss d (ok existing) s =
      either_way (λ m. Gentle s (m s).0 (m s).1) _ (update_stateful_set env ss)
        (wait_for_stateful_set d existing) (update_stateful_set-Gentle ss s)
        (wait_for_stateful_set-Gentle d existing s)

  pub reconcile_stateful_set-Gentle :
      (namespace : String) (ss : StatefulSet) (d : HbaseClusterDeployment) (s : State)
      → let (f, t) = reconcile_stateful_set env namespace ss d s in Gentle s f t
  unfolding reconcile_stateful_set
  reconcile_stateful_set-Gentle namespace ss d s =
      settle_stateful_set-Gentle ss d _ (after_get _ _ s)

  create_pdb-Gentle :
      (pdb : PodDisruptionBudget) (s : State) → let (f, t) = create_pdb env pdb s in Gentle s f t
  unfolding create_pdb
  create_pdb-Gentle pdb s = ground arith

  update_pdb-Gentle :
      (pdb existing : PodDisruptionBudget) (s : State)
      → let (f, t) = update_pdb env pdb existing s in Gentle s f t
  unfolding update_pdb
  update_pdb-Gentle pdb existing s = ground arith

  settle_pdb-Gentle :
      (pdb : PodDisruptionBudget) (answer : Answer PodDisruptionBudget) (s : State)
      → let (f, t) = settle_pdb env pdb answer s in Gentle s f t
  unfolding settle_pdb
  settle_pdb-Gentle pdb (err e) s =
      either_way (λ m. Gentle s (m s).0 (m s).1) e.is_not_found (create_pdb env pdb)
        (pure (failed_in_5 e)) (create_pdb-Gentle pdb s) (ground arith)
  settle_pdb-Gentle pdb (ok existing) s =
      either_way (λ m. Gentle s (m s).0 (m s).1) _ (update_pdb env pdb existing) (pure finished)
        (update_pdb-Gentle pdb existing s) (ground arith)

  pub reconcile_pod_disruption_budget-Gentle :
      (pdb : PodDisruptionBudget) (s : State)
      → let (f, t) = reconcile_pod_disruption_budget env pdb s in Gentle s f t
  unfolding reconcile_pod_disruption_budget
  reconcile_pod_disruption_budget-Gentle pdb s = settle_pdb-Gentle pdb _ (after_get _ _ s)
