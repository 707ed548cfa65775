-- ===== src/Reconcile/Settled/Updates.antt =====
-- Which hash an Update leaves in the hash store.
use hbase_k8s_operator.Prelude.{
  String, ◌≡◌, refl, Bool, true, false, Option, none, some, arith, if◌then◌else◌,
}
use hbase_k8s_operator.GoMap.{lookup, insert, lookup-insert_self}
use hbase_k8s_operator.Api.{NamespacedName, HbaseClusterDeployment}
use hbase_k8s_operator.Kube.{ConfigMap, Service, StatefulSet, PodDisruptionBudget}
use hbase_k8s_operator.Env.{Env}
use hbase_k8s_operator.Action.{
  State, Flow, done, Reply, pure, either_way, finished, again_in_5, requeue_in,
}
use hbase_k8s_operator.Build.ConfigMap.{text_or_empty}
use hbase_k8s_operator.Reconcile.Hash.{
  config_map_key, config_map_hash, service_key, service_hash, stateful_set_key, stateful_set_hash,
  pdb_key, pdb_hash,
}
use hbase_k8s_operator.Reconcile.Events.{publish_event}
use hbase_k8s_operator.Reconcile.ConfigMaps.{update_config_map, send_config_map, annotate}
use hbase_k8s_operator.Reconcile.Services.{create_service, update_service}
use hbase_k8s_operator.Reconcile.StatefulSets.{
  update_stateful_set, wait_for_stateful_set, is_rolling,
}
use hbase_k8s_operator.Reconcile.Pdbs.{update_pdb}

-- hashStore[key] == hash
abbrev pub Recorded : String → String → State → Type 0
Recorded key hash s = text_or_empty (lookup key s.hash_store) ≡ hash

-- The key of a Get.
abbrev pub key_of : String → String → NamespacedName
key_of name namespace = record { name = name; namespace = namespace }

module _ (env : Env) where
  recorded_after :
      (s : State) (key hash : String)
      → text_or_empty (lookup key (insert key hash s.hash_store)) ≡ hash
  recorded_after s key hash = rw lookup-insert_self

  pub either_reply :
      (b : Bool) (x y : Reply) (s : State)
      → ◌≡◌ {A = Flow Reply × State}
          ((if b then pure x else pure y) s)
          (done (if b then x else y), s)
  either_reply true x y s = refl
  either_reply false x y s = refl

  send_config_map-again :
      (cfg cfg' : ConfigMap) (hash : String) (s t : State)
      → send_config_map env cfg hash s ≡ (done (again_in_5, cfg'), t)
      → Recorded (config_map_key cfg) hash t
  unfolding send_config_map
  send_config_map-again cfg cfg' hash s t h =
      ground (arith, lookup-insert_self (config_map_key cfg) hash s.hash_store)

  pub create_service-again :
      (svc : Service) (s t : State) → ¬ (create_service env svc s ≡ (done again_in_5, t))
  unfolding create_service publish_event
  create_service-again svc s t h = ground arith

  pub update_service-again :
      (svc existing : Service) (s t : State)
      → update_service env svc existing s ≡ (done again_in_5, t)
      → Recorded (service_key svc) (service_hash env svc) t
  unfolding update_service
  update_service-again svc existing s t h =
      ground (arith, lookup-insert_self (service_key svc) (service_hash env svc) s.hash_store)

  pub update_config_map-again :
      (cfg cfg' : ConfigMap) (stored : Option String) (s t : State)
      → update_config_map env cfg stored s ≡ (done (again_in_5, cfg'), t)
      → Recorded (config_map_key cfg) (config_map_hash env cfg) t
  unfolding update_config_map config_map_key
  update_config_map-again cfg cfg' none s t h = send_config_map-again cfg cfg' _ s t h
  update_config_map-again cfg cfg' (some x) s t h =
      send_config_map-again (annotate _ cfg) cfg' _ s t h

  pub update_stateful_set-again :
      (ss : StatefulSet) (s t : State)
      → update_stateful_set env ss s ≡ (done (requeue_in 10), t)
      → Recorded (stateful_set_key ss) (stateful_set_hash env ss) t
  unfolding update_stateful_set
  update_stateful_set-again ss s t h =
      ground
        (arith, lookup-insert_self (stateful_set_key ss) (stateful_set_hash env ss) s.hash_store)

  -- Waiting changes nothing.
  pub wait_for_stateful_set-again :
      (ss : StatefulSet) (d : HbaseClusterDeployment) (existing : StatefulSet) (s t : State)
      → stateful_set_hash env ss ≡ text_or_empty (lookup (stateful_set_key ss) s.hash_store)
      → wait_for_stateful_set d existing s ≡ (done (requeue_in 10), t)
      → Recorded (stateful_set_key ss) (stateful_set_hash env ss) t
  unfolding wait_for_stateful_set
  wait_for_stateful_set-again ss d existing s t same =
      either_way
        (λ m.
          m s ≡ (done (requeue_in 10), t)
          → Recorded (stateful_set_key ss) (stateful_set_hash env ss) t)
        (is_rolling d existing) (pure (requeue_in 10)) (pure finished) (λ h. ground arith)
        (λ h. ground arith)

  pub update_pdb-again :
      (pdb existing : PodDisruptionBudget) (s t : State)
      → update_pdb env pdb existing s ≡ (done (requeue_in 10), t)
      → Recorded (pdb_key pdb) (pdb_hash env pdb) t
  unfolding update_pdb
  update_pdb-again pdb existing s t h =
      ground (arith, lookup-insert_self (pdb_key pdb) (pdb_hash env pdb) s.hash_store)
