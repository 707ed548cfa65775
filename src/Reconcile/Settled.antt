-- ===== src/Reconcile/Settled.antt =====
-- An object whose Update has been accepted is left alone from then on: the next reconciliation of the
-- same desired object only reads it.
mod Updates
pub use Updates.{Recorded, key_of}
use Updates.{
  either_reply, create_service-again, update_service-again, update_config_map-again,
  update_stateful_set-again, wait_for_stateful_set-again, update_pdb-again,
}
use hbase_k8s_operator.Prelude.{
  String, ◌≡◌, refl, Bool, true, false, Bool-cases, inl, inr, Option, none, some, arith, eq_iff,
  eq_refl, ◌==◌, if◌then◌else◌,
}
use hbase_k8s_operator.GoMap.{lookup, insert, lookup-insert_self}
use hbase_k8s_operator.Api.{NamespacedName, HbaseClusterDeployment}
use hbase_k8s_operator.Kube.{
  ConfigMap, Service, StatefulSet, PodDisruptionBudget, config_maps, services, stateful_sets,
  pod_disruption_budgets,
}
use hbase_k8s_operator.Env.{Env, Answer, ok, err}
use hbase_k8s_operator.Action.{
  State, Flow, done, Reply, pure, either_way, finished, failed_in_5, again_in_5, requeue_in,
  after_get,
}
use hbase_k8s_operator.Build.ConfigMap.{text_or_empty}
use hbase_k8s_operator.Reconcile.Hash.{
  config_map_key, config_map_hash, service_key, service_hash, stateful_set_key, stateful_set_hash,
  pdb_key, pdb_hash,
}
use hbase_k8s_operator.Reconcile.Events.{publish_event}
use hbase_k8s_operator.Reconcile.ConfigMaps.{
  reconcile_config_map, settle_config_map, create_config_map, update_config_map, send_config_map,
  annotate,
}
use hbase_k8s_operator.Reconcile.Services.{
  reconcile_service, settle_service, create_service, update_service,
}
use hbase_k8s_operator.Reconcile.StatefulSets.{
  reconcile_stateful_set, settle_stateful_set, create_stateful_set, update_stateful_set,
  wait_for_stateful_set, is_rolling,
}
use hbase_k8s_operator.Reconcile.Pdbs.{
  reconcile_pod_disruption_budget, settle_pdb, create_pdb, update_pdb,
}

module _ (env : Env) where
  pub settle_service-again :
      (svc : Service) (answer : Answer Service) (s t : State)
      → settle_service env svc answer s ≡ (done again_in_5, t)
      → Recorded (service_key svc) (service_hash env svc) t
  unfolding settle_service
  settle_service-again svc (err e) s t =
      either_way
        (λ m. m s ≡ (done again_in_5, t) → Recorded (service_key svc) (service_hash env svc) t)
        e.is_not_found (create_service env svc) (pure (failed_in_5 e))
        (λ h. absurd (create_service-again env svc s t h)) (λ h. ground arith)
  settle_service-again svc (ok existing) s t =
      either_way
        (λ m. m s ≡ (done again_in_5, t) → Recorded (service_key svc) (service_hash env svc) t) _
        (pure finished) (update_service env svc existing) (λ h. ground arith)
        (update_service-again env svc existing s t)

  pub settle_service-Recorded :
      (svc existing : Service) (s : State)
      → Recorded (service_key svc) (service_hash env svc) s
      → settle_service env svc (ok existing) s ≡ (done finished, s)
  unfolding settle_service
  settle_service-Recorded svc existing s h = rw (h, eq_refl (service_hash env svc))

  -- Where reconcileService has updated a service (it asks to be run again in 5 seconds, with no
  -- error) and the next Get finds the service, the next call with the same desired service only
  -- reads it and returns the empty result, whatever the service that it finds looks like.
  pub reconcile_service-settles :
      (namespace : String) (svc existing : Service) (s t : State)
      → reconcile_service env namespace svc s ≡ (done again_in_5, t)
      → env.services.get t.history (key_of svc.meta.name namespace) ≡ ok existing
      → reconcile_service env namespace svc t
        ≡ (done finished, after_get services (key_of svc.meta.name namespace) t)
  unfolding reconcile_service
  reconcile_service-settles namespace svc existing s t h found =
      rw found (settle_service-Recorded svc existing _ (settle_service-again svc _ _ t h))

  settle_config_map-again :
      (cfg cfg' : ConfigMap) (answer : Answer ConfigMap) (s t : State)
      → settle_config_map env cfg answer s ≡ (done (again_in_5, cfg'), t)
      → Recorded (config_map_key cfg) (config_map_hash env cfg) t
  unfolding settle_config_map
  settle_config_map-again cfg cfg' (err e) s t =
      either_way
        (λ m.
          m s ≡ (done (again_in_5, cfg'), t)
          → Recorded (config_map_key cfg) (config_map_hash env cfg) t)
        e.is_not_found (create_config_map env cfg) (pure (failed_in_5 e, cfg))
        (unfold create_config_map in λ h. ground arith) (λ h. ground arith)
  settle_config_map-again cfg cfg' (ok existing) s t =
      either_way
        (λ m.
          m s ≡ (done (again_in_5, cfg'), t)
          → Recorded (config_map_key cfg) (config_map_hash env cfg) t)
        _ (pure (finished, cfg))
        (update_config_map env cfg (lookup (config_map_key cfg) s.hash_store)) (λ h. ground arith)
        (update_config_map-again env cfg cfg' _ s t)

  settle_config_map-Recorded :
      (cfg existing : ConfigMap) (s : State)
      → Recorded (config_map_key cfg) (config_map_hash env cfg) s
      → settle_config_map env cfg (ok existing) s ≡ (done (finished, cfg), s)
  unfolding settle_config_map
  settle_config_map-Recorded cfg existing s h = rw (h, eq_refl (config_map_hash env cfg))

  -- The same of reconcileConfigMap: after an Update of a config map, the next call with the same
  -- desired config map that finds one only reads it, returns the empty result and leaves the config
  -- map that it was given as it is.
  pub reconcile_config_map-settles :
      (namespace : String) (cfg cfg' existing : ConfigMap) (s t : State)
      → reconcile_config_map env namespace cfg s ≡ (done (again_in_5, cfg'), t)
      → env.config_maps.get t.history (key_of cfg.meta.name namespace) ≡ ok existing
      → reconcile_config_map env namespace cfg t
        ≡ (done (finished, cfg), after_get config_maps (key_of cfg.meta.name namespace) t)
  unfolding reconcile_config_map
  reconcile_config_map-settles namespace cfg cfg' existing s t h found =
      rw found
        (settle_config_map-Recorded cfg existing _ (settle_config_map-again cfg cfg' _ _ t h))

  settle_stateful_set-again :
      (ss : StatefulSet) (d : HbaseClusterDeployment) (answer : Answer StatefulSet) (s t : State)
      → settle_stateful_set env ss d answer s ≡ (done (requeue_in 10), t)
      → Recorded (stateful_set_key ss) (stateful_set_hash env ss) t
  unfolding settle_stateful_set
  settle_stateful_set-again ss d (err e) s t h =
      either_way
        (λ m.
          m s ≡ (done (requeue_in 10), t)
          → Recorded (stateful_set_key ss) (stateful_set_hash env ss) t)
        e.is_not_found (create_stateful_set env ss) (pure (failed_in_5 e))
        (unfold create_stateful_set in λ h. ground arith) (λ h. ground arith) h
  settle_stateful_set-again ss d (ok existing) s t h =
      elim (Bool-cases
        (stateful_set_hash env ss == text_or_empty (lookup (stateful_set_key ss) s.hash_store))) [
          | inl e ↦ wait_for_stateful_set-again env ss d existing s t ((eq_iff _ _).0 e) (rw e at h)
          | inr e ↦ update_stateful_set-again env ss s t (rw e at h)
        ]

  settle_stateful_set-Recorded :
      (ss existing : StatefulSet) (d : HbaseClusterDeployment) (s : State)
      → Recorded (stateful_set_key ss) (stateful_set_hash env ss) s
      → settle_stateful_set env ss d (ok existing) s
        ≡ (done (if is_rolling d existing then requeue_in 10 else finished), s)
  unfolding settle_stateful_set wait_for_stateful_set
  settle_stateful_set-Recorded ss existing d s h =
      rw (h, eq_refl (stateful_set_hash env ss))
        (either_reply env (is_rolling d existing) (requeue_in 10) finished s)

  -- After an Update of a StatefulSet, or while it waits for its rollout, the next call with the same
  -- desired StatefulSet that finds one only reads it, and returns the empty result exactly if all
  -- replicas are ready and at the latest revision.
  pub reconcile_stateful_set-settles :
      (namespace : String) (ss existing : StatefulSet) (d : HbaseClusterDeployment) (s t : State)
      → reconcile_stateful_set env namespace ss d s ≡ (done (requeue_in 10), t)
      → env.stateful_sets.get t.history (key_of d.name namespace) ≡ ok existing
      → reconcile_stateful_set env namespace ss d t ≡ (
        done (if is_rolling d existing then requeue_in 10 else finished),
        after_get stateful_sets (key_of d.name namespace) t,
      )
  unfolding reconcile_stateful_set
  reconcile_stateful_set-settles namespace ss existing d s t h found =
      rw found
        (settle_stateful_set-Recorded ss existing d _ (settle_stateful_set-again ss d _ _ t h))

  settle_pdb-again :
      (pdb : PodDisruptionBudget) (answer : Answer PodDisruptionBudget) (s t : State)
      → settle_pdb env pdb answer s ≡ (done (requeue_in 10), t)
      → Recorded (pdb_key pdb) (pdb_hash env pdb) t
  unfolding settle_pdb
  settle_pdb-again pdb (err e) s t =
      either_way
        (λ m. m s ≡ (done (requeue_in 10), t) → Recorded (pdb_key pdb) (pdb_hash env pdb) t)
        e.is_not_found (create_pdb env pdb) (pure (failed_in_5 e))
        (unfold create_pdb in λ h. ground arith) (λ h. ground arith)
  settle_pdb-again pdb (ok existing) s t =
      either_way
        (λ m. m s ≡ (done (requeue_in 10), t) → Recorded (pdb_key pdb) (pdb_hash env pdb) t) _
        (update_pdb env pdb existing) (pure finished) (update_pdb-again env pdb existing s t)
        (λ h. ground arith)

  settle_pdb-Recorded :
      (pdb existing : PodDisruptionBudget) (s : State)
      → Recorded (pdb_key pdb) (pdb_hash env pdb) s
      → settle_pdb env pdb (ok existing) s ≡ (done finished, s)
  unfolding settle_pdb
  settle_pdb-Recorded pdb existing s h = rw (h, eq_refl (pdb_hash env pdb))

  -- After an Update of a disruption budget, the next call with the same desired budget that finds one
  -- only reads it and returns the empty result.
  pub reconcile_pod_disruption_budget-settles :
      (pdb existing : PodDisruptionBudget) (s t : State)
      → reconcile_pod_disruption_budget env pdb s ≡ (done (requeue_in 10), t)
      → env.pod_disruption_budgets.get t.history (key_of pdb.meta.name pdb.meta.namespace)
        ≡ ok existing
      → reconcile_pod_disruption_budget env pdb t ≡ (
        done finished,
        after_get pod_disruption_budgets (key_of pdb.meta.name pdb.meta.namespace) t,
      )
  unfolding reconcile_pod_disruption_budget
  reconcile_pod_disruption_budget-settles pdb existing s t h found =
      rw found (settle_pdb-Recorded pdb existing _ (settle_pdb-again pdb _ _ t h))
