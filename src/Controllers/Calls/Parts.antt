-- ===== src/Controllers/Calls/Parts.antt =====
-- How many calls of the client each part of a reconciliation makes.
use hbase_k8s_operator.Prelude.{
  String, ℕ, ◌+◌, ◌≤◌, ◌≡◌, refl, false, inl, inr, length, arith, Option-cases, List,
}
use hbase_k8s_operator.GoMap.{GoMap}
use hbase_k8s_operator.Api.{HbaseClusterConfiguration, HbaseClusterDeployment}
use hbase_k8s_operator.Kube.{ConfigMap, Service, StatefulSet, PodDisruptionBudget}
use hbase_k8s_operator.Env.{Env, Answer, ok, err, Answer-cases}
use hbase_k8s_operator.Action.{
  State, Action, Flow, done, panicked, Reply, continue, pure, failed, failed_in_5, is_finished,
  ◌>>=◌, after_get, either_way,
}
use hbase_k8s_operator.Build.Outcome.{Outcome, built, invalid, panic}
use hbase_k8s_operator.Build.Pdb.{build_pod_disruption_budget}
use hbase_k8s_operator.Reconcile.Validate.{validate_configuration}
use hbase_k8s_operator.Reconcile.Events.{publish_event}
use hbase_k8s_operator.Reconcile.ConfigMaps.{
  reconcile_config_map, settle_config_map, create_config_map, update_config_map, send_config_map,
}
use hbase_k8s_operator.Reconcile.Services.{
  reconcile_service, settle_service, create_service, update_service,
}
use hbase_k8s_operator.Reconcile.StatefulSets.{
  reconcile_stateful_set, settle_stateful_set, create_stateful_set, update_stateful_set,
  wait_for_stateful_set,
}
use hbase_k8s_operator.Reconcile.Pdbs.{
  reconcile_pod_disruption_budget, settle_pdb, create_pdb, update_pdb,
}
use hbase_k8s_operator.Controllers.Contract.{reply_of}
use hbase_k8s_operator.Controllers.Steps.{
  Owner, Template, validate_or_return, apply_config_map, apply_config, apply_configs, apply_pdb,
  apply_built, apply_deployment,
}
use hbase_k8s_operator.Controllers.Calls.Cost.{
  Spent, Spent-call, Costs, finished-Costs, Costs-more, or_return-Costs,
}

module _ (env : Env) where
  publish_event-calls :
      (namespace reason message level kind : String) (s : State)
      → let (f, t) = publish_event env namespace reason message level kind s in
        (f ≡ done tt) × (length t.history ≤ length s.history + 2)
  unfolding publish_event
  publish_event-calls namespace reason message level kind s = ground arith

  -- An event and then a reply that is not the empty one.
  publish-Spent :
      (namespace reason message level kind : String) (r : Reply) (n : ℕ) (s : State)
      → is_finished r ≡ false
      → let (f, t) = publish_event env namespace reason message level kind s in
        Spent n 2 s (continue f (λ _. pure r) t).0 (continue f (λ _. pure r) t).1
  publish-Spent namespace reason message level kind r n s h =
      let q = publish_event-calls namespace reason message level kind s in
      rw (q.0) (record { always = omega (arith, q.1); success = λ e. cc })

  create_service-Spent :
      (svc : Service) (s : State) → let (f, t) = create_service env svc s in Spent 1 3 s f t
  unfolding create_service
  create_service-Spent svc s = elim (Answer-cases (env.services.create s.history svc)) [
    | inl (x, p) ↦ rw (p, create_service) (record { always = ground arith; success = ground arith })
    | inr (e, p) ↦
        rw (p, create_service)
          (Spent-call _ 0 2 s (publish-Spent _ _ e.message _ _ (failed_in_5 e) 0 _ refl))
  ]

  settle_service-Spent :
      (svc : Service) (answer : Answer Service) (s : State)
      → let (f, t) = settle_service env svc answer s in Spent 1 3 s f t
  unfolding settle_service update_service
  settle_service-Spent svc (err e) s =
      either_way (λ m. Spent 1 3 s (m s).0 (m s).1) e.is_not_found (create_service env svc)
        (pure (failed_in_5 e)) (create_service-Spent svc s)
        (record { always = ground arith; success = ground arith })
  settle_service-Spent svc (ok existing) s = record {
    always = ground arith;
    success = ground arith;
  }

  pub reconcile_service-Costs :
      (namespace : String) (svc : Service) → Costs 2 4 (reconcile_service env namespace svc)
  unfolding reconcile_service
  reconcile_service-Costs namespace svc = record {
    at = λ s. Spent-call _ 1 3 s (settle_service-Spent svc _ (after_get _ _ s));
  }

  settle_config_map-Spent :
      (cfg : ConfigMap) (answer : Answer ConfigMap) (s : State)
      → let (f, t) = settle_config_map env cfg answer s in Spent 1 1 s (reply_of f) t
  unfolding settle_config_map create_config_map update_config_map send_config_map
  settle_config_map-Spent cfg answer s = record { always = ground arith; success = ground arith }

  reply_only :
      (n k : ℕ) (s t : State) (f : Flow (Reply × ConfigMap))
      → Spent n k s (reply_of f) t
      → let (g, u) = continue f (λ (r, _). pure r) t in Spent n k s g u
  reply_only n k s t panicked h = h
  reply_only n k s t (done (r, cfg)) h = h

  pub reconcile_config_map-Spent :
      (namespace : String) (cfg : ConfigMap) (s : State)
      → let (f, t) = reconcile_config_map env namespace cfg s in Spent 2 2 s (reply_of f) t
  unfolding reconcile_config_map
  reconcile_config_map-Spent namespace cfg s =
      Spent-call _ 1 1 s (settle_config_map-Spent cfg _ (after_get _ _ s))

  pub apply_config-Costs :
      (o : Owner) (name namespace : String) (config : GoMap) (tenants : List GoMap)
      → Costs 2 2 (apply_config env o name namespace config tenants)
  unfolding apply_config apply_config_map ◌>>=◌
  apply_config-Costs o name namespace config tenants = record {
    at = λ s. reply_only 2 2 s _ _ (reconcile_config_map-Spent namespace _ s);
  }

  pub apply_configs-Costs :
      (o : Owner) (namespace : String) (config : HbaseClusterConfiguration)
      → Costs 4 4 (apply_configs env o namespace config)
  unfolding apply_configs
  apply_configs-Costs o namespace config =
      or_return-Costs 2 2 2 2 4 (omega arith) (omega arith) _ _
        (apply_config-Costs o _ namespace _ _) (apply_config-Costs o _ namespace _ _)

  -- A refused configuration costs an event.
  pub validate_or_return-Costs :
      (n k : ℕ) (namespace : String) (config : HbaseClusterConfiguration) (rest : Action Reply)
      → 2 ≤ k
      → Costs n k rest
      → Costs n k (validate_or_return env namespace config rest)
  unfolding validate_or_return ◌>>=◌
  validate_or_return-Costs n k namespace config rest le c =
      elim (Option-cases (validate_configuration env config)) [
        | inl p ↦ rw (p, validate_or_return) c
        | inr (e, p) ↦
            rw (p, validate_or_return)
              (Costs-more n 2 n k (record { at = λ s. publish-Spent _ _ _ _ _ (failed e) n s refl })
                (omega arith) le)
      ]

  settle_stateful_set-Spent :
      (ss : StatefulSet) (d : HbaseClusterDeployment) (answer : Answer StatefulSet) (s : State)
      → let (f, t) = settle_stateful_set env ss d answer s in Spent 0 1 s f t
  unfolding settle_stateful_set create_stateful_set update_stateful_set wait_for_stateful_set
  settle_stateful_set-Spent ss d answer s = record { always = ground arith; success = ground arith }

  settle_pdb-Spent :
      (pdb : PodDisruptionBudget) (answer : Answer PodDisruptionBudget) (s : State)
      → let (f, t) = settle_pdb env pdb answer s in Spent 0 1 s f t
  unfolding settle_pdb create_pdb update_pdb
  settle_pdb-Spent pdb answer s = record { always = ground arith; success = ground arith }

  apply_pdb-Costs : (o : Owner) (d : HbaseClusterDeployment) → Costs 1 2 (apply_pdb env o d)
  unfolding apply_pdb reconcile_pod_disruption_budget
  apply_pdb-Costs o d =
      elim (Option-cases (build_pod_disruption_budget o.meta.name o.meta.namespace d)) [
        | inl e ↦ rw (e, apply_pdb) (finished-Costs 1 2)
        | inr (pdb, e) ↦
            rw (e, apply_pdb)
              (record { at = λ s. Spent-call _ 0 1 s (settle_pdb-Spent _ _ (after_get _ _ s)) })
      ]

  apply_built-Costs :
      (o : Owner) (d : HbaseClusterDeployment) (b : Outcome StatefulSet)
      → Costs 1 2 (apply_built env o d b)
  unfolding apply_built reconcile_stateful_set
  apply_built-Costs o d (built ss) = record {
    at = λ s. Spent-call _ 0 1 s (settle_stateful_set-Spent _ d _ (after_get _ _ s));
  }
  apply_built-Costs o d (invalid message) = record {
    at = λ s.
        publish-Spent _ _ message _ _ (failed (record { message = message; is_not_found = false }))
          1 s refl;
  }
  apply_built-Costs o d panic = record {
    at = λ s. record { always = omega arith; success = λ e. cc };
  }

  pub apply_deployment-Costs :
      (o : Owner) (t : Template) (d : HbaseClusterDeployment)
      → Costs 2 3 (apply_deployment env o t d)
  unfolding apply_deployment
  apply_deployment-Costs o t d =
      or_return-Costs 1 2 1 2 3 (omega arith) (omega arith) _ _ (apply_built-Costs o d _)
        (apply_pdb-Costs o _)
