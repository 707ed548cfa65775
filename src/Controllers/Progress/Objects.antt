-- ===== src/Controllers/Progress/Objects.antt =====
-- Each reconciliation of a wanted object makes progress on a cooperative server.
use hbase_k8s_operator.Prelude.{
  ℕ, ◌≡◌, refl, ◌∙◌, true, false, Bool-cases, inl, inr, List, ◌∷◌, arith,
}
use hbase_k8s_operator.Kube.{
  ConfigMap, Service, StatefulSet, PodDisruptionBudget, config_maps, services, stateful_sets,
  pod_disruption_budgets, service, pod_disruption_budget,
}
use hbase_k8s_operator.Env.{Env, ok, got, created, updated, Call}
use hbase_k8s_operator.Action.{
  State, Flow, Reply, ◌>>=◌, after_get, finished, again_in_5, requeue_in,
}
use hbase_k8s_operator.Reconcile.Hash.{
  config_map_key, config_map_hash, service_key, service_hash, stateful_set_key, stateful_set_hash,
  pdb_key, pdb_hash,
}
use hbase_k8s_operator.Reconcile.Services.{
  reconcile_service, settle_service, create_service, update_service, adopt_service,
}
use hbase_k8s_operator.Reconcile.Pdbs.{
  reconcile_pod_disruption_budget, settle_pdb, create_pdb, update_pdb, adopt_pdb,
}
use hbase_k8s_operator.Controllers.Progress.Server.{Presence, key_of_meta, IsCooperative}
use hbase_k8s_operator.Controllers.Progress.Measure.{
  Want, IsWanted, is_recorded, is_consistent, called-le, created-lt, updated-lt,
}
use hbase_k8s_operator.Controllers.Progress.Advance.{Advanced, Advances}

module _ (env : Env) where
  abbrev pub want_service : Service → Want
  want_service svc = record {
    kind = services;
    key = key_of_meta svc.meta;
    store_key = service_key svc;
    hash = service_hash env svc;
  }

  abbrev pub want_config_map : ConfigMap → Want
  want_config_map cfg = record {
    kind = config_maps;
    key = key_of_meta cfg.meta;
    store_key = config_map_key cfg;
    hash = config_map_hash env cfg;
  }

  abbrev pub want_stateful_set : StatefulSet → Want
  want_stateful_set ss = record {
    kind = stateful_sets;
    key = key_of_meta ss.meta;
    store_key = stateful_set_key ss;
    hash = stateful_set_hash env ss;
  }

  abbrev pub want_pdb : PodDisruptionBudget → Want
  want_pdb pdb = record {
    kind = pod_disruption_budgets;
    key = key_of_meta pdb.meta;
    store_key = pdb_key pdb;
    hash = pdb_hash env pdb;
  }

module _ (env : Env) (has : Presence) (c : IsCooperative env has) (patience : ℕ) (ws : List Want)
    (consistent : is_consistent ws ws ≡ true) where
  abbrev pub Moves : State → (Flow Reply × State) → Type 0
  Moves s m = Advanced has patience ws s m.0 m.1

  settle_service-Moves :
      (svc existing : Service) (s : State)
      → IsWanted (want_service env svc) ws
      → has services (key_of_meta svc.meta) s.history ≡ true
      → Moves s (settle_service env svc (ok existing) s)
  unfolding settle_service update_service adopt_service ◌>>=◌
  settle_service-Moves svc existing s w there =
      let (b, accepted) = c.on_services.updates s.history (adopt_service svc existing) there in
      elim (Bool-cases (is_recorded (want_service env svc) s.hash_store)) [
        | inl e ↦ rw e (finished, refl, omega arith, λ n. cc)
        | inr e ↦
            let lt =
              updated-lt has c.stays patience ws consistent (want_service env svc)
                (updated (service (adopt_service svc existing))) s w e in
            rw (e, accepted) (again_in_5, refl, omega arith, λ n. lt)
      ]

  create_service-Moves :
      (svc : Service) (s : State)
      → IsWanted (want_service env svc) ws
      → has services (key_of_meta svc.meta) s.history ≡ false
      → Moves s (create_service env svc s)
  unfolding create_service ◌>>=◌
  create_service-Moves svc s w missing =
      let (b, accepted, there) = c.on_services.creates s.history svc missing in
      let lt =
        created-lt has c.stays patience ws consistent (want_service env svc) (created (service svc))
          s w missing there in
      rw accepted (finished, refl, omega arith, λ n. cc)

  -- What is so after the Get is so of the whole.
  pub after_read :
      (s t : State) (f : Flow Reply) (call : Call)
      → Advanced has patience ws (record s { history = call ∷ s.history }) f t
      → Advanced has patience ws s f t
  after_read s t f call (r, e, le, lt) =
      let first = called-le has c.stays patience ws consistent call s in
      (r, e, omega arith, λ n. let p = lt n in omega arith)

  pub reconcile_service-Advances :
      (svc : Service)
      → IsWanted (want_service env svc) ws
      → Advances has patience ws (reconcile_service env svc.meta.namespace svc)
  unfolding reconcile_service settle_service ◌>>=◌
  reconcile_service-Advances svc w = record {
    at = λ s.
        let key = key_of_meta svc.meta in
        after_read s _ _ (got services key) (elim (Bool-cases (has services key s.history)) [
          | inl there ↦
              let (existing, e) = c.on_services.found s.history key there in
              rw e (
                settle_service-Moves svc existing (after_get services key s) w
                  (c.reading services services key key s.history ∙ there))
          | inr missing ↦
              let (x, e, absent) = c.on_services.missing s.history key missing in
              rw (e, absent)
                (create_service-Moves svc (after_get services key s) w
                  (c.reading services services key key s.history ∙ missing))
        ]);
  }

  settle_pdb-Moves :
      (pdb existing : PodDisruptionBudget) (s : State)
      → IsWanted (want_pdb env pdb) ws
      → has pod_disruption_budgets (key_of_meta pdb.meta) s.history ≡ true
      → Moves s (settle_pdb env pdb (ok existing) s)
  unfolding settle_pdb update_pdb adopt_pdb ◌>>=◌
  settle_pdb-Moves pdb existing s w there =
      let (b, accepted) = c.on_budgets.updates s.history (adopt_pdb pdb existing) there in
      elim (Bool-cases (is_recorded (want_pdb env pdb) s.hash_store)) [
        | inl e ↦ rw e (finished, refl, omega arith, λ n. cc)
        | inr e ↦
            let lt =
              updated-lt has c.stays patience ws consistent (want_pdb env pdb)
                (updated (pod_disruption_budget (adopt_pdb pdb existing))) s w e in
            rw (e, accepted) (requeue_in 10, refl, omega arith, λ n. lt)
      ]

  create_pdb-Moves :
      (pdb : PodDisruptionBudget) (s : State)
      → IsWanted (want_pdb env pdb) ws
      → has pod_disruption_budgets (key_of_meta pdb.meta) s.history ≡ false
      → Moves s (create_pdb env pdb s)
  unfolding create_pdb ◌>>=◌
  create_pdb-Moves pdb s w missing =
      let (b, accepted, there) = c.on_budgets.creates s.history pdb missing in
      let lt =
        created-lt has c.stays patience ws consistent (want_pdb env pdb)
          (created (pod_disruption_budget pdb)) s w missing there in
      rw accepted (requeue_in 5, refl, omega arith, λ n. lt)

  pub reconcile_pod_disruption_budget-Advances :
      (pdb : PodDisruptionBudget)
      → IsWanted (want_pdb env pdb) ws
      → Advances has patience ws (reconcile_pod_disruption_budget env pdb)
  unfolding reconcile_pod_disruption_budget settle_pdb ◌>>=◌
  reconcile_pod_disruption_budget-Advances pdb w = record {
    at = λ s.
        let key = key_of_meta pdb.meta in
        after_read s _ _ (got pod_disruption_budgets key)
          (elim (Bool-cases (has pod_disruption_budgets key s.history)) [
            | inl there ↦
                let (existing, e) = c.on_budgets.found s.history key there in
                rw e (
                  settle_pdb-Moves pdb existing (after_get pod_disruption_budgets key s) w (
                    c.reading pod_disruption_budgets pod_disruption_budgets key key s.history
                    ∙ there))
            | inr missing ↦
                let (x, e, absent) = c.on_budgets.missing s.history key missing in
                rw (e, absent)
                  (create_pdb-Moves pdb (after_get pod_disruption_budgets key s) w (
                    c.reading pod_disruption_budgets pod_disruption_budgets key key s.history
                    ∙ missing))
          ]);
  }
