-- ===== src/Controllers/Ready/Growth.antt =====
-- A part that ends with the empty result and no error only adds to the history, and leaves the hash
-- store as it was.
use hbase_k8s_operator.Prelude.{◌≡◌, refl, ap, subst, true, List}
use hbase_k8s_operator.Env.{Env, Call, got}
use hbase_k8s_operator.Action.{State, Action, Flow, Reply, failed}
use hbase_k8s_operator.Action.Steps.{Grown, same, more, Steps-Grown}
use hbase_k8s_operator.Reconcile.Footprint.{
  publish-Steps, reconcile_service-Steps, reconcile_config_map-Steps, reconcile_stateful_set-Steps,
  reconcile_pod_disruption_budget-Steps,
}
use hbase_k8s_operator.Controllers.Contract.{Contract, Meets}
use hbase_k8s_operator.Controllers.OneChange.{Gentle, gentle}
use hbase_k8s_operator.Controllers.Ready.Finish.{Finishes}

abbrev Grows : State → Flow Reply → State → Type 0
Grows s f t = Grown s.history t.history

pub Grown-trans : {a b c : List Call} → Grown a b → Grown b c → Grown a c
Grown-trans p same = p
Grown-trans p (more x q) = more x (Grown-trans p q)

module _ (env : Env) where
  grows : Contract env Grows
  grows = record {
    finish = λ s. same;
    fault = λ s. same;
    read = λ kind key s t f q. Grown-trans (more (got kind key) same) q;
    unreadable = λ e s. same;
    chain = λ s t u r f p e q. Grown-trans p q;
    refuse = λ namespace reason message kind e s.
        Steps-Grown
          (publish-Steps env (λ _. true) refl namespace reason message "Warning" kind (failed e) s);
    services = λ namespace svc s.
        Steps-Grown (reconcile_service-Steps env (λ _. true) refl refl namespace svc s);
    config_maps = λ namespace cfg s.
        Steps-Grown (reconcile_config_map-Steps env (λ _. true) refl namespace cfg s);
    stateful_sets = λ namespace ss d s.
        Steps-Grown (reconcile_stateful_set-Steps env (λ _. true) refl namespace ss d s);
    budgets =
        λ pdb s. Steps-Grown (reconcile_pod_disruption_budget-Steps env (λ _. true) refl pdb s);
  }

  pub record Between (s u : State) : Type 0 where
    pub grown : Grown s.history u.history
    pub unchanged : u.hash_store ≡ s.hash_store

  kept :
      (m : Action Reply) (s u : State)
      → (let (f, t) = m s in Gentle s f t)
      → Finishes m s u
      → u.hash_store ≡ s.hash_store
  kept m s u g h = let g' = rw (h.ends) at g in (g'.1 (h.succeeds)).1

  -- An action that every contract covers.
  pub Finishes-Between :
      (m : Action Reply) (s u : State)
      → ((R : State → Flow Reply → State → Type 0) → Contract env R → Meets R m)
      → Finishes m s u
      → Between s u
  Finishes-Between m s u meets h = record {
    grown =
        subst (λ x. Grown s.history x.history) (ap (λ p. p.1) h.ends) ((meets Grows grows).at s);
    unchanged = kept m s u ((meets Gentle (gentle env)).at s) h;
  }
