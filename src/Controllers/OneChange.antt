-- ===== src/Controllers/OneChange.antt =====
-- How much one reconciliation changes: at most one object that runs, and the hash store only where
-- it asks to be run again.
mod Parts
pub use Parts.{is_change, changes, has_error, Unchanged, Gentle}
use Parts.{
  publish-Gentle, reconcile_service-Gentle, reconcile_config_map-Gentle,
  reconcile_stateful_set-Gentle, reconcile_pod_disruption_budget-Gentle,
}
use hbase_k8s_operator.Prelude.{
  String, ◌⧺◌, ℕ, suc, ◌+◌, ◌≤◌, ◌≡◌, refl, inl, inr, ◌∙◌, Bool, true, false, Option, none, some,
  List, [], ◌∷◌, arith, if◌then◌else◌, not, ◌==◌,
}
use hbase_k8s_operator.GoMap.{lookup}
use hbase_k8s_operator.Api.{NamespacedName, HbaseClusterDeployment}
use hbase_k8s_operator.Kube.{
  Kind, ConfigMap, Service, StatefulSet, PodDisruptionBudget, config_map, service, stateful_set,
  pod_disruption_budget, event,
}
use hbase_k8s_operator.Env.{Env, Error, Answer, ok, err, Answer-cases, Call, got, created, updated}
use hbase_k8s_operator.Action.{
  after_get, State, Flow, done, panicked, Reply, ◌>>=◌, pure, continue, is_finished, either_way,
  failed_in_5, failed, finished, requeue_in,
}
use hbase_k8s_operator.Reconcile.Hash.{config_map_key}
use hbase_k8s_operator.Reconcile.Events.{publish_event, write_event}
use hbase_k8s_operator.Reconcile.ConfigMaps.{
  reconcile_config_map, settle_config_map, create_config_map, update_config_map, send_config_map,
}
use hbase_k8s_operator.Reconcile.Services.{
  reconcile_service, settle_service, create_service, update_service,
}
use hbase_k8s_operator.Reconcile.StatefulSets.{
  reconcile_stateful_set, settle_stateful_set, create_stateful_set, update_stateful_set, is_rolling,
}
use hbase_k8s_operator.Reconcile.Pdbs.{
  reconcile_pod_disruption_budget, settle_pdb, create_pdb, update_pdb,
}
use hbase_k8s_operator.Controllers.Contract.{Contract, reply_of}
use hbase_k8s_operator.Controllers.Requests.{Request, handle, handle-Meets}

module _ (env : Env) where
  chain-Gentle :
      (s t u : State) (r : Reply) (f : Flow Reply)
      → Gentle s (done r) t
      → is_finished r ≡ true
      → Gentle t f u
      → Gentle s f u
  chain-Gentle s t u r panicked h e k = let g = h.1 e in (omega (arith, g.0, k.0), k.1 ∙ g.1)
  chain-Gentle s t u r (done r') h e k =
      let g = h.1 e in
      (
        omega (arith, g.0, k.0),
        (λ p. (omega (arith, g.0, (k.1 p).0), (k.1 p).1 ∙ g.1)),
        (λ p. k.2 p ∙ g.1),
      )

  read-Gentle :
      (kind : Kind) (key : NamespacedName) (s t : State) (f : Flow Reply)
      → Gentle (after_get kind key s) f t
      → Gentle s f t
  read-Gentle kind key s t panicked h = h
  read-Gentle kind key s t (done r) h = h

  pub gentle : Contract env Gentle
  gentle = record {
    finish = λ s. ground arith;
    fault = λ s. ground arith;
    read = read-Gentle;
    unreadable = λ e s. ground arith;
    chain = chain-Gentle;
    refuse = λ namespace reason message kind e s.
        publish-Gentle env namespace reason message "Warning" kind (failed e) s refl;
    services = reconcile_service-Gentle env;
    config_maps = reconcile_config_map-Gentle env;
    stateful_sets = reconcile_stateful_set-Gentle env;
    budgets = reconcile_pod_disruption_budget-Gentle env;
  }

  -- One call of a Reconcile method, of any of the three controllers and whatever the server answers,
  -- tries at most one change of an object that exists, or creates at most one StatefulSet or budget
  -- instead. If it returns the empty result with no error, or panics, then it has tried none of
  -- these, and the hash store is as it was. If it returns an error, the hash store is as it was.
  pub handle-Gentle : (r : Request) (s : State) → let (f, t) = handle env r s in Gentle s f t
  handle-Gentle r s = (handle-Meets gentle r).at s
