-- ===== src/Controllers/Contract.antt =====
-- An interface between the parts and the whole: a relation between the state before, the reply and
-- the state after that holds of each part of a reconciliation and is closed under running one part
-- after another. `Controllers.Whole` carries it over to the three Reconcile methods.
use hbase_k8s_operator.Prelude.{String, ◌≡◌, true, Bool-cases, inl, inr, if◌then◌else◌}
use hbase_k8s_operator.Api.{NamespacedName, HbaseClusterDeployment}
use hbase_k8s_operator.Kube.{Kind, ConfigMap, Service, StatefulSet, PodDisruptionBudget}
use hbase_k8s_operator.Env.{Env, Error}
use hbase_k8s_operator.Action.{
  State, Action, Flow, done, panicked, Reply, continue, pure, finished, failed, failed_in_5,
  is_finished, ◌or_return◌, after_get,
}
use hbase_k8s_operator.Reconcile.Events.{publish_event}
use hbase_k8s_operator.Reconcile.ConfigMaps.{reconcile_config_map}
use hbase_k8s_operator.Reconcile.Services.{reconcile_service}
use hbase_k8s_operator.Reconcile.StatefulSets.{reconcile_stateful_set}
use hbase_k8s_operator.Reconcile.Pdbs.{reconcile_pod_disruption_budget}

-- The reply of an action that also returns the config map.
abbrev pub reply_of : Flow (Reply × ConfigMap) → Flow Reply
reply_of (done (reply, _)) = done reply
reply_of panicked = panicked

pub record Contract (env : Env) (R : State → Flow Reply → State → Type 0) : Type 0 where
  pub finish : (s : State) → R s (done finished) s
  pub fault : (s : State) → R s panicked s
  -- A Get before the rest, and a Get that fails.
  pub read :
      (kind : Kind) (key : NamespacedName) (s t : State) (f : Flow Reply)
      → R (after_get kind key s) f t
      → R s f t
  pub unreadable : (e : Error) (s : State) → R s (done (failed_in_5 e)) s
  -- One part that finishes, and then another.
  pub chain :
      (s t u : State) (r : Reply) (f : Flow Reply)
      → R s (done r) t
      → is_finished r ≡ true
      → R t f u
      → R s f u
  -- An error that is published and returned.
  pub refuse :
      (namespace reason message kind : String) (e : Error) (s : State)
      → let (f, t) = publish_event env namespace reason message "Warning" kind s in
        R s (continue f (λ _. pure (failed e)) t).0 (continue f (λ _. pure (failed e)) t).1
  pub services :
      (namespace : String) (svc : Service) (s : State)
      → let (f, t) = reconcile_service env namespace svc s in R s f t
  pub config_maps :
      (namespace : String) (cfg : ConfigMap) (s : State)
      → let (f, t) = reconcile_config_map env namespace cfg s in R s (reply_of f) t
  pub stateful_sets :
      (namespace : String) (ss : StatefulSet) (d : HbaseClusterDeployment) (s : State)
      → let (f, t) = reconcile_stateful_set env namespace ss d s in R s f t
  pub budgets :
      (pdb : PodDisruptionBudget) (s : State)
      → let (f, t) = reconcile_pod_disruption_budget env pdb s in R s f t

-- The relation holds of an action, from every state.
pub record Meets (R : State → Flow Reply → State → Type 0) (m : Action Reply) : Type 0 where
  pub at : (s : State) → let (f, t) = m s in R s f t

module _ {env : Env} {R : State → Flow Reply → State → Type 0} (c : Contract env R) where
  after_first :
      (rest : Action Reply)
      → Meets R rest
      → (s t : State) (f : Flow Reply) → R s f t
      → let (g, u) = continue f (λ r. if is_finished r then rest else pure r) t in R s g u
  after_first rest k s t panicked h = h
  after_first rest k s t (done r) h = elim (Bool-cases (is_finished r)) [
    | inl e ↦ rw e (c.chain s t _ r _ h e (k.at t))
    | inr e ↦ rw e h
  ]

  pub or_return-Meets :
      (first rest : Action Reply) → Meets R first → Meets R rest → Meets R (first or_return rest)
  unfolding ◌or_return◌
  or_return-Meets first rest h k = record {
    at = λ s. let (f, t) = first s in after_first rest k s t f (h.at s);
  }

  pub finished-Meets : Meets R (pure finished)
  finished-Meets = record { at = c.finish }
