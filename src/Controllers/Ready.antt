-- ===== src/Controllers/Ready.antt =====
-- What success means: a Reconcile method that ends with the empty result and no error has seen every
-- StatefulSet rolled out.
pub mod Finish
pub mod Growth
mod StatefulSets
use Finish.{Finishes, again, or_return-Finishes, published}
use Growth.{Between, Grown-trans, Finishes-Between}
use StatefulSets.{reconcile_stateful_set-Finishes}
use hbase_k8s_operator.Prelude.{String, ◌≡◌, refl, false, List, [], ◌∷◌}
use hbase_k8s_operator.GoMap.{lookup}
use hbase_k8s_operator.Api.{NamespacedName, HbaseCluster, HbaseClusterDeployment}
use hbase_k8s_operator.Kube.{StatefulSet, stateful_sets}
use hbase_k8s_operator.Env.{Env, Error, Call, Answer, Answer-cases, ok, err, got}
use hbase_k8s_operator.Action.{
  State, Action, Flow, done, panicked, Reply, ◌>>=◌, pure, continue, finished, is_finished,
  ◌or_return◌, after_get, either_way, failed, requeue_in, failed_in_5,
}
use hbase_k8s_operator.Action.Steps.{Grown, same, more}
use hbase_k8s_operator.Build.Outcome.{Outcome, built, invalid, panic}
use hbase_k8s_operator.Build.ConfigMap.{text_or_empty}
use hbase_k8s_operator.Build.StatefulSet.{build_stateful_set}
use hbase_k8s_operator.Reconcile.Hash.{stateful_set_key, stateful_set_hash}
use hbase_k8s_operator.Reconcile.StatefulSets.{
  reconcile_stateful_set, settle_stateful_set, create_stateful_set, update_stateful_set,
  wait_for_stateful_set, is_rolling,
}
use hbase_k8s_operator.Controllers.Steps.{
  Owner, Template, own_stateful_set, apply_built, apply_deployment,
}
use hbase_k8s_operator.Controllers.Whole.{apply_pdb-Meets}

-- Between the two states, the StatefulSet of the deployment was read and found rolled out, and the
-- one that is wanted is the one that the hash store has.
pub record Ready (env : Env) (o : Owner) (t : Template) (s u : State) (d : HbaseClusterDeployment)
    : Type 0 where
  pub wanted : StatefulSet
  pub builds :
      build_stateful_set env o.meta.name o.meta.namespace t.base_image t.is_bootstrap
        t.configuration t.config_version t.fs_group d t.is_multi_stateful_set
      ≡ built wanted
  pub is_recorded :
      text_or_empty (lookup (stateful_set_key (own_stateful_set env o wanted)) u.hash_store)
      ≡ stateful_set_hash env (own_stateful_set env o wanted)
  pub moment : List Call
  pub after : Grown s.history moment
  pub before : Grown moment u.history
  pub existing : StatefulSet
  pub found :
      env.stateful_sets.get moment (record { name = d.name; namespace = o.meta.namespace })
      ≡ ok existing
  pub are_all_ready : existing.status.ready_replicas ≡ d.size
  pub is_up_to_date : existing.status.current_revision ≡ existing.status.update_revision

module _ (env : Env) where
  -- What held of a shorter run holds of a longer one with the same hash store.
  pub stays_Ready :
      (o : Owner) (t : Template) (s u v : State) (d : HbaseClusterDeployment)
      → Ready env o t s u d
      → Between env u v
      → Ready env o t s v d
  stays_Ready o t s u v d r b = record {
    wanted = r.wanted;
    builds = r.builds;
    is_recorded = rw (b.unchanged) (r.is_recorded);
    moment = r.moment;
    after = r.after;
    before = Grown-trans r.before b.grown;
    existing = r.existing;
    found = r.found;
    are_all_ready = r.are_all_ready;
    is_up_to_date = r.is_up_to_date;
  }

  pub starts_Ready :
      (o : Owner) (t : Template) (s u v : State) (d : HbaseClusterDeployment)
      → Grown s.history u.history
      → Ready env o t u v d
      → Ready env o t s v d
  starts_Ready o t s u v d g r = record {
    wanted = r.wanted;
    builds = r.builds;
    is_recorded = r.is_recorded;
    moment = r.moment;
    after = Grown-trans g r.after;
    before = r.before;
    existing = r.existing;
    found = r.found;
    are_all_ready = r.are_all_ready;
    is_up_to_date = r.is_up_to_date;
  }

  apply_built-Ready :
      (o : Owner) (t : Template) (d : HbaseClusterDeployment) (s u : State)
      (b : Outcome StatefulSet)
      → build_stateful_set env o.meta.name o.meta.namespace t.base_image t.is_bootstrap
          t.configuration t.config_version t.fs_group d t.is_multi_stateful_set
        ≡ b
      → Finishes (apply_built env o d b) s u
      → Ready env o t s u d
  unfolding apply_built ◌>>=◌
  apply_built-Ready o t d s u (built ss) e h =
      let (existing, found, recorded, all_ready, latest, ends) =
        reconcile_stateful_set-Finishes env o.meta.namespace (own_stateful_set env o ss) d s u
          (again h h.ends) in
      record {
        wanted = ss;
        builds = e;
        is_recorded = rw ends recorded;
        moment = s.history;
        after = same;
        before = rw ends (more _ same);
        existing = existing;
        found = found;
        are_all_ready = all_ready;
        is_up_to_date = latest;
      }
  apply_built-Ready o t d s u (invalid message) e h =
      absurd (published _ _ _ u h.reply h.ends h.succeeds)
  apply_built-Ready o t d s u panic e h = let q = h.ends in cc

  pub apply_deployment-Ready :
      (o : Owner) (t : Template) (d : HbaseClusterDeployment) (s u : State)
      → Finishes (apply_deployment env o t d) s u
      → Ready env o t s u d
  unfolding apply_deployment
  apply_deployment-Ready o t d s u h =
      let (v, first, rest) = or_return-Finishes _ _ s u h in
      stays_Ready o t s v u d (apply_built-Ready o t d s v _ refl first)
        (Finishes-Between env _ v u (λ R c. apply_pdb-Meets c o _) rest)
