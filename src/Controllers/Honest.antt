-- ===== src/Controllers/Honest.antt =====
-- What the hash store says is true: an object counts as up to date only after the server has accepted
-- an Update of it with the desired content.
mod Entries
mod Parts
pub use Entries.{AcceptedBy, Accepted, IsHonest, extend, extend_store}
use Entries.{publish-IsHonest}
use Parts.{
  reconcile_service-IsHonest, reconcile_config_map-IsHonest, reconcile_stateful_set-IsHonest,
  reconcile_pod_disruption_budget-IsHonest,
}
use hbase_k8s_operator.Prelude.{List, [], ◌≡◌}
use hbase_k8s_operator.GoMap.{lookup}
use hbase_k8s_operator.Env.{Env, Call}
use hbase_k8s_operator.Action.{State, Flow, done, panicked, Reply, failed}
use hbase_k8s_operator.Controllers.Contract.{Contract, Meets}
use hbase_k8s_operator.Controllers.Requests.{Request, handle, serve, handle-Meets, serve_induction}

-- An honest hash store stays honest, however the reconciliation ends.
abbrev Keeps : Env → State → Flow Reply → State → Type 0
Keeps env s f t = IsHonest env s → IsHonest env t

module _ (env : Env) where
  honest : Contract env (Keeps env)
  honest = record {
    finish = λ s p. p;
    fault = λ s p. p;
    read = λ kind key s t f k p. k (extend env s _ p);
    unreadable = λ e s p. p;
    chain = λ s t u r f h e k p. k (h p);
    refuse = λ namespace reason message kind e s p.
        publish-IsHonest env namespace reason message "Warning" kind (failed e) s p;
    services = λ namespace svc s p. reconcile_service-IsHonest env namespace svc s p;
    config_maps = λ namespace cfg s p. reconcile_config_map-IsHonest env namespace cfg s p;
    stateful_sets = λ namespace ss d s p. reconcile_stateful_set-IsHonest env namespace ss d s p;
    budgets = λ pdb s p. reconcile_pod_disruption_budget-IsHonest env pdb s p;
  }

  pub handle-IsHonest : (r : Request) (s : State) → IsHonest env s → IsHonest env (handle env r s).1
  handle-IsHonest r s = (handle-Meets honest r).at s

  -- An operator starts with an empty hash store. After any requests to the three controllers, one
  -- after another, and whatever the server answers, each entry of the hash store stands for an
  -- Update that the server has accepted: of an object with that key, whose desired content has that
  -- hash.
  pub serve-IsHonest :
      (before : List Call) (requests : List Request)
      → IsHonest env (serve env (record { hash_store = []; history = before }) requests)
  unfolding lookup
  serve-IsHonest before requests =
      serve_induction env (IsHonest env) handle-IsHonest _ requests
        (record { recorded = λ key hash e. cc })
