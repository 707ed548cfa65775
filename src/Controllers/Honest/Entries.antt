-- ===== src/Controllers/Honest/Entries.antt =====
-- A hash store whose entries stand for accepted Updates, and what keeps it so.
use hbase_k8s_operator.Prelude.{
  sym, String, ◌≡◌, subst, inl, inr, ◌⊎◌, Bool-cases, some, List, [], ◌∷◌, eq_iff, ◌==◌,
}
use mathlib.Core.Option.{some-injective}
use hbase_k8s_operator.GoMap.{lookup, insert, lookup-insert}
use hbase_k8s_operator.Kube.{
  ConfigMap, Service, StatefulSet, PodDisruptionBudget, config_map, service, stateful_set,
  pod_disruption_budget, Event, event,
}
use hbase_k8s_operator.Env.{Env, Answer, ok, err, Call, created, updated}
use hbase_k8s_operator.Action.{State, Flow, done, panicked, Reply, pure, continue, either_way}
use hbase_k8s_operator.Reconcile.Hash.{
  config_map_key, config_map_hash, service_key, service_hash, stateful_set_key, stateful_set_hash,
  pdb_key, pdb_hash,
}
use hbase_k8s_operator.Reconcile.Events.{publish_event, write_event}
use hbase_k8s_operator.Reconcile.Services.{adopt_service}
use hbase_k8s_operator.Reconcile.Pdbs.{adopt_pdb}

-- The call is an Update of an object with this key, the server accepted it after the calls `h`, and
-- the hash is that of the object which was desired: for a service and a budget, before the parts
-- that are taken over from the object that exists.
abbrev pub AcceptedBy : Env → String → String → Call → List Call → Type 0
AcceptedBy env key hash (updated (config_map cfg)) h =
    (stored : ConfigMap) × (env.config_maps.update h cfg ≡ ok stored)
    × (config_map_key cfg ≡ key)
    × (config_map_hash env cfg ≡ hash)
AcceptedBy env key hash (updated (service svc)) h =
    (stored desired existing : Service) × (env.services.update h svc ≡ ok stored)
    × (svc ≡ adopt_service desired existing)
    × (service_key desired ≡ key)
    × (service_hash env desired ≡ hash)
AcceptedBy env key hash (updated (stateful_set ss)) h =
    (stored : StatefulSet) × (env.stateful_sets.update h ss ≡ ok stored)
    × (stateful_set_key ss ≡ key)
    × (stateful_set_hash env ss ≡ hash)
AcceptedBy env key hash (updated (pod_disruption_budget pdb)) h =
    (stored desired existing : PodDisruptionBudget) × (env.pod_disruption_budgets.update h pdb
      ≡ ok stored)
    × (pdb ≡ adopt_pdb desired existing)
    × (pdb_key desired ≡ key)
    × (pdb_hash env desired ≡ hash)
AcceptedBy env key hash _ h = ⊥

-- One of the calls is such an Update.
abbrev pub Accepted : Env → String → String → List Call → Type 0
Accepted env key hash [] = ⊥
Accepted env key hash (c ∷ h) = AcceptedBy env key hash c h ⊎ Accepted env key hash h

-- What the hash store says has been accepted by the server.
pub record IsHonest (env : Env) (s : State) : Type 0 where
  pub recorded :
      (key hash : String) → lookup key s.hash_store ≡ some hash → Accepted env key hash s.history

module _ (env : Env) where
  -- A call more, with the hash store as it was.
  pub extend :
      (s : State) (c : Call) → IsHonest env s → IsHonest env (record s { history = c ∷ s.history })
  extend s c p = record { recorded = λ key hash e. inr (p.recorded key hash e) }

  -- The hash of an Update that the server has accepted.
  pub extend_store :
      (s : State) (key hash : String)
      → Accepted env key hash s.history
      → IsHonest env s
      → IsHonest env (record s { hash_store = insert key hash s.hash_store })
  extend_store s key hash a p = record {
    recorded = λ key' hash' e.
        let found = rw lookup-insert at e in
        elim (Bool-cases (key' == key)) [
          | inl same ↦
              let hashes : hash ≡ hash' = some-injective _ _ (rw same at found) in
              subst (λ k. Accepted env k hash' s.history) (sym ((eq_iff key' key).0 same))
                (subst (λ x. Accepted env key x s.history) hashes a)
          | inr other ↦ p.recorded key' hash' (rw other at found)
        ];
  }

  -- An Update that the server accepts, and its hash.
  pub accept :
      (s : State) (c : Call) (key hash : String)
      → AcceptedBy env key hash c s.history
      → IsHonest env s
      → IsHonest env
          (record s { hash_store = insert key hash s.hash_store; history = c ∷ s.history })
  accept s c key hash a p =
      extend_store (record s { history = c ∷ s.history }) key hash (inl a) (extend s c p)

  write_event-IsHonest :
      (evt : Event) (answer : Answer Event) (s : State)
      → IsHonest env s
      → IsHonest env (write_event env evt answer s).1
  unfolding write_event
  write_event-IsHonest evt (ok existing) s p = extend s _ p
  write_event-IsHonest evt (err e) s p =
      either_way (λ m. IsHonest env (m s).1) e.is_not_found
        (λ (s : State). (done tt, record s { history = created (event evt) ∷ s.history })) (pure tt)
        (extend s _ p) p

  publish_event-IsHonest :
      (namespace reason message level kind : String) (s : State)
      → IsHonest env s
      → IsHonest env (publish_event env namespace reason message level kind s).1
  unfolding publish_event
  publish_event-IsHonest namespace reason message level kind s p =
      write_event-IsHonest _ _ _ (extend s _ p)

  pub publish-IsHonest :
      (namespace reason message level kind : String) (r : Reply) (s : State)
      → IsHonest env s
      → let (f, t) = publish_event env namespace reason message level kind s in
        IsHonest env (continue f (λ _. pure r) t).1
  publish-IsHonest namespace reason message level kind r s p =
      reply _ _ (publish_event-IsHonest namespace reason message level kind s p)
    where
      reply :
          (f : Flow Unit) (t : State) → IsHonest env t → IsHonest env (continue f (λ _. pure r) t).1
      reply (done x) t q = q
      reply panicked t q = q
