-- ===== src/Action/Steps.antt =====
-- What an action does to the state, as a sequence of calls and of entries of the hash store, the calls
-- on objects of certain kinds only.
use hbase_k8s_operator.Prelude.{String, ◌≡◌, Bool, true, List, ◌∷◌}
use hbase_k8s_operator.GoMap.{insert}
use hbase_k8s_operator.Kube.{
  Kind, Object, config_maps, services, stateful_sets, pod_disruption_budgets, events, config_map,
  service, stateful_set, pod_disruption_budget, event,
}
use hbase_k8s_operator.Env.{Call, got, created, updated}
use hbase_k8s_operator.Action.{State}

abbrev pub kind_of_object : Object → Kind
kind_of_object (config_map _) = config_maps
kind_of_object (service _) = services
kind_of_object (stateful_set _) = stateful_sets
kind_of_object (pod_disruption_budget _) = pod_disruption_budgets
kind_of_object (event _) = events

abbrev pub kind_of : Call → Kind
kind_of (got kind key) = kind
kind_of (created object) = kind_of_object object
kind_of (updated object) = kind_of_object object

pub data Steps (allowed : Kind → Bool) (s : State) : State → Type 0 where
  here : Steps allowed s s
  called :
      {t : State} (c : Call)
      → Steps allowed s t
      → allowed (kind_of c) ≡ true
      → Steps allowed s (record t { history = c ∷ t.history })
  stored :
      {t : State} (key hash : String)
      → Steps allowed s t
      → Steps allowed s (record t { hash_store = insert key hash t.hash_store })

module _ {allowed : Kind → Bool} where
  pub Steps-trans : {s t u : State} → Steps allowed s t → Steps allowed t u → Steps allowed s u
  Steps-trans p here = p
  Steps-trans p (called c q a) = called c (Steps-trans p q) a
  Steps-trans p (stored key hash q) = stored key hash (Steps-trans p q)

-- More kinds may be allowed.
pub Steps-widen :
    (small large : Kind → Bool) {s t : State}
    → ((k : Kind) → small k ≡ true → large k ≡ true)
    → Steps small s t
    → Steps large s t
Steps-widen small large w here = here
Steps-widen small large w (called c q a) = called c (Steps-widen small large w q) (w (kind_of c) a)
Steps-widen small large w (stored key hash q) = stored key hash (Steps-widen small large w q)

-- The calls of the one history are the oldest of the other.
pub data Grown (before : List Call) : List Call → Type 0 where
  same : Grown before before
  more : {h : List Call} (c : Call) → Grown before h → Grown before (c ∷ h)

pub Steps-Grown :
    {allowed : Kind → Bool} {s t : State} → Steps allowed s t → Grown s.history t.history
Steps-Grown here = same
Steps-Grown (called c q a) = more c (Steps-Grown q)
Steps-Grown (stored key hash q) = Steps-Grown q
