-- ===== src/Controllers/Progress/Server.antt =====
-- An API server that no one else writes to, as its documentation has it: an object that is there stays,
-- is found, and can be updated; one that is not there is not found and can be created, and is there
-- from then on; reading changes nothing.
use hbase_k8s_operator.Prelude.{◌≡◌, Bool, true, false, List, ◌∷◌}
use hbase_k8s_operator.Api.{ObjectMeta, NamespacedName}
use hbase_k8s_operator.Kube.{
  Kind, Object, config_maps, services, stateful_sets, pod_disruption_budgets, config_map, service,
  stateful_set, pod_disruption_budget,
}
use hbase_k8s_operator.Env.{Env, Error, Call, Endpoint, ok, err, got, created}

-- Whether an object of a kind and with a key is there, after these calls.
abbrev pub Presence : Type 0
Presence = Kind → NamespacedName → List Call → Bool

abbrev pub key_of_meta : ObjectMeta → NamespacedName
key_of_meta meta = record { name = meta.name; namespace = meta.namespace }

pub record Serves (has : Presence) (kind : Kind) {A : Type 0} (endpoint : Endpoint A)
    (object : A → Object) (meta : A → ObjectMeta) : Type 0 where
  pub found :
      (h : List Call) (key : NamespacedName)
      → has kind key h ≡ true
      → (a : A) × (endpoint.get h key ≡ ok a)
  pub missing :
      (h : List Call) (key : NamespacedName)
      → has kind key h ≡ false
      → (e : Error) × (endpoint.get h key ≡ err e) × (e.is_not_found ≡ true)
  pub creates :
      (h : List Call) (a : A)
      → has kind (key_of_meta (meta a)) h ≡ false
      → (b : A) × (endpoint.create h a ≡ ok b)
        × (has kind (key_of_meta (meta a)) (created (object a) ∷ h) ≡ true)
  pub updates :
      (h : List Call) (a : A)
      → has kind (key_of_meta (meta a)) h ≡ true
      → (b : A) × (endpoint.update h a ≡ ok b)

pub record IsCooperative (env : Env) (has : Presence) : Type 0 where
  pub stays :
      (kind : Kind) (key : NamespacedName) (c : Call) (h : List Call)
      → has kind key h ≡ true
      → has kind key (c ∷ h) ≡ true
  pub reading :
      (kind kind' : Kind) (key key' : NamespacedName) (h : List Call)
      → has kind key (got kind' key' ∷ h) ≡ has kind key h
  pub on_config_maps : Serves has config_maps env.config_maps config_map (λ a. a.meta)
  pub on_services : Serves has services env.services service (λ a. a.meta)
  pub on_stateful_sets : Serves has stateful_sets env.stateful_sets stateful_set (λ a. a.meta)
  pub on_budgets :
      Serves has pod_disruption_budgets env.pod_disruption_budgets pod_disruption_budget
        (λ a. a.meta)
  -- SetControllerReference leaves an object's name and namespace alone.
  pub keeps_key :
      (kind : Kind) (owner object : ObjectMeta)
      → key_of_meta (env.set_controller_reference kind owner object) ≡ key_of_meta object
