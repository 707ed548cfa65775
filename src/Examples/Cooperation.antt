-- ===== src/Examples/Cooperation.antt =====
-- A cooperative server: what has been created is there, and is found as a given object of its kind.
use hbase_k8s_operator.Prelude.{
  ℕ, ◌≡◌, refl, Bool, true, false, ◌&&◌, ◌||◌, List, [], ◌∷◌, arith, eqb, ltb, length, pos, eq_refl,
  ◌==◌, if◌then◌else◌,
}
use hbase_k8s_operator.Api.{ObjectMeta, NamespacedName}
use hbase_k8s_operator.Kube.{
  StatefulSet, Kind, Object, config_maps, services, stateful_sets, pod_disruption_budgets, events,
  hbase_clusters, hbase_tenants, hbase_standalones, config_map, service, stateful_set,
  pod_disruption_budget, event,
}
use hbase_k8s_operator.Env.{Env, Answer, Call, Endpoint, ok, err, got, created, updated}
use hbase_k8s_operator.Action.Steps.{kind_of_object}
use hbase_k8s_operator.Controllers.Progress.Server.{Presence, key_of_meta, Serves, IsCooperative}
use hbase_k8s_operator.Examples.World.{world, not_found, headless, site, workload, budget}

abbrev number : Kind → ℕ
number config_maps = 0
number services = 1
number stateful_sets = 2
number pod_disruption_budgets = 3
number events = 4
number hbase_clusters = 5
number hbase_tenants = 6
number hbase_standalones = 7

abbrev meta_of : Object → ObjectMeta
meta_of (config_map a) = a.meta
meta_of (service a) = a.meta
meta_of (stateful_set a) = a.meta
meta_of (pod_disruption_budget a) = a.meta
meta_of (event a) = a.meta

abbrev is_at : NamespacedName → ObjectMeta → Bool
is_at key meta = key.name == meta.name && key.namespace == meta.namespace

abbrev pub has : Presence
has kind key [] = false
has kind key (got _ _ ∷ h) = has kind key h
has kind key (updated _ ∷ h) = has kind key h
has kind key (created o ∷ h) =
    (eqb (number kind) (number (kind_of_object o)) && is_at key (meta_of o)) || has kind key h

abbrev pub answer : {A : Type 0} → Bool → A → Answer A
answer true a = ok a
answer false a = err not_found

abbrev endpoint : {A : Type 0} → Kind → (List Call → A) → Endpoint A
endpoint kind a = record {
  get = λ h key. answer (has kind key h) (a h);
  create = λ h b. ok b;
  update = λ h b. ok b;
}

-- The pod is ready after 40 calls.
abbrev pub workload_at : List Call → StatefulSet
workload_at h = record workload {
  status = record (workload.status) { ready_replicas = if ltb (length h) 40 then pos 0 else pos 1 };
}

-- The server holds no object at first.
abbrev pub helpful : Env
helpful = record world {
  config_maps = endpoint config_maps (λ h. site);
  services = endpoint services (λ h. headless);
  stateful_sets = endpoint stateful_sets workload_at;
  pod_disruption_budgets = endpoint pod_disruption_budgets (λ h. budget);
}

there :
    (m : ObjectMeta) (h : List Call) (kind : Kind)
    → ((eqb (number kind) (number kind) && is_at (key_of_meta m) m) || has kind (key_of_meta m) h)
      ≡ true
there m h kind = ground (arith, eq_refl m.name, eq_refl m.namespace)

stays :
    (kind : Kind) (key : NamespacedName) (c : Call) (h : List Call)
    → has kind key h ≡ true
    → has kind key (c ∷ h) ≡ true
stays kind key (got _ _) h e = e
stays kind key (updated _) h e = e
stays kind key (created o) h e = ground arith

serves :
    {A : Type 0} (kind : Kind) (a : List Call → A) (object : A → Object) (meta : A → ObjectMeta)
    → ((b : A) → kind_of_object (object b) ≡ kind)
    → ((b : A) → meta_of (object b) ≡ meta b)
    → Serves has kind (endpoint kind a) object meta
serves kind a object meta same_kind same_meta = record {
  found = λ h key e. (a h, rw e);
  missing = λ h key e. (not_found, rw e, refl);
  creates = λ h b e. (b, refl, rw (same_kind b, same_meta b) (there (meta b) h kind));
  updates = λ h b e. (b, refl);
}

pub helpful-IsCooperative : IsCooperative helpful has
helpful-IsCooperative = record {
  stays = stays;
  reading = λ kind kind' key key' h. refl;
  on_config_maps = serves config_maps (λ h. site) config_map (λ a. a.meta) (λ b. refl) (λ b. refl);
  on_services = serves services (λ h. headless) service (λ a. a.meta) (λ b. refl) (λ b. refl);
  on_stateful_sets =
      serves stateful_sets workload_at stateful_set (λ a. a.meta) (λ b. refl) (λ b. refl);
  on_budgets =
      serves pod_disruption_budgets (λ h. budget) pod_disruption_budget (λ a. a.meta) (λ b. refl)
        (λ b. refl);
  keeps_key = λ kind owner object. refl;
}
