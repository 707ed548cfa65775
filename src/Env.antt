-- ===== src/Env.antt =====
-- What the program calls and does not implement: the API server behind client.Client, the
-- controller runtime's SetControllerReference, the clock, and functions of the standard library and
-- of k8s.io/apimachinery. The server's answer to a call may depend on every call before it, so an
-- `Env` stands for any server, any other clients of it, and any failures.
use hbase_k8s_operator.Prelude.{String, Bool, ℕ, List, Option, ◌≡◌, refl, ◌⊎◌, inl, inr}
use hbase_k8s_operator.GoMap.{GoMap}
use hbase_k8s_operator.Api.{ObjectMeta, NamespacedName, HbaseCluster, HbaseTenant, HbaseStandalone}
use hbase_k8s_operator.Kube.{
  Kind, Object, ConfigMap, ServiceSpec, Service, StatefulSet, PodDisruptionBudget, Event, Quantity,
}

-- A Go error: its text, and whether errors.IsNotFound holds of it.
pub record Error : Type 0 where
  pub message : String
  pub is_not_found : Bool

-- What a call answers: a value, or an error.
pub data Answer {ℓ} (A : Type ℓ) : Type ℓ where
  ok : A → Answer A
  err : Error → Answer A

pub Answer-cases {ℓ} :
    {A : Type ℓ} (a : Answer A) → ((x : A) × (a ≡ ok x)) ⊎ ((e : Error) × (a ≡ err e))
Answer-cases (ok x) = inl (x, refl)
Answer-cases (err e) = inr (e, refl)

-- A call of client.Client.
pub data Call : Type 0 where
  got : Kind → NamespacedName → Call
  created : Object → Call
  updated : Object → Call

-- The server's answers for one kind, given the calls before, the latest first. Create and Update
-- write the stored object back into their argument.
pub record Endpoint (A : Type 0) : Type 0 where
  pub get : List Call → NamespacedName → Answer A
  pub create : List Call → A → Answer A
  pub update : List Call → A → Answer A

pub record Env : Type 0 where
  pub config_maps : Endpoint ConfigMap
  pub services : Endpoint Service
  pub stateful_sets : Endpoint StatefulSet
  pub pod_disruption_budgets : Endpoint PodDisruptionBudget
  pub events : Endpoint Event
  pub get_hbase_cluster : List Call → NamespacedName → Answer HbaseCluster
  pub get_hbase_tenant : List Call → NamespacedName → Answer HbaseTenant
  pub get_hbase_standalone : List Call → NamespacedName → Answer HbaseStandalone
  -- ctrl.SetControllerReference(owner, object, scheme): the owner's kind and metadata, and the
  -- object's metadata before and after. The program drops its error, after which the object is as
  -- it was.
  pub set_controller_reference : Kind → ObjectMeta → ObjectMeta → ObjectMeta
  -- json.Marshal
  pub marshal_data : GoMap → String
  pub marshal_service_spec : ServiceSpec → String
  pub marshal_stateful_set : StatefulSet → String
  pub marshal_pod_disruption_budget : PodDisruptionBudget → String
  -- fmt.Sprintf("%v", bytes), and the hexadecimal SHA-256 of a text
  pub sprint_bytes : String → String
  pub sha256_hex : String → String
  -- resource.ParseQuantity; `none` is an error, at which resource.MustParse panics
  pub parse_quantity : String → Option Quantity
  -- xml.Unmarshal([]byte(s), new(interface{})) == nil
  pub unmarshal_xml : String → Bool
  -- strconv.Itoa of an index
  pub itoa : ℕ → String
  -- time.Now(), and its text
  pub now : List Call → ℕ
  pub time_text : ℕ → String
