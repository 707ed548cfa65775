-- ===== src/Kube/Objects.antt =====
-- The objects that the program exchanges with the API server.
use hbase_k8s_operator.Prelude.{String, Bool, List, Option, ℤ, ℕ}
use hbase_k8s_operator.GoMap.{GoMap, Map}
use hbase_k8s_operator.Api.{Json, ObjectMeta, IntOrString}
use hbase_k8s_operator.Kube.Pod.{Container, Volume, PersistentVolumeClaim}

pub record ConfigMap : Type 0 where
  pub meta : ObjectMeta
  pub contents : GoMap  -- Data

pub record ServicePort : Type 0 where
  pub name : String
  pub port : ℤ
  pub target_port : IntOrString
  pub protocol : String

pub record ServiceSpec : Type 0 where
  pub service_type : String
  pub cluster_ip : String
  pub publish_not_ready_addresses : Bool
  pub selector : Map String
  pub ports : List ServicePort

pub record Service : Type 0 where
  pub meta : ObjectMeta
  pub spec : ServiceSpec

pub record PodSpec : Type 0 where
  pub fs_group : ℤ
  pub service_account_name : String
  pub share_process_namespace : Bool
  pub termination_grace_period_seconds : ℤ
  pub volumes : List Volume
  pub containers : List Container
  pub init_containers : List Container
  pub hostname : String
  pub subdomain : String
  pub dns_policy : String
  pub dns_config : Option Json
  pub host_aliases : List Json
  pub topology_spread_constraints : List Json

pub record StatefulSetSpec : Type 0 where
  pub replicas : ℤ
  pub service_name : String
  pub pod_management_policy : String
  pub selector : Map String  -- Selector.MatchLabels
  pub volume_claim_templates : List PersistentVolumeClaim
  pub template_labels : Map String  -- Template.Labels
  pub template_annotations : GoMap  -- Template.Annotations
  pub template : PodSpec  -- Template.Spec

pub record StatefulSetStatus : Type 0 where
  pub ready_replicas : ℤ
  pub current_revision : String
  pub update_revision : String

pub record StatefulSet : Type 0 where
  pub meta : ObjectMeta
  pub spec : StatefulSetSpec
  pub status : StatefulSetStatus

pub record PodDisruptionBudget : Type 0 where
  pub meta : ObjectMeta
  pub selector : GoMap  -- Spec.Selector.MatchLabels
  pub min_available : Option IntOrString
  pub max_unavailable : Option IntOrString

pub record Event : Type 0 where
  pub meta : ObjectMeta
  pub involved_kind : String
  pub involved_namespace : String
  pub event_type : String
  pub reason : String
  pub message : String
  pub count : ℤ
  pub first_timestamp : ℕ
  pub last_timestamp : ℕ

-- The kinds of objects that the program reads, and an object that it writes.
pub data Kind : Type 0 where
  config_maps services stateful_sets pod_disruption_budgets events : Kind
  hbase_clusters hbase_tenants hbase_standalones : Kind

pub data Object : Type 0 where
  config_map : ConfigMap → Object
  service : Service → Object
  stateful_set : StatefulSet → Object
  pod_disruption_budget : PodDisruptionBudget → Object
  event : Event → Object
