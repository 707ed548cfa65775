-- ===== src/Kube/Pod.antt =====
-- k8s.io/api/core/v1: a pod's containers and volumes.
use hbase_k8s_operator.Prelude.{String, Bool, List, Option, ℤ}
use hbase_k8s_operator.GoMap.{Map}
use hbase_k8s_operator.Api.{ObjectMeta}

-- A resource.Quantity, carried as the canonical text that it prints.
abbrev pub Quantity : Type 0
Quantity = String

pub record ContainerPort : Type 0 where
  pub container_port : ℤ
  pub name : String

pub record VolumeMount : Type 0 where
  pub name : String
  pub mount_path : String
  pub read_only : Bool

pub data ProbeHandler : Type 0 where
  unset : ProbeHandler
  tcp_socket : ℤ → ProbeHandler
  exec : List String → ProbeHandler

pub record Probe : Type 0 where
  pub handler : ProbeHandler
  pub initial_delay_seconds : ℤ
  pub timeout_seconds : ℤ
  pub period_seconds : ℤ
  pub success_threshold : ℤ
  pub failure_threshold : ℤ

-- The command of an exec hook, where there is one.
pub record Lifecycle : Type 0 where
  pub post_start : Option (List String)
  pub pre_stop : Option (List String)

pub record SecurityContext : Type 0 where
  pub run_as_user : Option ℤ
  pub run_as_group : Option ℤ
  pub capabilities : Option (List String)

pub record ResourceRequirements : Type 0 where
  pub limits : Map Quantity
  pub requests : Map Quantity

pub record Container : Type 0 where
  pub image : String
  pub name : String
  pub command : List String
  pub args : List String
  pub resources : ResourceRequirements
  pub volume_mounts : List VolumeMount
  pub security_context : SecurityContext
  pub ports : List ContainerPort
  pub lifecycle : Option Lifecycle
  pub liveness_probe : Option Probe
  pub readiness_probe : Option Probe
  pub startup_probe : Option Probe

pub record EmptyDir : Type 0 where
  pub medium : String
  pub size_limit : Option Quantity

pub data VolumeSource : Type 0 where
  unset : VolumeSource
  config_map : String → VolumeSource
  empty_dir : EmptyDir → VolumeSource
  secret : String → VolumeSource
  host_path : String → VolumeSource

pub record Volume : Type 0 where
  pub name : String
  pub source : VolumeSource

pub record PersistentVolumeClaim : Type 0 where
  pub meta : ObjectMeta
  pub access_modes : List String
  pub requests : Map Quantity
  pub storage_class_name : Option String
  pub volume_attributes_class_name : Option String
