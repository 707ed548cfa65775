-- ===== src/Api/Pod.antt =====
-- operator/api/v1/hbasecluster_types.go, first half: ports, mounts, probes, containers, volumes.
use hbase_k8s_operator.Prelude.{String, Bool, List, Option, ℤ}
use hbase_k8s_operator.GoMap.{GoMap}
use hbase_k8s_operator.Api.Raw.{IntOrString}

pub record HbaseClusterContainerPort : Type 0 where
  pub port : ℤ
  pub name : String

pub record HbaseClusterVolumeMount : Type 0 where
  pub name : String
  pub mount_path : String
  pub read_only : Bool

pub record HbaseClusterProbe : Type 0 where
  pub command : List String
  pub port : ℤ
  pub initial_delay_seconds : ℤ
  pub success_threshold : ℤ
  pub timeout_seconds : ℤ
  pub period_seconds : ℤ
  pub failure_threshold : ℤ

-- The program tells a nil slice from an empty one here.
pub record HbaseClusterLifecycle : Type 0 where
  pub post_start : Option (List String)
  pub pre_stop : Option (List String)

pub record HbaseClusterSecurity : Type 0 where
  pub run_as_user : ℤ
  pub run_as_group : ℤ
  pub add_sys_ptrace : Bool

pub record HbaseClusterSideCarContainer : Type 0 where
  pub name : String
  pub image : String
  pub command : List String
  pub args : List String
  pub cpu_limit : String
  pub cpu_request : String
  pub memory_limit : String
  pub memory_request : String
  pub security_context : HbaseClusterSecurity
  pub volume_mounts : List HbaseClusterVolumeMount

pub record HbaseClusterContainer : Type 0 where
  pub name : String
  pub command : List String
  pub args : List String
  pub cpu_limit : String
  pub cpu_request : String
  pub memory_limit : String
  pub memory_request : String
  pub ports : List HbaseClusterContainerPort
  pub volume_mounts : List HbaseClusterVolumeMount
  pub security_context : HbaseClusterSecurity
  pub liveness_probe : HbaseClusterProbe
  pub readiness_probe : HbaseClusterProbe
  pub startup_probe : HbaseClusterProbe
  pub lifecycle : HbaseClusterLifecycle

pub record HbaseClusterInitContainer : Type 0 where
  pub name : String
  pub command : List String
  pub args : List String
  pub cpu_limit : String
  pub cpu_request : String
  pub memory_limit : String
  pub memory_request : String
  pub volume_mounts : List HbaseClusterVolumeMount
  pub security_context : HbaseClusterSecurity
  pub is_bootstrap : Bool

pub record HbaseClusterVolumeClaim : Type 0 where
  pub name : String
  pub labels : GoMap
  pub annotations : GoMap
  pub storage_size : String
  pub storage_class_name : String
  pub volume_attributes_class_name : String

pub record HbaseClusterVolume : Type 0 where
  pub name : String
  pub volume_source : String
  pub secret_name : String
  pub config_name : String
  pub path : String
  pub size_limit : String
  pub medium : String

pub record HBasePodDisruptionBudget : Type 0 where
  pub min_available : Option IntOrString
  pub max_unavailable : Option IntOrString
