-- ===== src/Api/Deployment.antt =====
-- operator/api/v1: the deployment, the configuration, and the three custom resources.
use hbase_k8s_operator.Prelude.{String, Bool, List, Option, ℤ}
use hbase_k8s_operator.GoMap.{GoMap}
use hbase_k8s_operator.Api.Raw.{Json, ObjectMeta}
use hbase_k8s_operator.Api.Pod.{
  HbaseClusterContainer, HbaseClusterSideCarContainer, HbaseClusterInitContainer,
  HbaseClusterVolumeClaim, HbaseClusterVolume, HBasePodDisruptionBudget,
}

pub record HbaseClusterDeployment : Type 0 where
  pub name : String
  pub size : ℤ
  pub labels : GoMap
  pub annotations : GoMap
  pub containers : List HbaseClusterContainer
  pub side_car_containers : List HbaseClusterSideCarContainer
  pub init_containers : List HbaseClusterInitContainer
  pub volume_claims : List HbaseClusterVolumeClaim
  pub volumes : List HbaseClusterVolume
  pub termination_grace_period_seconds : ℤ
  pub share_process_namespace : Bool
  pub is_pod_service_required : Bool
  pub pod_management_policy : String
  pub hostname : String
  pub subdomain : String
  pub dns_policy : String
  pub dns_config : Option Json
  pub host_aliases : List Json
  pub topology_spread_constraint : List Json
  pub pod_disruption_budget : Option HBasePodDisruptionBudget
  pub service_account_name : String

pub record HbaseClusterConfiguration : Type 0 where
  pub hbase_config_name : String
  pub hbase_config_mount_path : String
  pub hbase_config : GoMap
  pub hadoop_config_name : String
  pub hadoop_config_mount_path : String
  pub hadoop_config : GoMap
  pub hbase_tenant_config : List GoMap
  pub hadoop_tenant_config : List GoMap

pub record HbaseClusterDeployments : Type 0 where
  pub zookeeper : HbaseClusterDeployment
  pub journalnode : HbaseClusterDeployment
  pub namenode : HbaseClusterDeployment
  pub datanode : HbaseClusterDeployment
  pub hmaster : HbaseClusterDeployment

pub record HbaseClusterSpec : Type 0 where
  pub deployments : HbaseClusterDeployments
  pub configuration : HbaseClusterConfiguration
  pub fs_group : ℤ
  pub is_bootstrap : Bool
  pub base_image : String
  pub tenant_namespaces : List String
  pub service_labels : GoMap
  pub service_selector_labels : GoMap

pub record HbaseClusterStatus : Type 0 where
  pub nodes : List String
  pub conditions : List Json

pub record HbaseCluster : Type 0 where
  pub meta : ObjectMeta
  pub spec : HbaseClusterSpec
  pub status : HbaseClusterStatus

pub record HbaseTenantSpec : Type 0 where
  pub datanode : HbaseClusterDeployment
  pub configuration : HbaseClusterConfiguration
  pub fs_group : ℤ
  pub base_image : String
  pub service_labels : GoMap
  pub service_selector_labels : GoMap

pub record HbaseTenantStatus : Type 0 where
  pub nodes : List String
  pub conditions : List Json

pub record HbaseTenant : Type 0 where
  pub meta : ObjectMeta
  pub spec : HbaseTenantSpec
  pub status : HbaseTenantStatus

pub record HbaseStandaloneSpec : Type 0 where
  pub standalone : HbaseClusterDeployment
  pub configuration : HbaseClusterConfiguration
  pub fs_group : ℤ
  pub base_image : String
  pub service_labels : GoMap
  pub service_selector_labels : GoMap

pub record HbaseStandaloneStatus : Type 0 where
  pub nodes : List String
  pub conditions : List Json

pub record HbaseStandalone : Type 0 where
  pub meta : ObjectMeta
  pub spec : HbaseStandaloneSpec
  pub status : HbaseStandaloneStatus
