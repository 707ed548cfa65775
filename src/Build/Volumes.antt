-- ===== src/Build/Volumes.antt =====
-- operator/controllers/utils.go: buildVolumes, buildVolumeClaims and buildVolumeMounts.
use hbase_k8s_operator.Prelude.{
  String, ◌⧺◌, true, false, Option, none, some, List, [], ◌∷◌, ◌==◌, if◌then◌else◌,
}
use hbase_k8s_operator.Api.{
  HbaseClusterConfiguration, HbaseClusterVolume, HbaseClusterVolumeClaim, HbaseClusterVolumeMount,
}
use hbase_k8s_operator.Kube.{
  Volume, unset, config_map, empty_dir, secret, host_path, VolumeMount, Quantity,
  PersistentVolumeClaim,
}
use hbase_k8s_operator.Env.{Env}
use hbase_k8s_operator.Build.Outcome.{
  Outcome, built, invalid, ◌>>=◌, collect, is_nonempty, must_parse,
}

-- The volume of a config map.
abbrev config_volume : String → String → Volume
config_volume name config_name = record { name = name; source = config_map config_name }

-- The size limit of an EmptyDir volume, where the resource gives one.
unfoldable pub build_size_limit : Env → HbaseClusterVolume → Outcome (Option Quantity)
build_size_limit env v =
    if is_nonempty v.size_limit
    then elim (env.parse_quantity v.size_limit) [
      | none ↦ invalid ("Volume: " ⧺ (v.name ⧺ (". Invalid sizeLimit: " ⧺ v.size_limit)))
      | some qty ↦ built (some qty)
    ]
    else built none

-- The body of the loop of buildVolumes; an unknown source leaves a volume with no name.
unfoldable pub build_volume : Env → HbaseClusterVolume → Outcome Volume
unfolding build_size_limit
build_volume env v =
    if v.volume_source == "ConfigMap"
    then built (config_volume v.name v.config_name)
    else if v.volume_source == "EmptyDir"
    then (do
      limit ← build_size_limit env v
      built (record {
        name = v.name;
        source = empty_dir (record { medium = v.medium; size_limit = limit });
      }))
    else if v.volume_source == "Secret"
    then built (record { name = v.name; source = secret v.secret_name })
    else if v.volume_source == "HostPath"
    then built (record { name = v.name; source = host_path v.path })
    else built (record { name = ""; source = unset })

unfoldable pub build_volumes :
    Env → HbaseClusterConfiguration → List HbaseClusterVolume → Outcome (List Volume)
build_volumes env c vs = do
  volumes ← collect (build_volume env) vs
  built (
      config_volume c.hbase_config_name c.hbase_config_name
      ∷ config_volume c.hadoop_config_name c.hadoop_config_name
      ∷ volumes)

abbrev optional_text : String → Option String
optional_text s = if is_nonempty s then some s else none

unfoldable pub build_volume_claim :
    Env → String → HbaseClusterVolumeClaim → Outcome PersistentVolumeClaim
unfolding must_parse
build_volume_claim env namespace v = do
  size ← must_parse env v.storage_size
  built (record {
    meta = record {
      name = v.name;
      namespace = namespace;
      labels = v.labels;
      annotations = v.annotations;
      resource_version = "";
      owner_references = [];
    };
    access_modes = "ReadWriteOnce" ∷ [];
    requests = ("storage", size) ∷ [];
    storage_class_name = optional_text v.storage_class_name;
    volume_attributes_class_name = optional_text v.volume_attributes_class_name;
  })

unfoldable pub build_volume_claims :
    Env → String → List HbaseClusterVolumeClaim → Outcome (List PersistentVolumeClaim)
build_volume_claims env namespace vs = collect (build_volume_claim env namespace) vs

unfoldable pub build_volume_mounts :
    List HbaseClusterVolumeMount → HbaseClusterConfiguration → List VolumeMount
build_volume_mounts [] c =
    record { name = c.hbase_config_name; mount_path = c.hbase_config_mount_path; read_only = true }
    ∷ record {
      name = c.hadoop_config_name;
      mount_path = c.hadoop_config_mount_path;
      read_only = true;
    }
    ∷ []
build_volume_mounts (v ∷ vs) c =
    record {
      name = v.name;
      mount_path = v.mount_path;
      read_only = if v.read_only then v.read_only else false;
    }
    ∷ build_volume_mounts vs c
