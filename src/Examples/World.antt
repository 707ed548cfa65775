-- ===== src/Examples/World.antt =====
-- A concrete world for the tests: servers that have no object, or a given one, and accept every write;
-- a clock that counts the calls; and plain stand-ins for the functions of the libraries.
use hbase_k8s_operator.Prelude.{
  String, ◌⧺◌, ℕ, pos, none, some, [], ◌∷◌, true, false, if◌then◌else◌, ◌==◌, length, eqb,
}
use hbase_k8s_operator.GoMap.{Map, entries}
use hbase_k8s_operator.Api.{
  new_meta, NamespacedName, HbaseCluster, HbaseTenant, HbaseStandalone, HbaseClusterConfiguration,
  HbaseClusterDeployment,
}
use hbase_k8s_operator.Kube.{ConfigMap, Service, PodSpec, StatefulSet, PodDisruptionBudget}
use hbase_k8s_operator.Env.{Env, Error, ok, err, Endpoint}

abbrev pub not_found : Error
not_found = record { message = "not found"; is_not_found = true }

abbrev pub refused : Error
refused = record { message = "refused"; is_not_found = false }

abbrev pub empty_server : {A : Type 0} → Endpoint A
empty_server = record { get = λ h key. err not_found; create = λ h a. ok a; update = λ h a. ok a }

abbrev pub server_with : {A : Type 0} → A → Endpoint A
server_with a = record { get = λ h key. ok a; create = λ h b. ok b; update = λ h b. ok b }

abbrev pub configuration : HbaseClusterConfiguration
configuration = record {
  hbase_config_name = "hbase-config";
  hbase_config_mount_path = "/etc/hbase";
  hbase_config = some (("hbase-site.xml", "<a/>") ∷ []);
  hadoop_config_name = "hadoop-config";
  hadoop_config_mount_path = "/etc/hadoop";
  hadoop_config = some (("core-site.xml", "<b/>") ∷ []);
  hbase_tenant_config = [];
  hadoop_tenant_config = [];
}

abbrev pub deployment : String → HbaseClusterDeployment
deployment name = record {
  name = name;
  size = pos 1;
  labels = some (("team", "storage") ∷ []);
  annotations = none;
  containers = [];
  side_car_containers = [];
  init_containers = [];
  volume_claims = [];
  volumes = [];
  termination_grace_period_seconds = pos 10;
  share_process_namespace = false;
  is_pod_service_required = false;
  pod_management_policy = "Parallel";
  hostname = "";
  subdomain = "";
  dns_policy = "";
  dns_config = none;
  host_aliases = [];
  topology_spread_constraint = [];
  pod_disruption_budget = none;
  service_account_name = "";
}

abbrev pub cluster : HbaseCluster
cluster = record {
  meta = new_meta "c" "ns" none;
  spec = record {
    deployments = record {
      zookeeper = deployment "zk";
      journalnode = deployment "jn";
      namenode = deployment "nn";
      datanode = deployment "dn";
      hmaster = deployment "hm";
    };
    configuration = configuration;
    fs_group = pos 1000;
    is_bootstrap = false;
    base_image = "hbase";
    tenant_namespaces = "tenant" ∷ [];
    service_labels = none;
    service_selector_labels = none;
  };
  status = record { nodes = []; conditions = [] };
}

abbrev pub tenant : HbaseTenant
tenant = record {
  meta = new_meta "t" "tenant" none;
  spec = record {
    datanode = deployment "dn";
    configuration = configuration;
    fs_group = pos 1000;
    base_image = "hbase";
    service_labels = none;
    service_selector_labels = none;
  };
  status = record { nodes = []; conditions = [] };
}

abbrev pub standalone : HbaseStandalone
standalone = record {
  meta = new_meta "s" "ns" none;
  spec = record {
    standalone = deployment "s";
    configuration = configuration;
    fs_group = pos 1000;
    base_image = "hbase";
    service_labels = none;
    service_selector_labels = none;
  };
  status = record { nodes = []; conditions = [] };
}

-- The contents of a map, in its order.
abbrev pub spell : Map String → String
spell [] = ""
spell ((k, v) ∷ m) = k ⧺ ("=" ⧺ (v ⧺ (";" ⧺ spell m)))

abbrev pub itoa : ℕ → String
itoa n = if eqb n 0 then "0" else if eqb n 1 then "1" else "2"

-- A server that has nothing but the three custom resources.
abbrev pub world : Env
world = record {
  config_maps = empty_server;
  services = empty_server;
  stateful_sets = empty_server;
  pod_disruption_budgets = empty_server;
  events = empty_server;
  get_hbase_cluster = λ h key. ok cluster;
  get_hbase_tenant = λ h key. ok tenant;
  get_hbase_standalone = λ h key. ok standalone;
  set_controller_reference = λ kind owner object. object;
  marshal_data = λ m. spell (entries m);
  marshal_service_spec = λ spec. spec.cluster_ip ⧺ spell spec.selector;
  marshal_stateful_set = λ ss.
      ss.meta.namespace
      ⧺ (ss.meta.name
          ⧺ (spell ss.spec.template_labels ⧺ spell (entries ss.spec.template_annotations)));
  marshal_pod_disruption_budget = λ pdb. pdb.meta.namespace ⧺ spell (entries pdb.selector);
  sprint_bytes = λ bytes. bytes;
  sha256_hex = λ s. "#" ⧺ s;
  parse_quantity = λ s. if s == "bad" then none else some s;
  unmarshal_xml = λ s. if s == "<" then false else true;
  itoa = itoa;
  now = λ h. length h;
  time_text = itoa;
}

abbrev pub key : NamespacedName
key = record { name = "c"; namespace = "ns" }

abbrev pub headless : Service
headless = record {
  meta = new_meta "headless" "ns" none;
  spec = record {
    service_type = "ClusterIP";
    cluster_ip = "None";
    publish_not_ready_addresses = true;
    selector = ("app", "hbasecluster") ∷ [];
    ports = [];
  };
}

abbrev pub site : ConfigMap
site = record {
  meta = new_meta "site" "ns" none;
  contents = some (("hbase-site.xml", "<a/>") ∷ []);
}

abbrev pub pod_template : PodSpec
pod_template = record {
  fs_group = pos 1000;
  service_account_name = "";
  share_process_namespace = false;
  termination_grace_period_seconds = pos 10;
  volumes = [];
  containers = [];
  init_containers = [];
  hostname = "";
  subdomain = "";
  dns_policy = "";
  dns_config = none;
  host_aliases = [];
  topology_spread_constraints = [];
}

-- A StatefulSet of one pod, which is ready.
abbrev pub workload : StatefulSet
workload = record {
  meta = new_meta "w" "ns" none;
  spec = record {
    replicas = pos 1;
    service_name = "c";
    pod_management_policy = "Parallel";
    selector = [];
    volume_claim_templates = [];
    template_labels = [];
    template_annotations = none;
    template = pod_template;
  };
  status = record { ready_replicas = pos 1; current_revision = "r1"; update_revision = "r1" };
}

abbrev pub budget : PodDisruptionBudget
budget = record {
  meta = new_meta "w-pdb" "ns" none;
  selector = some (("team", "storage") ∷ []);
  min_available = none;
  max_unavailable = none;
}

-- The Hadoop configuration replaces a valid file by one that is no XML.
abbrev pub bad_configuration : HbaseClusterConfiguration
bad_configuration = record configuration { hadoop_config = some (("hbase-site.xml", "<") ∷ []) }
