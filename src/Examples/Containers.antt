-- ===== src/Examples/Containers.antt =====
-- A deployment with containers, its service, its init containers and its StatefulSet.
use hbase_k8s_operator.Prelude.{
  String, ◌≡◌, refl, pos, negsuc, Bool, true, false, none, List, [], ◌∷◌,
}
use hbase_k8s_operator.Api.{
  HbaseClusterContainer, HbaseClusterSideCarContainer, HbaseClusterInitContainer, HbaseClusterProbe,
  HbaseClusterSecurity, HbaseClusterDeployment, int,
}
use hbase_k8s_operator.Kube.{StatefulSet, tcp_socket}
use hbase_k8s_operator.Build.Outcome.{Outcome, built, invalid, panic, collect, must_parse}
use hbase_k8s_operator.Build.Volumes.{build_volumes, build_volume_claims}
use hbase_k8s_operator.Build.Containers.{
  build_probe, build_init_container, build_init_containers, build_container, build_containers,
  build_resources,
}
use hbase_k8s_operator.Build.Containers.Init.{wanted, build_init_containers-collect}
use mathlib.Core.List.{map}
use hbase_k8s_operator.Build.StatefulSet.{build_stateful_set}
use hbase_k8s_operator.Build.StatefulSet.Complete.{IsParsable, process, build_stateful_set-total}
use hbase_k8s_operator.Build.Service.{
  build_service, service_ports, ports_of_deployment, ports_of_container,
}
use hbase_k8s_operator.Build.Service.Ports.{targets, open_on_all, build_service-build_stateful_set}
use hbase_k8s_operator.Examples.World.{world, configuration, deployment}

abbrev security : HbaseClusterSecurity
security = record { run_as_user = pos 1; run_as_group = pos 1; add_sys_ptrace = false }

abbrev probe : HbaseClusterProbe
probe = record {
  command = [];
  port = pos 0;
  initial_delay_seconds = pos 1;
  success_threshold = pos 1;
  timeout_seconds = pos 1;
  period_seconds = pos 1;
  failure_threshold = pos 1;
}

-- A port that does not fit into an int32 is cut: 2 ^ 32 + 80 is 80, and 2 ^ 31 is negative.
cut_port : (build_probe (record probe { port = pos 4294967376 })).handler ≡ tcp_socket (pos 80)
unfolding build_probe
cut_port = refl

negative_port :
    (build_probe (record probe { port = pos 2147483648 })).handler ≡ tcp_socket (negsuc 2147483647)
unfolding build_probe
negative_port = refl

abbrev region_server : HbaseClusterContainer
region_server = record {
  name = "regionserver";
  command = [];
  args = [];
  cpu_limit = "2";
  cpu_request = "1";
  memory_limit = "2Gi";
  memory_request = "1Gi";
  ports = record { port = pos 16020; name = "rs" } ∷ record { port = pos 16030; name = "ui" } ∷ [];
  volume_mounts = [];
  security_context = security;
  liveness_probe = probe;
  readiness_probe = probe;
  startup_probe = probe;
  lifecycle = record { post_start = none; pre_stop = none };
}

abbrev init : String → Bool → HbaseClusterInitContainer
init name is_bootstrap = record {
  name = name;
  command = [];
  args = [];
  cpu_limit = "2";
  cpu_request = "1";
  memory_limit = "2Gi";
  memory_request = "1Gi";
  volume_mounts = [];
  security_context = security;
  is_bootstrap = is_bootstrap;
}

abbrev inits : List HbaseClusterInitContainer
inits = init "format" true ∷ init "wait" false ∷ []

build_init_containers-collect_example :
    build_init_containers world "hbase" configuration inits false
    ≡ collect (build_init_container world "hbase" configuration) (wanted false inits)
build_init_containers-collect_example =
    build_init_containers-collect world "hbase" configuration inits false

-- After the bootstrap, one of the two is left.
one_wanted : wanted false inits ≡ init "wait" false ∷ []
one_wanted = refl

abbrev serving : HbaseClusterDeployment
serving = record (deployment "dn") { containers = region_server ∷ [] }

abbrev sets_or_none : Outcome (List StatefulSet) → List StatefulSet
sets_or_none (built sets) = sets
sets_or_none (invalid message) = []
sets_or_none panic = []

abbrev outcome : Outcome (List StatefulSet)
outcome =
    collect
      (λ d. build_stateful_set world "t" "tenant" "hbase" false configuration "" (pos 1000) d false)
      (serving ∷ [])

outcome_built : outcome ≡ built (sets_or_none outcome)
unfolding collect build_stateful_set build_volumes build_volume_claims build_containers
    build_container build_resources must_parse build_init_containers
outcome_built = refl

build_service-build_stateful_set_example :
    targets (build_service "t" "t" "tenant" none none (serving ∷ []) true).spec.ports
    ≡ open_on_all (sets_or_none outcome)
build_service-build_stateful_set_example =
    build_service-build_stateful_set world "hbase" configuration "t" "tenant" false "" (pos 1000)
      false "t" "t" "tenant" none none true (serving ∷ []) (sets_or_none outcome) outcome_built

two_ports :
    targets (build_service "t" "t" "tenant" none none (serving ∷ []) true).spec.ports
    ≡ ("rs", int (pos 16020)) ∷ ("ui", int (pos 16030)) ∷ []
unfolding build_service service_ports ports_of_deployment ports_of_container
two_ports = refl

abbrev side_car : HbaseClusterSideCarContainer
side_car = record {
  name = "logs";
  image = "fluentd";
  command = [];
  args = "-v" ∷ [];
  cpu_limit = "1";
  cpu_request = "1";
  memory_limit = "1Gi";
  memory_request = "1Gi";
  security_context = security;
  volume_mounts = [];
}

-- A deployment with a part of each kind. Its second volume has a source that is not known.
abbrev full : HbaseClusterDeployment
full = record serving {
  side_car_containers = side_car ∷ [];
  init_containers = inits;
  volumes =
      record {
        name = "scratch";
        volume_source = "EmptyDir";
        secret_name = "";
        config_name = "";
        path = "";
        size_limit = "1Gi";
        medium = "";
      }
      ∷ record {
        name = "other";
        volume_source = "NFS";
        secret_name = "";
        config_name = "";
        path = "";
        size_limit = "";
        medium = "";
      }
      ∷ [];
  volume_claims =
      record {
        name = "data";
        labels = none;
        annotations = none;
        storage_size = "10Gi";
        storage_class_name = "";
        volume_attributes_class_name = "";
      }
      ∷ [];
}

full-IsParsable : IsParsable world full false
full-IsParsable = record {
  volumes = ((λ e k. ("1Gi", refl)), ((λ e k. ("", refl)), tt));
  claims = (("10Gi", refl), tt);
  containers = ((("2", refl), ("2Gi", refl), ("1", refl), ("1Gi", refl)), tt);
  side_cars = ((("1", refl), ("1Gi", refl), ("1", refl), ("1Gi", refl)), tt);
  init_containers = (
    (λ e. (("2", refl), ("2Gi", refl), ("1", refl), ("1Gi", refl))),
    ((λ e. (("2", refl), ("2Gi", refl), ("1", refl), ("1Gi", refl))), tt),
  );
}

build_stateful_set-total_example :
    (ss : StatefulSet) × (build_stateful_set world "t" "tenant" "hbase" false configuration ""
        (pos 1000)
        full
        false
      ≡ built ss)
    × (ss.meta.name ≡ "dn")
    × (ss.spec.replicas ≡ pos 1)
    × (map (λ v. v.name) ss.spec.template.volumes
        ≡ "hbase-config" ∷ "hadoop-config" ∷ "scratch" ∷ "" ∷ [])
    × (map (λ v. v.meta.name) ss.spec.volume_claim_templates ≡ "data" ∷ [])
    × (map process ss.spec.template.containers
        ≡ ("logs", "fluentd", [], "-v" ∷ []) ∷ ("regionserver", "hbase", [], []) ∷ [])
    × (map process ss.spec.template.init_containers ≡ ("wait", "hbase", [], []) ∷ [])
build_stateful_set-total_example =
    build_stateful_set-total world "t" "tenant" "hbase" false configuration "" (pos 1000) full false
      full-IsParsable
