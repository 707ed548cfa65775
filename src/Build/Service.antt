-- ===== src/Build/Service.antt =====
-- operator/controllers/utils.go: buildService.
pub mod Ports
use hbase_k8s_operator.Prelude.{String, Bool, true, some, List, [], ◌∷◌, ◌++◌, if◌then◌else◌}
use hbase_k8s_operator.GoMap.{GoMap, entries}
use hbase_k8s_operator.Api.{
  HbaseClusterContainerPort, HbaseClusterContainer, HbaseClusterDeployment, int, new_meta,
}
use hbase_k8s_operator.Kube.{Service, ServicePort}
use hbase_k8s_operator.Build.Labels.{get_shared_labels_map, labels_for_pod_service}

abbrev pub service_port : HbaseClusterContainerPort → ServicePort
service_port p = record { name = p.name; port = p.port; target_port = int p.port; protocol = "TCP" }

-- The three nested loops that append to `ports`, from the innermost.
unfoldable pub ports_of_container : List HbaseClusterContainerPort → List ServicePort
ports_of_container [] = []
ports_of_container (p ∷ ps) = service_port p ∷ ports_of_container ps

unfoldable pub ports_of_deployment : List HbaseClusterContainer → List ServicePort
ports_of_deployment [] = []
ports_of_deployment (c ∷ cs) = ports_of_container c.ports ++ ports_of_deployment cs

unfoldable pub service_ports : List HbaseClusterDeployment → List ServicePort
service_ports [] = []
service_ports (d ∷ ds) = ports_of_deployment d.containers ++ service_ports ds

-- A headless service of the cluster, or the service of one pod, whose address the server assigns.
unfoldable pub build_service :
    String → String → String → GoMap → GoMap → List HbaseClusterDeployment → Bool → Service
build_service svc_name cr_name namespace labels selector_labels deployments is_cluster_svc =
    record {
      meta = new_meta svc_name namespace (some (entries labels));
      spec =
          if is_cluster_svc
          then record {
            service_type = "ClusterIP";
            cluster_ip = "None";
            publish_not_ready_addresses = true;
            selector = get_shared_labels_map svc_name selector_labels;
            ports = service_ports deployments;
          }
          else record {
            service_type = "ClusterIP";
            cluster_ip = "";
            publish_not_ready_addresses = true;
            selector = labels_for_pod_service cr_name svc_name selector_labels;
            ports = service_ports deployments;
          };
    }
