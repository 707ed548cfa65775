-- ===== src/Build/Containers.antt =====
-- operator/controllers/utils.go: security contexts, probes, lifecycles, ports and containers.
pub mod Init
use hbase_k8s_operator.Prelude.{
  String, Bool, true, false, not, ◌||◌, Option, none, some, List, [], ◌∷◌, ◌++◌, is_positive,
  to_int32, if◌then◌else◌,
}
use hbase_k8s_operator.Api.{
  HbaseClusterConfiguration, HbaseClusterSecurity, HbaseClusterProbe, HbaseClusterLifecycle,
  HbaseClusterContainerPort, HbaseClusterContainer, HbaseClusterSideCarContainer,
  HbaseClusterInitContainer,
}
use hbase_k8s_operator.Kube.{
  SecurityContext, unset, tcp_socket, exec, Probe, Lifecycle, ContainerPort, Container,
  ResourceRequirements,
}
use hbase_k8s_operator.Env.{Env}
use hbase_k8s_operator.Build.Outcome.{Outcome, built, ◌>>=◌, collect, must_parse}
use hbase_k8s_operator.Build.Volumes.{build_volume_mounts}

unfoldable pub build_security_context : HbaseClusterSecurity → SecurityContext
build_security_context sc =
    if is_positive sc.run_as_user
    then record {
      run_as_user = some sc.run_as_user;
      run_as_group = some sc.run_as_group;
      capabilities = if sc.add_sys_ptrace then some ("SYS_PTRACE" ∷ []) else none;
    }
    else record { run_as_user = none; run_as_group = none; capabilities = none }

-- len(xs) > 0
abbrev pub has_elements : List String → Bool
has_elements [] = false
has_elements (x ∷ xs) = true

-- A command, written last, replaces the port, which intstr.FromInt cuts to an int32.
unfoldable pub build_probe : HbaseClusterProbe → Probe
build_probe p = record {
  handler =
      if has_elements p.command
      then exec p.command
      else if is_positive p.port
      then tcp_socket (to_int32 p.port)
      else unset;
  initial_delay_seconds = p.initial_delay_seconds;
  timeout_seconds = p.timeout_seconds;
  period_seconds = p.period_seconds;
  success_threshold = p.success_threshold;
  failure_threshold = p.failure_threshold;
}

unfoldable pub build_lifecycle : HbaseClusterLifecycle → Lifecycle
build_lifecycle p = record { post_start = p.post_start; pre_stop = p.pre_stop }

unfoldable pub build_ports : List HbaseClusterContainerPort → List ContainerPort
build_ports [] = []
build_ports (p ∷ ps) = record { container_port = p.port; name = p.name } ∷ build_ports ps

-- The literal ResourceRequirements{…} that the three kinds of containers share.
unfoldable pub build_resources :
    Env → String → String → String → String → Outcome ResourceRequirements
unfolding must_parse
build_resources env cpu_limit memory_limit cpu_request memory_request = do
  cpu_most ← must_parse env cpu_limit
  memory_most ← must_parse env memory_limit
  cpu ← must_parse env cpu_request
  memory ← must_parse env memory_request
  built (record {
    limits = ("cpu", cpu_most) ∷ ("memory", memory_most) ∷ [];
    requests = ("cpu", cpu) ∷ ("memory", memory) ∷ [];
  })

-- The body of the loop of buildInitContainers.
unfoldable pub build_init_container :
    Env → String → HbaseClusterConfiguration → HbaseClusterInitContainer → Outcome Container
build_init_container env base_image config c = do
  resources ← build_resources env c.cpu_limit c.memory_limit c.cpu_request c.memory_request
  built (record {
    image = base_image;
    name = c.name;
    command = c.command;
    args = c.args;
    resources = resources;
    volume_mounts = build_volume_mounts c.volume_mounts config;
    security_context = build_security_context c.security_context;
    ports = [];
    lifecycle = none;
    liveness_probe = none;
    readiness_probe = none;
    startup_probe = none;
  })

unfoldable pub build_init_containers :
    Env
    → String
    → HbaseClusterConfiguration
    → List HbaseClusterInitContainer
    → Bool
    → Outcome (List Container)
build_init_containers env base_image config [] is_bootstrap = built []
build_init_containers env base_image config (c ∷ cs) is_bootstrap =
    let rest = build_init_containers env base_image config cs is_bootstrap in
    if not c.is_bootstrap || is_bootstrap
    then (do
      container ← build_init_container env base_image config c
      containers ← rest
      built (container ∷ containers))
    else rest

-- The body of the loop of buildContainers over the side cars.
unfoldable pub build_side_car_container :
    Env → HbaseClusterConfiguration → HbaseClusterSideCarContainer → Outcome Container
build_side_car_container env config c = do
  resources ← build_resources env c.cpu_limit c.memory_limit c.cpu_request c.memory_request
  built (record {
    image = c.image;
    name = c.name;
    command = c.command;
    args = c.args;
    resources = resources;
    volume_mounts = build_volume_mounts c.volume_mounts config;
    security_context = build_security_context c.security_context;
    ports = [];
    lifecycle = none;
    liveness_probe = none;
    readiness_probe = none;
    startup_probe = none;
  })

-- A probe that is left out where the resource sets neither a port nor a command.
unfoldable pub build_optional_probe : HbaseClusterProbe → Option Probe
unfolding build_probe
build_optional_probe p =
    if is_positive p.port || has_elements p.command then some (build_probe p) else none

-- The body of the loop of buildContainers over the containers.
unfoldable pub build_container :
    Env → String → HbaseClusterConfiguration → HbaseClusterContainer → Outcome Container
build_container env base_image config c = do
  resources ← build_resources env c.cpu_limit c.memory_limit c.cpu_request c.memory_request
  built (record {
    image = base_image;
    name = c.name;
    command = c.command;
    args = c.args;
    resources = resources;
    volume_mounts = build_volume_mounts c.volume_mounts config;
    security_context = build_security_context c.security_context;
    ports = build_ports c.ports;
    lifecycle = some (build_lifecycle c.lifecycle);
    liveness_probe = some (build_probe c.liveness_probe);
    readiness_probe = build_optional_probe c.readiness_probe;
    startup_probe = build_optional_probe c.startup_probe;
  })

unfoldable pub build_containers :
    Env
    → String
    → HbaseClusterConfiguration
    → List HbaseClusterContainer
    → List HbaseClusterSideCarContainer
    → Outcome (List Container)
build_containers env base_image config cs scc = do
  side_cars ← collect (build_side_car_container env config) scc
  containers ← collect (build_container env base_image config) cs
  built (side_cars ++ containers)
