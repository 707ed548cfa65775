-- ===== src/Build/Service/Ports.antt =====
-- The ports of a service and those of the containers behind it.
use hbase_k8s_operator.Prelude.{
  String, ℤ, ◌≡◌, refl, sym, ◌∙◌, ap, Bool, true, false, List, [], ◌∷◌, ◌++◌, arith,
}
use mathlib.Core.List.{append_assoc}
use hbase_k8s_operator.GoMap.{GoMap}
use hbase_k8s_operator.Api.{
  IntOrString, int, HbaseClusterConfiguration, HbaseClusterContainerPort, HbaseClusterContainer,
  HbaseClusterSideCarContainer, HbaseClusterDeployment,
}
use hbase_k8s_operator.Kube.{ServicePort, ContainerPort, Container, StatefulSet}
use hbase_k8s_operator.Env.{Env}
use hbase_k8s_operator.Build.Outcome.{Outcome, built, collect}
use hbase_k8s_operator.Build.Containers.{
  build_ports, build_container, build_side_car_container, build_containers,
}
use hbase_k8s_operator.Build.StatefulSet.{build_stateful_set}
use hbase_k8s_operator.Build.Service.{
  ports_of_container, ports_of_deployment, service_ports, build_service,
}

-- Where a service sends what it gets, and what is open on a container.
abbrev pub targets : List ServicePort → List (String × IntOrString)
targets [] = []
targets (p ∷ ps) = (p.name, p.target_port) ∷ targets ps

abbrev open_ports : List ContainerPort → List (String × IntOrString)
open_ports [] = []
open_ports (p ∷ ps) = (p.name, int p.container_port) ∷ open_ports ps

abbrev pub open_on : List Container → List (String × IntOrString)
open_on [] = []
open_on (c ∷ cs) = open_ports c.ports ++ open_on cs

abbrev pub open_on_all : List StatefulSet → List (String × IntOrString)
open_on_all [] = []
open_on_all (ss ∷ sets) = open_on ss.spec.template.containers ++ open_on_all sets

targets-append : (ps qs : List ServicePort) → targets (ps ++ qs) ≡ targets ps ++ targets qs
targets-append [] qs = refl
targets-append (p ∷ ps) qs = ap (λ r. (p.name, p.target_port) ∷ r) (targets-append ps qs)

open_on-append : (cs ds : List Container) → open_on (cs ++ ds) ≡ open_on cs ++ open_on ds
open_on-append [] ds = refl
open_on-append (c ∷ cs) ds =
    ap (λ r. open_ports c.ports ++ r) (open_on-append cs ds)
    ∙ sym (append_assoc (open_ports c.ports) (open_on cs) (open_on ds))

targets-open :
    (ps : List HbaseClusterContainerPort)
    → targets (ports_of_container ps) ≡ open_ports (build_ports ps)
unfolding ports_of_container build_ports
targets-open [] = refl
targets-open (p ∷ ps) = ap (λ r. (p.name, int p.port) ∷ r) (targets-open ps)

-- A loop whose first turn and whose others have all built something.
collect-cons :
    {A B : Type 0} (f : A → Outcome B) (a : A) (as' : List A) (ys : List B)
    → collect f (a ∷ as') ≡ built ys
    → (b : B) × (bs : List B) × (f a ≡ built b) × (collect f as' ≡ built bs) × (ys ≡ b ∷ bs)
unfolding collect
collect-cons f a as' ys e = ground arith

module _ (env : Env) (base_image : String) (config : HbaseClusterConfiguration) where
  side_car_closed :
      (c : HbaseClusterSideCarContainer) (x : Container)
      → build_side_car_container env config c ≡ built x
      → x.ports ≡ []
  unfolding build_side_car_container
  side_car_closed c x e = ground arith

  side_cars_closed :
      (scc : List HbaseClusterSideCarContainer) (cs : List Container)
      → collect (build_side_car_container env config) scc ≡ built cs
      → open_on cs ≡ []
  unfolding collect
  side_cars_closed [] cs e = ground arith
  side_cars_closed (c ∷ scc) cs e =
      let (x, xs, p, q, r) = collect-cons (build_side_car_container env config) c scc cs e in
      rw (r, side_car_closed c x p) (side_cars_closed scc xs q)

  container_open :
      (c : HbaseClusterContainer) (x : Container)
      → build_container env base_image config c ≡ built x
      → x.ports ≡ build_ports c.ports
  unfolding build_container
  container_open c x e = ground arith

  containers_open :
      (cs : List HbaseClusterContainer) (out : List Container)
      → collect (build_container env base_image config) cs ≡ built out
      → targets (ports_of_deployment cs) ≡ open_on out
  unfolding collect ports_of_deployment
  containers_open [] out e = ground arith
  containers_open (c ∷ cs) out e =
      let (x, xs, p, q, r) = collect-cons (build_container env base_image config) c cs out e in
      rw (r, container_open c x p, targets-append, targets-open c.ports, containers_open cs xs q)
        refl

  containers_of :
      (name namespace : String) (is_bootstrap : Bool) (version : String) (fsgroup : ℤ)
      (d : HbaseClusterDeployment) (is_multi : Bool) (ss : StatefulSet)
      → build_stateful_set env name namespace base_image is_bootstrap config version fsgroup d
          is_multi
        ≡ built ss
      → (scs : List Container) × (cs : List Container) × (collect
            (build_side_car_container env config)
            d.side_car_containers
          ≡ built scs)
        × (collect (build_container env base_image config) d.containers ≡ built cs)
        × (ss.spec.template.containers ≡ scs ++ cs)
  unfolding build_stateful_set build_containers
  containers_of name namespace is_bootstrap version fsgroup d is_multi ss e = ground arith

  module _ (name namespace : String) (is_bootstrap : Bool) (version : String) (fsgroup : ℤ)
      (is_multi : Bool) where
    abbrev set_of : HbaseClusterDeployment → Outcome StatefulSet
    set_of d =
        build_stateful_set env name namespace base_image is_bootstrap config version fsgroup d
          is_multi

    service_ports_open :
        (ds : List HbaseClusterDeployment) (sets : List StatefulSet)
        → collect set_of ds ≡ built sets
        → targets (service_ports ds) ≡ open_on_all sets
    unfolding collect service_ports
    service_ports_open [] sets e = ground arith
    service_ports_open (d ∷ ds) sets e =
        let (x, xs, p, q, r) = collect-cons set_of d ds sets e in
        let (scs, cs, f, g, h) =
          containers_of name namespace is_bootstrap version fsgroup d is_multi x p in
        rw
          (
            r,
            h,
            targets-append,
            open_on-append,
            side_cars_closed d.side_car_containers scs f,
            containers_open d.containers cs g,
            service_ports_open ds xs q,
          )
          refl

    -- The service of a list of deployments sends what it gets to exactly the ports that the
    -- containers of their StatefulSets have, by the same names and in the same order, where all the
    -- StatefulSets are built. The side cars have no ports.
    pub build_service-build_stateful_set :
        (svc_name cr_name svc_namespace : String) (labels selector_labels : GoMap)
        (is_cluster_svc : Bool) (ds : List HbaseClusterDeployment) (sets : List StatefulSet)
        → collect
            (λ d.
              build_stateful_set env name namespace base_image is_bootstrap config version fsgroup d
                is_multi)
            ds
          ≡ built sets
        → targets
            (build_service svc_name cr_name svc_namespace labels selector_labels ds
              is_cluster_svc).spec.ports
          ≡ open_on_all sets
    unfolding build_service
    build_service-build_stateful_set svc_name cr_name svc_namespace labels selector_labels true ds
          sets e =
        service_ports_open ds sets e
    build_service-build_stateful_set svc_name cr_name svc_namespace labels selector_labels false ds
          sets e =
        service_ports_open ds sets e
