-- ===== src/Controllers/Blocked.antt =====
-- What an invalid configuration stops: the Reconcile methods then write no config map, no StatefulSet
-- and no budget, and do not report success.
use hbase_k8s_operator.Prelude.{
  String, ◌≡◌, refl, Bool, true, false, Bool-cases, inl, inr, some, if◌then◌else◌,
}
use hbase_k8s_operator.Api.{
  NamespacedName, HbaseClusterConfiguration, HbaseCluster, HbaseTenant, HbaseStandalone,
}
use hbase_k8s_operator.Kube.{
  Kind, Service, services, events, hbase_clusters, hbase_tenants, hbase_standalones,
}
use hbase_k8s_operator.Env.{Env, Error, ok, got}
use hbase_k8s_operator.Action.{
  State, Action, Flow, done, panicked, Reply, ◌>>=◌, continue, pure, failed, is_finished,
  ◌or_return◌, after_get,
}
use hbase_k8s_operator.Action.Steps.{Steps, here, called, Steps-trans}
use hbase_k8s_operator.Reconcile.Validate.{validate_configuration}
use hbase_k8s_operator.Reconcile.Services.{reconcile_service}
use hbase_k8s_operator.Reconcile.Footprint.{publish-Steps, reconcile_service-Steps}
use hbase_k8s_operator.Controllers.Contract.{Meets}
use hbase_k8s_operator.Controllers.Steps.{validate_or_return, is_config_enabled}
use hbase_k8s_operator.Controllers.Cluster.{apply_cluster, reconcile_cluster}
use hbase_k8s_operator.Controllers.Tenant.{
  apply_tenant, apply_tenant_configs, reconcile_tenant, tenant_label,
}
use hbase_k8s_operator.Controllers.Standalone.{apply_standalone, reconcile_standalone}

-- Services, events, and the custom resource that is read.
abbrev pub services_and_events : Kind → Bool
services_and_events services = true
services_and_events events = true
services_and_events hbase_clusters = true
services_and_events hbase_standalones = true
services_and_events _ = false

-- Events, and the custom resource that is read.
abbrev pub events_only : Kind → Bool
events_only events = true
events_only hbase_tenants = true
events_only _ = false

-- Success is a finished reply.
abbrev pub IsUnfinished : Flow Reply → Type 0
IsUnfinished panicked = Unit
IsUnfinished (done r) = is_finished r ≡ false

abbrev pub Barred : (Kind → Bool) → State → Flow Reply → State → Type 0
Barred allowed s f t = Steps allowed s t × IsUnfinished f

module _ (env : Env) (allowed : Kind → Bool) (on_events : allowed events ≡ true) where
  failed_reply :
      (f : Flow Unit) (t : State) (e : Error) → IsUnfinished (continue f (λ _. pure (failed e)) t).0
  failed_reply (done x) t e = refl
  failed_reply panicked t e = tt

  validate-Barred :
      (namespace : String) (config : HbaseClusterConfiguration) (rest : Action Reply) (e : Error)
      → validate_configuration env config ≡ some e
      → Meets (Barred allowed) (validate_or_return env namespace config rest)
  unfolding validate_or_return ◌>>=◌
  validate-Barred namespace config rest e h =
      rw (h, validate_or_return)
        (record {
          at = λ s. (
            publish-Steps env allowed on_events namespace "ConfigValidateFailed" e.message "Warning"
                "ConfigMap" (failed e) s,
            failed_reply _ _ e,
          );
        })

module _ (allowed : Kind → Bool) where
  -- What bars the rest after the first part, and the first part itself.
  or_return-Barred :
      (first rest : Action Reply)
      → Meets (λ s f t. Steps allowed s t) first
      → Meets (Barred allowed) rest
      → Meets (Barred allowed) (first or_return rest)
  unfolding ◌or_return◌ ◌>>=◌
  or_return-Barred first rest h k = record { at = λ s. after s (first s).0 (first s).1 (h.at s) }
    where
      after :
          (s : State) (f : Flow Reply) (t : State)
          → Steps allowed s t
          → let (g, u) = continue f (λ r. if is_finished r then rest else pure r) t in
            Barred allowed s g u
      after s panicked t q = (q, tt)
      after s (done r) t q = elim (Bool-cases (is_finished r)) [
        | inl e ↦ rw e (Steps-trans q (k.at t).0, (k.at t).1)
        | inr e ↦ rw e (q, e)
      ]

  -- A first part that is barred bars the whole.
  refused_first :
      (first rest : Action Reply)
      → Meets (Barred allowed) first
      → Meets (Barred allowed) (first or_return rest)
  unfolding ◌or_return◌ ◌>>=◌
  refused_first first rest h = record { at = λ s. after s (first s).0 (first s).1 (h.at s) }
    where
      after :
          (s : State) (f : Flow Reply) (t : State)
          → Barred allowed s f t
          → let (g, u) = continue f (λ r. if is_finished r then rest else pure r) t in
            Barred allowed s g u
      after s panicked t q = q
      after s (done r) t q = rw (q.1) q

  read_before :
      (kind : Kind) (key : NamespacedName) (m : Action Reply) (s : State)
      → allowed kind ≡ true
      → Meets (Barred allowed) m
      → let (f, t) = m (after_get kind key s) in Barred allowed s f t
  read_before kind key m s a h = (Steps-trans (called (got kind key) here a) (h.at _).0, (h.at _).1)

module _ (env : Env) (e : Error) where
  service-Meets :
      (namespace : String) (svc : Service)
      → Meets (λ s f t. Steps services_and_events s t) (reconcile_service env namespace svc)
  service-Meets namespace svc = record {
    at = reconcile_service-Steps env services_and_events refl refl namespace svc;
  }

  apply_cluster-Barred :
      (cluster : HbaseCluster)
      → validate_configuration env cluster.spec.configuration ≡ some e
      → Meets (Barred services_and_events) (apply_cluster env cluster)
  unfolding apply_cluster
  apply_cluster-Barred cluster h =
      or_return-Barred services_and_events _ _ (service-Meets _ _)
        (validate-Barred env services_and_events refl _ _ _ e h)

  apply_standalone-Barred :
      (standalone : HbaseStandalone)
      → validate_configuration env standalone.spec.configuration ≡ some e
      → Meets (Barred services_and_events) (apply_standalone env standalone)
  unfolding apply_standalone
  apply_standalone-Barred standalone h =
      or_return-Barred services_and_events _ _ (service-Meets _ _)
        (validate-Barred env services_and_events refl _ _ _ e h)

  apply_tenant-Barred :
      (tenant : HbaseTenant)
      → is_config_enabled (tenant_label tenant) ≡ true
      → validate_configuration env tenant.spec.configuration ≡ some e
      → Meets (Barred events_only) (apply_tenant env tenant)
  unfolding apply_tenant apply_tenant_configs
  apply_tenant-Barred tenant label h =
      rw label (refused_first events_only _ _ (validate-Barred env events_only refl _ _ _ e h))

  -- If the configuration of the cluster is refused, then the Reconcile method of HbaseCluster reads and
  -- writes no objects but services and events, and reads its custom resource; and it does not return
  -- the empty result with no error.
  pub reconcile_cluster-Barred :
      (req : NamespacedName) (s : State) (cluster : HbaseCluster)
      → env.get_hbase_cluster s.history req ≡ ok cluster
      → validate_configuration env cluster.spec.configuration ≡ some e
      → let (f, t) = reconcile_cluster env req s in Barred services_and_events s f t
  unfolding reconcile_cluster ◌>>=◌
  reconcile_cluster-Barred req s cluster found h = rw found (
      read_before services_and_events hbase_clusters req (apply_cluster env cluster) s refl
        (apply_cluster-Barred cluster h))

  -- If the configuration of the standalone instance is refused, then the Reconcile method of
  -- HbaseStandalone reads and writes no objects but services and events, and reads its custom
  -- resource; and it does not return the empty result with no error.
  pub reconcile_standalone-Barred :
      (req : NamespacedName) (s : State) (standalone : HbaseStandalone)
      → env.get_hbase_standalone s.history req ≡ ok standalone
      → validate_configuration env standalone.spec.configuration ≡ some e
      → let (f, t) = reconcile_standalone env req s in Barred services_and_events s f t
  unfolding reconcile_standalone ◌>>=◌
  reconcile_standalone-Barred req s standalone found h = rw found (
      read_before services_and_events hbase_standalones req (apply_standalone env standalone) s refl
        (apply_standalone-Barred standalone h))

  -- If the label of the tenant asks for its config maps and its configuration is refused, then the
  -- Reconcile method of HbaseTenant reads and writes no objects but events, and reads its custom
  -- resource; and it does not return the empty result with no error.
  pub reconcile_tenant-Barred :
      (req : NamespacedName) (s : State) (tenant : HbaseTenant)
      → env.get_hbase_tenant s.history req ≡ ok tenant
      → is_config_enabled (tenant_label tenant) ≡ true
      → validate_configuration env tenant.spec.configuration ≡ some e
      → let (f, t) = reconcile_tenant env req s in Barred events_only s f t
  unfolding reconcile_tenant ◌>>=◌
  reconcile_tenant-Barred req s tenant found label h = rw found (
      read_before events_only hbase_tenants req (apply_tenant env tenant) s refl
        (apply_tenant-Barred tenant label h))
