-- ===== src/Controllers/Success/Standalone.antt =====
-- What the Reconcile method of HbaseStandalone has seen when it succeeds.
use hbase_k8s_operator.Prelude.{
  String, ◌≡◌, refl, true, none, [], ◌∷◌, Bool-cases, inl, inr, if◌then◌else◌,
}
use hbase_k8s_operator.Api.{NamespacedName, HbaseStandalone}
use hbase_k8s_operator.Kube.{ConfigMap, hbase_standalones}
use hbase_k8s_operator.Env.{Env, ok}
use hbase_k8s_operator.Action.{
  State, Action, Flow, done, panicked, Reply, ◌>>=◌, pure, continue, is_finished, after_get,
}
use hbase_k8s_operator.Action.Steps.{Steps-Grown}
use hbase_k8s_operator.Build.Service.{build_service}
use hbase_k8s_operator.Build.ConfigMap.{build_config_map}
use hbase_k8s_operator.Reconcile.Footprint.{reconcile_config_map-Steps}
use hbase_k8s_operator.Reconcile.Services.{reconcile_service}
use hbase_k8s_operator.Reconcile.ConfigMaps.{reconcile_config_map}
use hbase_k8s_operator.Reconcile.Validate.{validate_configuration}
use hbase_k8s_operator.Controllers.Steps.{
  own_service, own_config_map, apply_config, apply_config_map, apply_deployment,
}
use hbase_k8s_operator.Controllers.Standalone.{
  standalone_owner, standalone_template, apply_standalone_objects, apply_standalone,
  reconcile_standalone,
}
use hbase_k8s_operator.Controllers.Whole.{apply_config-Meets}
use hbase_k8s_operator.Controllers.Ready.{Ready, starts_Ready, apply_deployment-Ready}
use hbase_k8s_operator.Controllers.Ready.Finish.{
  Finishes, again, or_return-Finishes, validate_or_return-Finishes, different,
}
use hbase_k8s_operator.Controllers.Ready.Growth.{Grown-trans, Finishes-Between}

-- The rest has run after a config map that was reconciled without error.
after_config-Finishes :
    (rest : ConfigMap → Action Reply) (t u : State) (f : Flow (Reply × ConfigMap)) (r : Reply)
    → continue f (λ (x, cfg). if is_finished x then rest cfg else pure x) t ≡ (done r, u)
    → is_finished r ≡ true
    → (cfg : ConfigMap) × Finishes (rest cfg) t u
after_config-Finishes rest t u panicked r h k = cc
after_config-Finishes rest t u (done (x, cfg)) r h k = elim (Bool-cases (is_finished x)) [
  | inl b ↦ (cfg, record { reply = r; ends = rw b at h; succeeds = k })
  | inr b ↦ absurd (different x r t u b k (rw b at h))
]

module _ (env : Env) where
  apply_standalone_objects-Ready :
      (standalone : HbaseStandalone) (s u : State)
      → Finishes (apply_standalone_objects env standalone) s u
      → (version : String) × Ready env
          (standalone_owner standalone)
          (standalone_template standalone version)
          s
          u
          standalone.spec.standalone
  unfolding apply_standalone_objects apply_config_map ◌>>=◌
  apply_standalone_objects-Ready standalone s u h =
      let c = standalone.spec.configuration in
      let o = standalone_owner standalone in
      let first =
        apply_config env o c.hbase_config_name standalone.meta.namespace c.hbase_config
          c.hbase_tenant_config in
      let cfg = own_config_map env o (
        build_config_map c.hadoop_config_name standalone.meta.namespace c.hadoop_config
          c.hadoop_tenant_config) in
      let second = reconcile_config_map env standalone.meta.namespace cfg in
      let rest : ConfigMap → Action Reply = λ cfg'.
        apply_deployment env o (standalone_template standalone cfg'.meta.resource_version)
          standalone.spec.standalone in
      let (a, configs, k) =
        or_return-Finishes first
          (second >>= λ (reply, cfg'). if is_finished reply then rest cfg' else pure reply) s u h in
      let (cfg', last) =
        after_config-Finishes rest (second a).1 u (second a).0 k.reply k.ends k.succeeds in
      let g =
        Grown-trans
          (Finishes-Between env first s a (λ R c'. apply_config-Meets c' o _ _ _ _) configs).grown
          (Steps-Grown
            (reconcile_config_map-Steps env (λ _. true) refl standalone.meta.namespace cfg a)) in
      (
        cfg'.meta.resource_version,
        starts_Ready env _ _ s (second a).1 u _ g (apply_deployment-Ready env _ _ _ _ u last),
      )

  apply_standalone-Ready :
      (standalone : HbaseStandalone) (s u : State)
      → Finishes (apply_standalone env standalone) s u
      → (validate_configuration env standalone.spec.configuration ≡ none)
        × (version : String) × Ready env
            (standalone_owner standalone)
            (standalone_template standalone version)
            s
            u
            standalone.spec.standalone
  unfolding apply_standalone
  apply_standalone-Ready standalone s u h =
      let svc = own_service env (standalone_owner standalone) (
        build_service standalone.meta.name standalone.meta.name standalone.meta.namespace
          standalone.spec.service_labels standalone.spec.service_selector_labels
          (standalone.spec.standalone ∷ []) true) in
      let first = reconcile_service env standalone.meta.namespace svc in
      let (a, service, k) = or_return-Finishes first _ s u h in
      let (valid, k') =
        validate_or_return-Finishes env standalone.meta.namespace standalone.spec.configuration
          (apply_standalone_objects env standalone) a u k in
      let (version, r) = apply_standalone_objects-Ready standalone a u k' in
      let g =
        (Finishes-Between env first s a
          (λ R c. record { at = c.services standalone.meta.namespace svc }) service).grown in
      (valid, version, starts_Ready env _ _ s a u _ g r)

  -- When the Reconcile method of HbaseStandalone ends with the empty result and no error, and the
  -- instance exists, then its configuration is valid, its StatefulSet was found rolled out during
  -- the run, and the hash store at the end has the hash of the StatefulSet that buildStatefulSet
  -- makes of its deployment.
  pub reconcile_standalone-Ready :
      (req : NamespacedName) (standalone : HbaseStandalone) (s u : State)
      → env.get_hbase_standalone s.history req ≡ ok standalone
      → Finishes (reconcile_standalone env req) s u
      → (validate_configuration env standalone.spec.configuration ≡ none)
        × (version : String) × Ready env
            (standalone_owner standalone)
            (standalone_template standalone version)
            (after_get hbase_standalones req s)
            u
            standalone.spec.standalone
  unfolding reconcile_standalone ◌>>=◌
  reconcile_standalone-Ready req standalone s u found h =
      apply_standalone-Ready standalone (after_get hbase_standalones req s) u
        (again h (rw found at h.ends))
