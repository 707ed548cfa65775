-- ===== src/Controllers/Progress/Parts.antt =====
-- The parts of a Reconcile method that handle several objects make progress on a cooperative server.
use hbase_k8s_operator.Prelude.{
  arith, String, ℕ, ◌≡◌, refl, ap, ◌∙◌, subst, Bool, ℤ, true, inl, inr, none, Option-cases, List,
  [], ◌∷◌, ◌++◌, All,
}
use hbase_k8s_operator.GoMap.{GoMap}
use hbase_k8s_operator.Api.{
  NamespacedName, ObjectMeta, HbaseClusterDeployment, HbaseClusterConfiguration,
}
use hbase_k8s_operator.Kube.{Kind, ConfigMap, Service, StatefulSet}
use hbase_k8s_operator.Env.{Env}
use hbase_k8s_operator.Action.{State, Action, Flow, done, panicked, Reply, ◌>>=◌, pure, continue}
use hbase_k8s_operator.Build.Outcome.{Outcome, built, invalid, panic}
use hbase_k8s_operator.Build.ConfigMap.{build_config_map}
use hbase_k8s_operator.Build.StatefulSet.{build_stateful_set}
use hbase_k8s_operator.Build.StatefulSet.Complete.{Builds, IsParsable, build_stateful_set-total}
use hbase_k8s_operator.Build.Pdb.{build_pod_disruption_budget}
use hbase_k8s_operator.Reconcile.Services.{reconcile_service}
use hbase_k8s_operator.Reconcile.ConfigMaps.{reconcile_config_map}
use hbase_k8s_operator.Reconcile.Validate.{validate_configuration}
use hbase_k8s_operator.Controllers.Contract.{reply_of}
use hbase_k8s_operator.Controllers.Steps.{
  Owner, Template, own_service, own_config_map, own_stateful_set, validate_or_return,
  apply_config_map, apply_config, apply_configs, apply_built, apply_pdb, apply_deployment,
}
use hbase_k8s_operator.Controllers.Progress.Server.{Presence, key_of_meta, IsCooperative}
use hbase_k8s_operator.Controllers.Progress.Measure.{Want, IsWanted, is_consistent}
use hbase_k8s_operator.Controllers.Progress.Advance.{
  Advanced, Advances, finished-Advances, or_return-Advances,
}
use hbase_k8s_operator.Controllers.Progress.ConfigMaps.{reconcile_config_map-Advanced}
use hbase_k8s_operator.Controllers.Progress.Objects.{
  want_service, want_config_map, reconcile_service-Advances,
  reconcile_pod_disruption_budget-Advances,
}
use hbase_k8s_operator.Controllers.Progress.Rollouts.{RollsOut, reconcile_stateful_set-Advances}
use hbase_k8s_operator.Controllers.Progress.Wants.{
  config_wants, stateful_set_wants, pdb_wants, deployment_wants,
}

-- All of these objects are wanted.
abbrev pub Covers : List Want → List Want → Type 0
Covers ws part = All (λ w. IsWanted w ws) part

pub Covers-append : (ws xs ys : List Want) → Covers ws (xs ++ ys) → Covers ws xs × Covers ws ys
Covers-append ws [] ys h = (tt, h)
Covers-append ws (x ∷ xs) ys (h, hs) = let (p, q) = Covers-append ws xs ys hs in ((h, p), q)

pub Covers-self : (ws : List Want) → Covers ws ws
Covers-self [] = tt
Covers-self (w ∷ ws) = (inl refl, more w ws ws (Covers-self ws))
  where
    more : (w : Want) (ws part : List Want) → Covers ws part → Covers (w ∷ ws) part
    more w ws [] h = tt
    more w ws (v ∷ part) (h, hs) = (inr h, more w ws part hs)

-- Where the StatefulSet of a deployment is.
abbrev pub deployment_key : Owner → HbaseClusterDeployment → NamespacedName
deployment_key o d = record { name = d.name; namespace = o.meta.namespace }

built_key :
    (env : Env) (name namespace base_image : String) (is_bootstrap : Bool)
    (config : HbaseClusterConfiguration) (version : String) (fsgroup : ℤ)
    (d : HbaseClusterDeployment) (is_multi : Bool) (ss : StatefulSet)
    → build_stateful_set env name namespace base_image is_bootstrap config version fsgroup d
        is_multi
      ≡ built ss
    → key_of_meta ss.meta ≡ record { name = d.name; namespace = namespace }
unfolding build_stateful_set
built_key env name namespace base_image is_bootstrap config version fsgroup d is_multi ss h =
    ground arith

module _ (env : Env) (has : Presence) (c : IsCooperative env has) (patience : ℕ) (ws : List Want)
    (consistent : is_consistent ws ws ≡ true) where
  keeps_namespace :
      (kind : Kind) (owner object : ObjectMeta)
      → (env.set_controller_reference kind owner object).namespace ≡ object.namespace
  keeps_namespace kind owner object = ap (λ k. k.namespace) (c.keeps_key kind owner object)

  -- A service that a custom resource owns.
  pub own_service-Advances :
      (o : Owner) (namespace : String) (svc : Service)
      → svc.meta.namespace ≡ namespace
      → IsWanted (want_service env (own_service env o svc)) ws
      → Advances has patience ws (reconcile_service env namespace (own_service env o svc))
  own_service-Advances o namespace svc e w =
      subst (λ n. Advances has patience ws (reconcile_service env n (own_service env o svc)))
        (keeps_namespace o.kind o.meta svc.meta ∙ e)
        (reconcile_service-Advances env has c patience ws consistent (own_service env o svc) w)

  reply_only :
      (s t : State) (f : Flow (Reply × ConfigMap))
      → Advanced has patience ws s (reply_of f) t
      → let (g, u) = continue f (λ (r, _). pure r) t in Advanced has patience ws s g u
  reply_only s t panicked h = h
  reply_only s t (done (r, cfg)) h = h

  apply_config-Advances :
      (o : Owner) (name namespace : String) (config : GoMap) (tenants : List GoMap)
      → IsWanted
          (want_config_map env
            (own_config_map env o (build_config_map name namespace config tenants)))
          ws
      → Advances has patience ws (apply_config env o name namespace config tenants)
  unfolding apply_config apply_config_map build_config_map ◌>>=◌
  apply_config-Advances o name namespace config tenants w =
      let cfg = own_config_map env o (build_config_map name namespace config tenants) in
      record {
        at = λ s. reply_only s _ _ (
            subst
              (λ n.
                let (f, t) = reconcile_config_map env n cfg s in
                Advanced has patience ws s (reply_of f) t)
              (keeps_namespace o.kind o.meta (build_config_map name namespace config tenants).meta)
              (reconcile_config_map-Advanced env has c patience ws consistent cfg s w));
      }

  pub apply_configs-Advances :
      (o : Owner) (namespace : String) (config : HbaseClusterConfiguration)
      → Covers ws (config_wants env o namespace config)
      → Advances has patience ws (apply_configs env o namespace config)
  unfolding apply_configs
  apply_configs-Advances o namespace config (h, (k, rest)) =
      or_return-Advances has patience ws _ _ (apply_config-Advances o _ namespace _ _ h)
        (apply_config-Advances o _ namespace _ _ k)

  pub validate_or_return-Advances :
      (namespace : String) (config : HbaseClusterConfiguration) (rest : Action Reply)
      → validate_configuration env config ≡ none
      → Advances has patience ws rest
      → Advances has patience ws (validate_or_return env namespace config rest)
  unfolding validate_or_return
  validate_or_return-Advances namespace config rest e h = rw (e, validate_or_return) h

  apply_pdb-Advances :
      (o : Owner) (d : HbaseClusterDeployment)
      → Covers ws (pdb_wants env o (build_pod_disruption_budget o.meta.name o.meta.namespace d))
      → Advances has patience ws (apply_pdb env o d)
  unfolding apply_pdb
  apply_pdb-Advances o d h =
      elim (Option-cases (build_pod_disruption_budget o.meta.name o.meta.namespace d)) [
        | inl e ↦ rw (e, apply_pdb) (finished-Advances has patience ws)
        | inr (pdb, e) ↦
            let (w, _) = rw e at h in
            rw (e, apply_pdb)
              (reconcile_pod_disruption_budget-Advances env has c patience ws consistent _ w)
      ]

  apply_built-Advances :
      (o : Owner) (d : HbaseClusterDeployment) (b : Outcome StatefulSet)
      → ((ss : StatefulSet) → b ≡ built ss → key_of_meta ss.meta ≡ deployment_key o d)
      → Builds b
      → RollsOut env patience d (deployment_key o d)
      → Covers ws (stateful_set_wants env o b)
      → Advances has patience ws (apply_built env o d b)
  unfolding apply_built
  apply_built-Advances o d (built ss) key b rolls (w, rest) =
      reconcile_stateful_set-Advances env has c patience ws consistent (own_stateful_set env o ss) w
        d o.meta.namespace (c.keeps_key o.kind o.meta ss.meta ∙ key ss refl) rolls
  apply_built-Advances o d (invalid message) key (ss, e) rolls h = cc
  apply_built-Advances o d panic key (ss, e) rolls h = cc

  -- A deployment whose quantities parse, and whose rollout ends.
  pub apply_deployment-Advances :
      (o : Owner) (t : Template) (d : HbaseClusterDeployment)
      → IsParsable env d t.is_bootstrap
      → RollsOut env patience d (deployment_key o d)
      → Covers ws (deployment_wants env o t d)
      → Advances has patience ws (apply_deployment env o t d)
  unfolding apply_deployment
  apply_deployment-Advances o t d parses rolls h =
      let total =
        build_stateful_set-total env o.meta.name o.meta.namespace t.base_image t.is_bootstrap
          t.configuration t.config_version t.fs_group d t.is_multi_stateful_set parses in
      let (first, rest) = Covers-append ws _ _ h in
      or_return-Advances has patience ws _ _
        (apply_built-Advances o d _
          (λ ss e.
            built_key env o.meta.name o.meta.namespace t.base_image t.is_bootstrap t.configuration
              t.config_version t.fs_group d t.is_multi_stateful_set ss e)
          (total.0, total.1) rolls first)
        (apply_pdb-Advances o _ rest)
