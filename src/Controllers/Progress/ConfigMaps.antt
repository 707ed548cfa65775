-- ===== src/Controllers/Progress/ConfigMaps.antt =====
-- Reconciling a config map makes progress.
use hbase_k8s_operator.Prelude.{
  String, ℕ, ◌≡◌, refl, ◌∙◌, true, false, Bool-cases, inl, inr, List, Option, none, some, arith,
}
use hbase_k8s_operator.Kube.{ConfigMap, config_maps, config_map}
use hbase_k8s_operator.Env.{Env, ok, got, created, updated}
use hbase_k8s_operator.Action.{State, Flow, Reply, ◌>>=◌, after_get, finished, again_in_5}
use hbase_k8s_operator.Reconcile.Hash.{config_map_key, config_map_hash}
use hbase_k8s_operator.Reconcile.ConfigMaps.{
  reconcile_config_map, settle_config_map, create_config_map, update_config_map, send_config_map,
  annotate,
}
use hbase_k8s_operator.Controllers.Contract.{reply_of}
use hbase_k8s_operator.Controllers.Progress.Server.{Presence, key_of_meta, IsCooperative}
use hbase_k8s_operator.Controllers.Progress.Measure.{
  Want, IsWanted, is_recorded, is_consistent, created-lt, updated-lt,
}
use hbase_k8s_operator.Controllers.Progress.Advance.{Advanced}
use hbase_k8s_operator.Controllers.Progress.Objects.{want_config_map, after_read}

module _ (env : Env) (has : Presence) (c : IsCooperative env has) (patience : ℕ) (ws : List Want)
    (consistent : is_consistent ws ws ≡ true) where
  abbrev pub MovesMap : State → (Flow (Reply × ConfigMap) × State) → Type 0
  MovesMap s m = Advanced has patience ws s (reply_of m.0) m.1

  send_config_map-Moves :
      (desired cfg : ConfigMap) (s : State)
      → IsWanted (want_config_map env desired) ws
      → config_map_key cfg ≡ config_map_key desired
      → has config_maps (key_of_meta cfg.meta) s.history ≡ true
      → is_recorded (want_config_map env desired) s.hash_store ≡ false
      → MovesMap s (send_config_map env cfg (config_map_hash env desired) s)
  unfolding send_config_map ◌>>=◌
  send_config_map-Moves desired cfg s w same there stale =
      let (b, accepted) = c.on_config_maps.updates s.history cfg there in
      let lt =
        updated-lt has c.stays patience ws consistent (want_config_map env desired)
          (updated (config_map cfg)) s w stale in
      rw (accepted, same) (again_in_5, refl, omega arith, λ n. lt)

  update_config_map-Moves :
      (cfg : ConfigMap) (old : Option String) (s : State)
      → IsWanted (want_config_map env cfg) ws
      → has config_maps (key_of_meta cfg.meta) s.history ≡ true
      → is_recorded (want_config_map env cfg) s.hash_store ≡ false
      → MovesMap s (update_config_map env cfg old s)
  unfolding update_config_map annotate config_map_key ◌>>=◌
  update_config_map-Moves cfg none s w there stale =
      send_config_map-Moves cfg cfg s w refl there stale
  update_config_map-Moves cfg (some x) s w there stale =
      send_config_map-Moves cfg (annotate _ cfg) s w refl there stale

  settle_config_map-Moves :
      (cfg existing : ConfigMap) (s : State)
      → IsWanted (want_config_map env cfg) ws
      → has config_maps (key_of_meta cfg.meta) s.history ≡ true
      → MovesMap s (settle_config_map env cfg (ok existing) s)
  unfolding settle_config_map ◌>>=◌
  settle_config_map-Moves cfg existing s w there =
      elim (Bool-cases (is_recorded (want_config_map env cfg) s.hash_store)) [
        | inl e ↦ rw e (finished, refl, omega arith, λ n. cc)
        | inr e ↦ rw e (update_config_map-Moves cfg _ s w there e)
      ]

  create_config_map-Moves :
      (cfg : ConfigMap) (s : State)
      → IsWanted (want_config_map env cfg) ws
      → has config_maps (key_of_meta cfg.meta) s.history ≡ false
      → MovesMap s (create_config_map env cfg s)
  unfolding create_config_map ◌>>=◌
  create_config_map-Moves cfg s w missing =
      let (b, accepted, there) = c.on_config_maps.creates s.history cfg missing in
      let lt =
        created-lt has c.stays patience ws consistent (want_config_map env cfg)
          (created (config_map cfg)) s w missing there in
      rw accepted (finished, refl, omega arith, λ n. cc)

  pub reconcile_config_map-Advanced :
      (cfg : ConfigMap) (s : State)
      → IsWanted (want_config_map env cfg) ws
      → MovesMap s (reconcile_config_map env cfg.meta.namespace cfg s)
  unfolding reconcile_config_map settle_config_map ◌>>=◌
  reconcile_config_map-Advanced cfg s w =
      let key = key_of_meta cfg.meta in
      after_read env has c patience ws consistent s _ _ (got config_maps key)
        (elim (Bool-cases (has config_maps key s.history)) [
          | inl there ↦
              let (existing, e) = c.on_config_maps.found s.history key there in
              rw e (
                settle_config_map-Moves cfg existing (after_get config_maps key s) w
                  (c.reading config_maps config_maps key key s.history ∙ there))
          | inr missing ↦
              let (x, e, absent) = c.on_config_maps.missing s.history key missing in
              rw (e, absent)
                (create_config_map-Moves cfg (after_get config_maps key s) w
                  (c.reading config_maps config_maps key key s.history ∙ missing))
        ])
