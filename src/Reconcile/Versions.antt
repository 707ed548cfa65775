-- ===== src/Reconcile/Versions.antt =====
-- What reconcileConfigMap sends and what it leaves in its argument: the update-time annotation, and
-- the resource version that the standalone controller reads afterwards.
use hbase_k8s_operator.Prelude.{
  String, ◌≡◌, refl, true, false, Bool-cases, inl, inr, ◌⊎◌, Option-cases, Option, none, some, ◌∷◌,
  arith, ◌==◌,
}
use hbase_k8s_operator.GoMap.{entries, lookup, lookup-insert_self}
use hbase_k8s_operator.Kube.{ConfigMap, config_map, config_maps}
use hbase_k8s_operator.Env.{Env, Error, Answer-cases, ok, err, got, updated}
use hbase_k8s_operator.Action.{State, Flow, done, Reply, ◌>>=◌, is_finished}
use hbase_k8s_operator.Build.ConfigMap.{text_or_empty}
use hbase_k8s_operator.Reconcile.Hash.{config_map_key, config_map_hash}
use hbase_k8s_operator.Reconcile.Annotations.{cfg_v2_annotation}
use hbase_k8s_operator.Reconcile.ConfigMaps.{
  reconcile_config_map, settle_config_map, create_config_map, update_config_map, send_config_map,
  annotate,
}
use hbase_k8s_operator.Reconcile.Settled.{key_of}

send_config_map-history :
    (env : Env) (cfg : ConfigMap) (hash : String) (s : State)
    → (send_config_map env cfg hash s).1.history ≡ updated (config_map cfg) ∷ s.history
unfolding send_config_map ◌>>=◌
send_config_map-history env cfg hash s =
    elim (Answer-cases (env.config_maps.update s.history cfg)) [
      | inl (x, q) ↦ rw q refl
      | inr (e, q) ↦ rw q refl
    ]

-- The action ends in this way.
abbrev Ends : (Flow (Reply × ConfigMap) × State) → Reply → ConfigMap → State → Type 0
Ends m r cfg t = m ≡ (done (r, cfg), t)

module _ (env : Env) (cfg : ConfigMap) (r : Reply) (cfg' : ConfigMap) (s t : State) where
  send-unfinished :
      (hash : String) → Ends (send_config_map env cfg hash s) r cfg' t → ¬ (is_finished r ≡ true)
  unfolding send_config_map ◌>>=◌
  send-unfinished hash h k = ground arith

  create-result :
      Ends (create_config_map env cfg s) r cfg' t
      → is_finished r ≡ true
      → env.config_maps.create s.history cfg ≡ ok cfg'
  unfolding create_config_map ◌>>=◌
  create-result h k = ground arith

module _ (env : Env) (cfg : ConfigMap) (r : Reply) (cfg' : ConfigMap) (s t : State) where
  update-unfinished :
      (old : Option String)
      → Ends (update_config_map env cfg old s) r cfg' t
      → ¬ (is_finished r ≡ true)
  unfolding update_config_map ◌>>=◌
  update-unfinished none h k = send-unfinished env _ r cfg' s t _ h k
  update-unfinished (some x) h k = send-unfinished env _ r cfg' s t _ h k

  found-result :
      (existing : ConfigMap)
      → Ends (settle_config_map env cfg (ok existing) s) r cfg' t
      → is_finished r ≡ true
      → cfg' ≡ cfg
  unfolding settle_config_map ◌>>=◌
  found-result existing h k =
      elim (Bool-cases
        (config_map_hash env cfg == text_or_empty (lookup (config_map_key cfg) s.hash_store))) [
          | inl e ↦ let h' = rw e at h in ground arith
          | inr e ↦ absurd (update-unfinished _ (rw e at h) k)
        ]

  missing-result :
      (e : Error)
      → Ends (settle_config_map env cfg (err e) s) r cfg' t
      → is_finished r ≡ true
      → env.config_maps.create s.history cfg ≡ ok cfg'
  unfolding settle_config_map
  missing-result e h k = elim (Bool-cases (e.is_not_found)) [
    | inl b ↦ create-result env cfg r cfg' s t (rw b at h) k
    | inr b ↦ let h' = rw b at h in ground arith
  ]

module _ (env : Env) (namespace : String) (cfg : ConfigMap) (s : State) where
  -- The update-time annotation of the config map that is sent: the time, where the hash store has an
  -- entry for the config map, and otherwise what the config map has already.
  abbrev pub update_time : Option String → Option String
  update_time none = lookup cfg_v2_annotation (entries cfg.meta.annotations)
  update_time (some _) =
      let h = got config_maps (key_of cfg.meta.name namespace) ∷ s.history in
      some (env.time_text (env.now h))

  -- Where the config map exists and its desired hash is not the stored one, exactly one Update is
  -- sent after the Get. It has the desired contents and name, and the update-time annotation with the
  -- current time if the hash store knows the config map. If it does not, as after a restart of the
  -- operator, then it has the annotation of the config map that was built.
  pub reconcile_config_map-annotates :
      (existing : ConfigMap)
      → env.config_maps.get s.history (key_of cfg.meta.name namespace) ≡ ok existing
      → (config_map_hash env cfg == text_or_empty (lookup (config_map_key cfg) s.hash_store))
        ≡ false
      → (sent : ConfigMap) × ((reconcile_config_map env namespace cfg s).1.history
          ≡ updated (config_map sent)
            ∷ got config_maps (key_of cfg.meta.name namespace)
            ∷ s.history)
        × (sent.contents ≡ cfg.contents)
        × (sent.meta.name ≡ cfg.meta.name)
        × (lookup cfg_v2_annotation (entries sent.meta.annotations)
            ≡ update_time (lookup (config_map_key cfg) s.hash_store))
  unfolding reconcile_config_map settle_config_map update_config_map annotate ◌>>=◌
  reconcile_config_map-annotates existing found differs =
      elim (Option-cases (lookup (config_map_key cfg) s.hash_store)) [
        | inl e ↦
            rw (found, differs, e) (cfg, send_config_map-history env cfg _ _, refl, refl, refl)
        | inr (old, e) ↦
            let time =
              env.time_text
                (env.now (got config_maps (key_of cfg.meta.name namespace) ∷ s.history)) in
            rw (found, differs, e)
              (
                annotate time cfg,
                send_config_map-history env (annotate time cfg) _ _,
                refl,
                refl,
                lookup-insert_self cfg_v2_annotation time (entries cfg.meta.annotations),
              )
      ]

  -- Where reconcileConfigMap ends with the empty result and no error, the config map that its caller
  -- goes on with is the one that was built, or the server's answer to its creation in this very call:
  -- the resource version of one that exists is never read.
  pub reconcile_config_map-result :
      (r : Reply) (cfg' : ConfigMap) (t : State)
      → reconcile_config_map env namespace cfg s ≡ (done (r, cfg'), t)
      → is_finished r ≡ true
      → (cfg' ≡ cfg)
        ⊎ ((e : Error) × (env.config_maps.get s.history (key_of cfg.meta.name namespace) ≡ err e)
            × (env.config_maps.create
                  (got config_maps (key_of cfg.meta.name namespace) ∷ s.history)
                  cfg
                ≡ ok cfg'))
  unfolding reconcile_config_map settle_config_map create_config_map update_config_map
      send_config_map ◌>>=◌
  reconcile_config_map-result r cfg' t h k =
      elim (Answer-cases (env.config_maps.get s.history (key_of cfg.meta.name namespace))) [
        | inl (existing, e) ↦ inl (found-result env cfg r cfg' _ t existing (rw e at h) k)
        | inr (x, e) ↦ inr (x, e, missing-result env cfg r cfg' _ t x (rw e at h) k)
      ]
