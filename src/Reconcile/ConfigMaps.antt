-- ===== src/Reconcile/ConfigMaps.antt =====
-- operator/controllers/utils.go: reconcileConfigMap. The Go function works on a pointer, which the
-- client writes into: the action returns the config map as it stands afterwards beside the reply.
use hbase_k8s_operator.Prelude.{String, Option, none, some, ◌==◌, if◌then◌else◌}
use hbase_k8s_operator.GoMap.{entries, insert}
use hbase_k8s_operator.Api.{NamespacedName}
use hbase_k8s_operator.Kube.{ConfigMap, config_map, config_maps}
use hbase_k8s_operator.Env.{Env, Answer, ok, err, got, created, updated}
use hbase_k8s_operator.Action.{
  Action, Reply, ◌>>=◌, ◌>>◌, pure, call, at_now, stored_hash, store_hash, finished, again_in_5,
  failed_in_5,
}
use hbase_k8s_operator.Build.ConfigMap.{text_or_empty}
use hbase_k8s_operator.Reconcile.Hash.{config_map_key, config_map_hash}
use hbase_k8s_operator.Reconcile.Annotations.{cfg_v2_annotation}

-- cfg.Annotations[CFG_V2_ANNOTATION] = time, in a map that is made if there is none
unfoldable pub annotate : String → ConfigMap → ConfigMap
annotate time cfg = record cfg {
  meta = record (cfg.meta) {
    annotations = some (insert cfg_v2_annotation time (entries cfg.meta.annotations));
  };
}

unfoldable pub create_config_map : Env → ConfigMap → Action (Reply × ConfigMap)
unfolding ◌>>=◌
create_config_map env cfg =
    call (created (config_map cfg)) (λ h. env.config_maps.create h cfg) >>= λ answer. elim answer [
      | ok stored ↦ pure (finished, stored)
      | err e ↦ pure (failed_in_5 e, cfg)
    ]

unfoldable pub send_config_map : Env → ConfigMap → String → Action (Reply × ConfigMap)
unfolding ◌>>=◌
send_config_map env cfg hash =
    call (updated (config_map cfg)) (λ h. env.config_maps.update h cfg) >>= λ answer. elim answer [
      | ok stored ↦ store_hash (config_map_key cfg) hash >> pure (again_in_5, stored)
      | err e ↦ pure (failed_in_5 e, cfg)
    ]

-- The branch in which the hashes differ; only a config map that the hash store knows is annotated.
unfoldable pub update_config_map : Env → ConfigMap → Option String → Action (Reply × ConfigMap)
unfolding ◌>>=◌ send_config_map annotate
update_config_map env cfg none = send_config_map env cfg (config_map_hash env cfg)
update_config_map env cfg (some _) = do
  time ← at_now (λ h. env.time_text (env.now h))
  send_config_map env (annotate time cfg) (config_map_hash env cfg)

-- What follows the Get.
unfoldable pub settle_config_map : Env → ConfigMap → Answer ConfigMap → Action (Reply × ConfigMap)
unfolding ◌>>=◌ create_config_map update_config_map
settle_config_map env cfg (err e) =
    if e.is_not_found then create_config_map env cfg else pure (failed_in_5 e, cfg)
settle_config_map env cfg (ok existing) = do
  stored ← stored_hash (config_map_key cfg)
  if config_map_hash env cfg == text_or_empty stored
      then pure (finished, cfg)
      else update_config_map env cfg stored

unfoldable pub reconcile_config_map : Env → String → ConfigMap → Action (Reply × ConfigMap)
unfolding ◌>>=◌ settle_config_map
reconcile_config_map env namespace cfg =
    let key : NamespacedName = record { name = cfg.meta.name; namespace = namespace } in
    call (got config_maps key) (λ h. env.config_maps.get h key) >>= λ existing.
    settle_config_map env cfg existing
