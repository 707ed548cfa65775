-- ===== src/Concurrent/ConfigMaps.antt =====
-- operator/controllers/utils.go: reconcileConfigMap, step by step, without the config map that it leaves
-- in its argument.
use hbase_k8s_operator.Prelude.{String, ◌≡◌, Option, none, some, ◌==◌, if◌then◌else◌, arith}
use hbase_k8s_operator.GoMap.{lookup}
use hbase_k8s_operator.Api.{NamespacedName}
use hbase_k8s_operator.Kube.{ConfigMap, config_map, config_maps}
use hbase_k8s_operator.Env.{Env, Answer, ok, err, got, created, updated}
use hbase_k8s_operator.Action.{State, Reply, pure, finished, again_in_5, failed_in_5, ◌>>=◌}
use hbase_k8s_operator.Build.ConfigMap.{text_or_empty}
use hbase_k8s_operator.Reconcile.Hash.{config_map_key, config_map_hash}
use hbase_k8s_operator.Reconcile.ConfigMaps.{
  annotate, create_config_map, send_config_map, update_config_map, settle_config_map,
  reconcile_config_map,
}
use hbase_k8s_operator.Concurrent.Program.{Program, finish, ask, moment, look, store, run}

abbrev pub created_config : Answer ConfigMap → Program Reply
created_config (ok _) = finish finished
created_config (err e) = finish (failed_in_5 e)

abbrev pub sent_config : ConfigMap → String → Answer ConfigMap → Program Reply
sent_config cfg hash (ok _) = store (config_map_key cfg) hash (finish again_in_5)
sent_config cfg hash (err e) = finish (failed_in_5 e)

abbrev pub send_steps : Env → ConfigMap → String → Program Reply
send_steps env cfg hash =
    ask (updated (config_map cfg)) (λ h. sent_config cfg hash (env.config_maps.update h cfg))

abbrev pub update_steps : Env → ConfigMap → Option String → Program Reply
update_steps env cfg none = send_steps env cfg (config_map_hash env cfg)
update_steps env cfg (some _) =
    moment λ h. send_steps env (annotate (env.time_text (env.now h)) cfg) (config_map_hash env cfg)

-- The hash store is read for the comparison, and once more for the annotation.
unfoldable pub settle_config_steps : Env → ConfigMap → Answer ConfigMap → Program Reply
settle_config_steps env cfg (err e) =
    if e.is_not_found
    then ask (created (config_map cfg)) (λ h. created_config (env.config_maps.create h cfg))
    else finish (failed_in_5 e)
settle_config_steps env cfg (ok existing) = look λ hashes.
    if config_map_hash env cfg == text_or_empty (lookup (config_map_key cfg) hashes)
    then finish finished
    else look λ hashes'. update_steps env cfg (lookup (config_map_key cfg) hashes')

unfoldable pub reconcile_config_steps : Env → String → ConfigMap → Program Reply
unfolding settle_config_steps
reconcile_config_steps env namespace cfg =
    let key : NamespacedName = record { name = cfg.meta.name; namespace = namespace } in
    ask (got config_maps key) (λ h. settle_config_steps env cfg (env.config_maps.get h key))

module _ (env : Env) where
  settle-run :
      (cfg : ConfigMap) (answer : Answer ConfigMap) (s : State)
      → run (settle_config_steps env cfg answer) s
        ≡ (settle_config_map env cfg answer >>= λ (r, _). pure r) s
  unfolding run settle_config_steps settle_config_map create_config_map update_config_map
      send_config_map ◌>>=◌
  settle-run cfg (err e) s = ground arith
  settle-run cfg (ok existing) s = ground arith

  -- Run alone, the steps of reconcileConfigMap do what `reconcile_config_map` does.
  pub run-reconcile_config_steps :
      (namespace : String) (cfg : ConfigMap) (s : State)
      → run (reconcile_config_steps env namespace cfg) s
        ≡ (reconcile_config_map env namespace cfg >>= λ (r, _). pure r) s
  unfolding run reconcile_config_steps reconcile_config_map ◌>>=◌
  run-reconcile_config_steps namespace cfg s = settle-run cfg _ _
