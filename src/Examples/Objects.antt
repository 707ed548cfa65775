-- ===== src/Examples/Objects.antt =====
-- The theorems on single objects, at concrete ones.
use hbase_k8s_operator.Prelude.{
  ◌≡◌, ◌⊎◌, refl, List, ◌++◌, false, none, [], ◌∷◌, ◌==◌, if◌then◌else◌,
}
use hbase_k8s_operator.GoMap.{lookup, entries}
use hbase_k8s_operator.Api.{new_meta}
use hbase_k8s_operator.Kube.{
  ConfigMap, Service, config_map, services, config_maps, stateful_sets, pod_disruption_budgets,
  events,
}
use hbase_k8s_operator.Env.{Env, Error, Call, ok, err, got, updated}
use hbase_k8s_operator.Build.ConfigMap.{text_or_empty}
use hbase_k8s_operator.Reconcile.Annotations.{cfg_v2_annotation}
use hbase_k8s_operator.Action.{
  State, start, done, ◌>>=◌, again_in_5, requeue_in, finished, after_get,
}
use hbase_k8s_operator.Reconcile.Hash.{
  as_sha256, config_map_key, config_map_hash, service_hash, stateful_set_hash, pdb_hash,
}
use hbase_k8s_operator.Reconcile.ConfigMaps.{
  reconcile_config_map, settle_config_map, create_config_map, update_config_map, send_config_map,
}
use hbase_k8s_operator.Reconcile.Services.{reconcile_service, settle_service, update_service}
use hbase_k8s_operator.Reconcile.StatefulSets.{
  reconcile_stateful_set, settle_stateful_set, update_stateful_set, is_rolling,
}
use hbase_k8s_operator.Reconcile.Pdbs.{
  reconcile_pod_disruption_budget, settle_pdb, update_pdb, adopt_pdb,
}
use hbase_k8s_operator.Reconcile.Events.{publish_event}
use hbase_k8s_operator.Reconcile.Settled.{
  reconcile_service-settles, reconcile_config_map-settles, reconcile_stateful_set-settles,
  reconcile_pod_disruption_budget-settles, key_of,
}
use hbase_k8s_operator.Reconcile.Collisions.{reconcile_service-collides}
use hbase_k8s_operator.Reconcile.Versions.{
  reconcile_config_map-annotates, reconcile_config_map-result, update_time,
}
use hbase_k8s_operator.Reconcile.Recounts.{publish_event-Written, Written}
use hbase_k8s_operator.Examples.World.{
  world, server_with, not_found, deployment, headless, site, workload, budget,
}

-- A server that has one object of each kind.
abbrev full : Env
full = record world {
  services = server_with headless;
  config_maps = server_with site;
  stateful_sets = server_with workload;
  pod_disruption_budgets = server_with budget;
}

-- The state after the first reconciliation of each.
abbrev after_service : State
after_service = (reconcile_service full "ns" headless start).1

abbrev after_config_map : State
after_config_map = (reconcile_config_map full "ns" site start).1

abbrev after_stateful_set : State
after_stateful_set = (reconcile_stateful_set full "ns" workload (deployment "w") start).1

abbrev after_budget : State
after_budget = (reconcile_pod_disruption_budget full budget start).1

updates_service : reconcile_service full "ns" headless start ≡ (done again_in_5, after_service)
unfolding reconcile_service settle_service update_service service_hash as_sha256 ◌>>=◌ lookup
updates_service = refl

reconcile_service-settles_example :
    reconcile_service full "ns" headless after_service
    ≡ (done finished, after_get services (key_of "headless" "ns") after_service)
reconcile_service-settles_example =
    reconcile_service-settles full "ns" headless headless start after_service updates_service refl

-- The same service in another namespace.
abbrev elsewhere : Service
elsewhere = record headless { meta = new_meta "headless" "tenant" none }

same_hash : service_hash full elsewhere ≡ service_hash full headless
unfolding service_hash
same_hash = refl

reconcile_service-collides_example :
    reconcile_service full "tenant" elsewhere after_service
    ≡ (done finished, after_get services (key_of "headless" "tenant") after_service)
reconcile_service-collides_example =
    reconcile_service-collides full "ns" "tenant" headless elsewhere headless start after_service
      refl same_hash updates_service refl

updates_config_map :
    reconcile_config_map full "ns" site start ≡ (done (again_in_5, site), after_config_map)
unfolding reconcile_config_map settle_config_map update_config_map send_config_map config_map_hash
    as_sha256 ◌>>=◌ lookup
updates_config_map = refl

reconcile_config_map-settles_example :
    reconcile_config_map full "ns" site after_config_map
    ≡ (done (finished, site), after_get config_maps (key_of "site" "ns") after_config_map)
reconcile_config_map-settles_example =
    reconcile_config_map-settles full "ns" site site site start after_config_map updates_config_map
      refl

updates_stateful_set :
    reconcile_stateful_set full "ns" workload (deployment "w") start
    ≡ (done (requeue_in 10), after_stateful_set)
unfolding reconcile_stateful_set settle_stateful_set update_stateful_set stateful_set_hash as_sha256
    ◌>>=◌ lookup
updates_stateful_set = refl

reconcile_stateful_set-settles_example :
    reconcile_stateful_set full "ns" workload (deployment "w") after_stateful_set ≡ (
      done (if is_rolling (deployment "w") workload then requeue_in 10 else finished),
      after_get stateful_sets (key_of "w" "ns") after_stateful_set,
    )
reconcile_stateful_set-settles_example =
    reconcile_stateful_set-settles full "ns" workload workload (deployment "w") start
      after_stateful_set updates_stateful_set refl

updates_budget :
    reconcile_pod_disruption_budget full budget start ≡ (done (requeue_in 10), after_budget)
unfolding reconcile_pod_disruption_budget settle_pdb update_pdb adopt_pdb pdb_hash as_sha256 ◌>>=◌
    lookup
updates_budget = refl

reconcile_pod_disruption_budget-settles_example :
    reconcile_pod_disruption_budget full budget after_budget
    ≡ (done finished, after_get pod_disruption_budgets (key_of "w-pdb" "ns") after_budget)
reconcile_pod_disruption_budget-settles_example =
    reconcile_pod_disruption_budget-settles full budget budget start after_budget updates_budget
      refl

-- The operator has reconciled the config map before, with other contents.
abbrev known : State
known = record { hash_store = ("cfg-sitens", "old") ∷ []; history = [] }

outdated :
    (config_map_hash full site == text_or_empty (lookup (config_map_key site) known.hash_store))
    ≡ false
unfolding config_map_hash as_sha256 config_map_key lookup
outdated = refl

reconcile_config_map-annotates_example :
    (sent : ConfigMap) × ((reconcile_config_map full "ns" site known).1.history
      ≡ updated (config_map sent) ∷ got config_maps (key_of "site" "ns") ∷ [])
    × (sent.contents ≡ site.contents)
    × (sent.meta.name ≡ "site")
    × (lookup cfg_v2_annotation (entries sent.meta.annotations)
        ≡ update_time full "ns" site known (lookup (config_map_key site) known.hash_store))
reconcile_config_map-annotates_example =
    reconcile_config_map-annotates full "ns" site known site refl outdated

creates_config_map :
    reconcile_config_map world "ns" site start
    ≡ (done (finished, site), (reconcile_config_map world "ns" site start).1)
unfolding reconcile_config_map settle_config_map create_config_map ◌>>=◌
creates_config_map = refl

reconcile_config_map-result_example :
    (site ≡ site)
    ⊎ ((e : Error) × (world.config_maps.get [] (key_of "site" "ns") ≡ err e)
        × (world.config_maps.create (got config_maps (key_of "site" "ns") ∷ []) site ≡ ok site))
reconcile_config_map-result_example =
    reconcile_config_map-result world "ns" site start finished site _ creates_config_map refl

publish_event-Written_example :
    let (f, t) =
      publish_event world "ns" "ConfigValidateFailed" "bad" "Warning" "ConfigMap" start in
    (f ≡ done tt)
    × (t.hash_store ≡ [])
    × (calls : List Call) × (t.history
        ≡ calls ++ got events (key_of "ConfigValidateFailed" "ns") ∷ [])
    × Written "ns" "ConfigValidateFailed" "bad" "Warning" "ConfigMap" 0 (err not_found) calls
publish_event-Written_example =
    publish_event-Written world "ns" "ConfigValidateFailed" "bad" "Warning" "ConfigMap" start
