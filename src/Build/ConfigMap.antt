-- ===== src/Build/ConfigMap.antt =====
-- operator/controllers/utils.go: buildConfigMap, which lets the entries that name a tenant's
-- namespace override the configuration that is common to all.
pub mod Overrides
use hbase_k8s_operator.Prelude.{String, Option, none, some, List, [], ◌∷◌, ◌==◌, if◌then◌else◌}
use hbase_k8s_operator.GoMap.{Map, GoMap, entries, lookup, insert, merge}
use hbase_k8s_operator.Api.{new_meta}
use hbase_k8s_operator.Kube.{ConfigMap}

-- The key of an entry that holds the namespace which it is for.
abbrev pub namespace_key : String
namespace_key = "namespace"

-- m[k], which is "" where there is no entry
abbrev pub text_or_empty : Option String → String
text_or_empty none = ""
text_or_empty (some v) = v

-- m[k], which is an empty map where there is no entry
abbrev pub map_or_empty : Option (Map String) → Map String
map_or_empty none = []
map_or_empty (some m) = m

-- The entries that the loop does not skip: those with k != "namespace".
unfoldable pub without_namespace : Map String → Map String
without_namespace [] = []
without_namespace ((k, v) ∷ m) =
    let rest = without_namespace m in if k == namespace_key then rest else (k, v) ∷ rest

-- elem["namespace"]
abbrev pub namespace_of : GoMap → String
namespace_of elem = text_or_empty (lookup namespace_key (entries elem))

-- The body of the first loop; `tenantCfg[ns]` is made where it is missing.
unfoldable pub add_tenant_config : Map (Map String) → GoMap → Map (Map String)
add_tenant_config tenant_cfg elem =
    insert (namespace_of elem)
      (merge (map_or_empty (lookup (namespace_of elem) tenant_cfg))
        (without_namespace (entries elem)))
      tenant_cfg

-- The first loop, over `tenantConfig`.
unfoldable pub collect_tenant_config : Map (Map String) → List GoMap → Map (Map String)
collect_tenant_config tenant_cfg [] = tenant_cfg
collect_tenant_config tenant_cfg (elem ∷ rest) =
    collect_tenant_config (add_tenant_config tenant_cfg elem) rest

-- The two loops that fill `newConfig`.
unfoldable pub config_data : String → GoMap → List GoMap → Map String
config_data namespace config tenant_config =
    merge (merge [] (entries config))
      (map_or_empty (lookup namespace (collect_tenant_config [] tenant_config)))

unfoldable pub build_config_map : String → String → GoMap → List GoMap → ConfigMap
build_config_map cfg_name namespace config tenant_config = record {
  meta = new_meta cfg_name namespace none;
  contents = some (config_data namespace config tenant_config);
}
