-- ===== src/Build/ConfigMap/Overrides.antt =====
-- What a config map holds: the common configuration, and over it what the tenant's entries say.
use hbase_k8s_operator.Prelude.{
  String, ◌≡◌, refl, sym, ap, ◌∙◌, List, [], ◌∷◌, Option, none, arith, eq_iff, ◌==◌, if◌then◌else◌,
  Bool-cases, inl, inr,
}
use mathlib.Core.Path.{ap₂}
use hbase_k8s_operator.GoMap.{
  Map, GoMap, entries, or_else, lookup, lookup-insert, lookup-merge, or_else-none, or_else_assoc,
}
use hbase_k8s_operator.Build.ConfigMap.{
  namespace_key, namespace_of, map_or_empty, without_namespace, add_tenant_config,
  collect_tenant_config, config_data, build_config_map,
}

-- The value that the entries give a key in a namespace: that of the last entry for the namespace that
-- has the key. The key "namespace" is none of theirs.
abbrev pub tenant_value : String → String → List GoMap → Option String
tenant_value namespace k [] = none
tenant_value namespace k (elem ∷ rest) = or_else (tenant_value namespace k rest) (
    if namespace == namespace_of elem
    then (if k == namespace_key then none else lookup k (entries elem))
    else none)

lookup-without_namespace :
    (k : String) (m : Map String)
    → lookup k (without_namespace m) ≡ (if k == namespace_key then none else lookup k m)
unfolding lookup without_namespace
lookup-without_namespace k [] = ground arith
lookup-without_namespace k ((j, v) ∷ m) = ground (
  arith,
  lookup-without_namespace k m,
  eq_iff k namespace_key,
  eq_iff j namespace_key,
  eq_iff k j,
)

-- One round of the loop over the entries.
lookup-add_tenant_config :
    (namespace k : String) (cfg : Map (Map String)) (elem : GoMap)
    → lookup k (map_or_empty (lookup namespace (add_tenant_config cfg elem)))
      ≡ or_else
          (if namespace == namespace_of elem
            then (if k == namespace_key then none else lookup k (entries elem))
            else none)
          (lookup k (map_or_empty (lookup namespace cfg)))
unfolding add_tenant_config
lookup-add_tenant_config namespace k cfg elem = elim (Bool-cases (namespace == namespace_of elem)) [
  | inl e ↦
      rw (lookup-insert, e, lookup-merge, lookup-without_namespace)
        (ap
          (λ ns.
            or_else (if k == namespace_key then none else lookup k (entries elem))
              (lookup k (map_or_empty (lookup ns cfg))))
          (sym ((eq_iff namespace (namespace_of elem)).0 e)))
  | inr e ↦ rw (lookup-insert, e)
]

lookup-collect_tenant_config :
    (namespace k : String) (cfg : Map (Map String)) (elems : List GoMap)
    → lookup k (map_or_empty (lookup namespace (collect_tenant_config cfg elems)))
      ≡ or_else (tenant_value namespace k elems) (lookup k (map_or_empty (lookup namespace cfg)))
unfolding collect_tenant_config
lookup-collect_tenant_config namespace k cfg [] = refl
lookup-collect_tenant_config namespace k cfg (elem ∷ rest) =
    lookup-collect_tenant_config namespace k (add_tenant_config cfg elem) rest
    ∙ ap (or_else (tenant_value namespace k rest)) (lookup-add_tenant_config namespace k cfg elem)
    ∙ sym (or_else_assoc (tenant_value namespace k rest) _ _)

-- The config map that is built for a namespace holds, under each key, what the last tenant entry for
-- that namespace which has the key gives it, if there is one and the key is not "namespace"; and
-- otherwise what the common configuration has under the key, or nothing.
pub build_config_map-lookup :
    (name namespace : String) (config : GoMap) (tenants : List GoMap) (k : String)
    → lookup k (entries (build_config_map name namespace config tenants).contents)
      ≡ or_else (tenant_value namespace k tenants) (lookup k (entries config))
unfolding build_config_map config_data lookup
build_config_map-lookup name namespace config tenants k =
    rw (lookup-merge, lookup-merge, lookup-collect_tenant_config namespace k [] tenants)
      (ap₂ or_else (or_else-none _) (or_else-none _))
