-- ===== src/Watch.antt =====
-- operator/main.go: the namespaces that the operator watches. os.Getenv, strings.Split with "," and
-- strings.TrimSpace are parameters.
pub mod Exact
use hbase_k8s_operator.Prelude.{
  String, ◌⧺◌, Option, none, some, List, [], ◌∷◌, ◌++◌, ◌==◌, false, if◌then◌else◌,
}
use hbase_k8s_operator.GoMap.{Map, insert}
use hbase_k8s_operator.Env.{Error}

pub record Shell : Type 0 where
  pub getenv : String → String
  pub split_comma : String → List String
  pub trim_space : String → String

abbrev pub watch_namespace_env_var : String
watch_namespace_env_var = "WATCH_NAMESPACE"

abbrev pub watch_additional_ns : String
watch_additional_ns = "ADDITIONAL_WATCH_NAMESPACES"

-- for i := range ns { ns[i] = strings.TrimSpace(ns[i]) }
unfoldable pub trim_all : Shell → List String → List String
trim_all sh [] = []
trim_all sh (n ∷ ns) = sh.trim_space n ∷ trim_all sh ns

-- len(ns) == 0
abbrev pub error_if_empty : List String → Option Error
error_if_empty [] =
    some (record { message = watch_namespace_env_var ⧺ " must be set"; is_not_found = false })
error_if_empty (n ∷ ns) = none

unfoldable pub get_watch_namespaces : Shell → List String × Option Error
unfolding trim_all
get_watch_namespaces sh =
    let additional = sh.getenv watch_additional_ns in
    let ns = if additional == "" then [] else trim_all sh (sh.split_comma additional) in
    let namespace = sh.getenv watch_namespace_env_var in
    let all = if namespace == "" then ns else ns ++ namespace ∷ [] in (all, error_if_empty all)

-- The loop of convertToNamespaceMap; cache.Config{} carries nothing.
unfoldable pub add_namespaces : Map (Unit {0}) → List String → Map (Unit {0})
add_namespaces ns_map [] = ns_map
add_namespaces ns_map (ns ∷ rest) = add_namespaces (insert ns tt ns_map) rest

unfoldable pub convert_to_namespace_map : List String → Map (Unit {0})
unfolding add_namespaces
convert_to_namespace_map namespaces = add_namespaces [] namespaces
