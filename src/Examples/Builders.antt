-- ===== src/Examples/Builders.antt =====
-- The theorems on the functions that build objects, at concrete ones.
use hbase_k8s_operator.Prelude.{
  String, ◌≡◌, ◌≢◌, ◌↔◌, refl, ap, ◌==◌, pos, true, false, Option, none, some, List, inr, [], ◌∷◌,
}
use mathlib.Core.Option
use hbase_k8s_operator.GoMap.{lookup, merge, entries, or_else, GoMap}
use hbase_k8s_operator.Kube.{ConfigMap, StatefulSet, PodDisruptionBudget}
use hbase_k8s_operator.Api.{HbaseClusterDeployment, new_meta}
use hbase_k8s_operator.Build.Outcome.{Outcome, built}
use hbase_k8s_operator.Build.ConfigMap.{
  build_config_map, config_data, collect_tenant_config, add_tenant_config, without_namespace,
}
use hbase_k8s_operator.Build.ConfigMap.Overrides.{tenant_value, build_config_map-lookup}
use hbase_k8s_operator.Build.StatefulSet.{build_stateful_set, deployment_after}
use hbase_k8s_operator.Build.StatefulSet.Selectors.{
  Selects, selector-Selects-template, budget_selector, selectors_disjoint,
}
use hbase_k8s_operator.Build.StatefulSet.Complete.{IsParsable, build_stateful_set-total}
use hbase_k8s_operator.Build.Pdb.{build_pod_disruption_budget}
use hbase_k8s_operator.Reconcile.Validate.{
  validate_configuration, validate_entries, all_config, allowed_configs, is_valid_xml, is_xml,
  invalid_xml,
}
use hbase_k8s_operator.Reconcile.Validate.Exact.{
  AcceptsAll, effective, validate_configuration-exact, validate_configuration-error,
}
use hbase_k8s_operator.Examples.World.{world, configuration, bad_configuration, deployment}

-- A deployment with a budget, which gives no quantity to parse.
abbrev guarded : String → HbaseClusterDeployment
guarded name = record (deployment name) {
  pod_disruption_budget = some (record { min_available = none; max_unavailable = none });
}

parsable : (name : String) → IsParsable world (guarded name) false
parsable name = record {
  volumes = tt;
  claims = tt;
  containers = tt;
  side_cars = tt;
  init_containers = tt;
}

abbrev built_from : String → Outcome StatefulSet
built_from name =
    build_stateful_set world "c" "ns" "hbase" false configuration "7" (pos 1000) (guarded name) true

abbrev stateful_set_of : String → StatefulSet
stateful_set_of name =
    (build_stateful_set-total world "c" "ns" "hbase" false configuration "7" (pos 1000)
      (guarded name) true (parsable name)).0

is_built : (name : String) → built_from name ≡ built (stateful_set_of name)
is_built name =
    (build_stateful_set-total world "c" "ns" "hbase" false configuration "7" (pos 1000)
      (guarded name) true (parsable name)).1

selector-Selects-template_example :
    Selects (stateful_set_of "zk").spec.selector (stateful_set_of "zk").spec.template_labels
selector-Selects-template_example =
    selector-Selects-template world "c" "ns" "hbase" false configuration "7" (pos 1000)
      (guarded "zk") true (is_built "zk")

abbrev budget_of : HbaseClusterDeployment → Option PodDisruptionBudget
budget_of d = build_pod_disruption_budget "c" "ns" (deployment_after "c" "7" true d)

-- A deployment that the resource gives no labels, and its budget.
abbrev unlabelled : HbaseClusterDeployment
unlabelled = record (guarded "zk") { labels = none }

unlabelled-IsParsable : IsParsable world unlabelled false
unlabelled-IsParsable = record {
  volumes = tt;
  claims = tt;
  containers = tt;
  side_cars = tt;
  init_containers = tt;
}

abbrev unlabelled_outcome : Outcome StatefulSet
unlabelled_outcome =
    build_stateful_set world "c" "ns" "hbase" false configuration "7" (pos 1000) unlabelled true

abbrev unlabelled_set : StatefulSet
unlabelled_set =
    (build_stateful_set-total world "c" "ns" "hbase" false configuration "7" (pos 1000) unlabelled
      true unlabelled-IsParsable).0

unlabelled_is_built : unlabelled_outcome ≡ built unlabelled_set
unlabelled_is_built =
    (build_stateful_set-total world "c" "ns" "hbase" false configuration "7" (pos 1000) unlabelled
      true unlabelled-IsParsable).1

abbrev budget_with : GoMap → PodDisruptionBudget
budget_with selector = record {
  meta =
      new_meta "zk-pdb" "ns"
        (some (("app.kubernetes.io/name", "c") ∷ ("app.kubernetes.io/instance", "pdb-zk") ∷ []));
  selector = selector;
  min_available = none;
  max_unavailable = none;
}

has_no_selector : budget_of unlabelled ≡ some (budget_with none)
unfolding build_pod_disruption_budget deployment_after
has_no_selector = refl

-- Its budget has no selector labels.
budget_selector_example :
    (budget_with none).selector
    ≡ Option.map (λ _. unlabelled_set.spec.template_labels) unlabelled.labels
budget_selector_example =
    budget_selector world "c" "ns" "hbase" false configuration "7" (pos 1000) unlabelled true
      unlabelled_is_built has_no_selector

has_budget :
    budget_of (guarded "zk")
    ≡ some (budget_with (deployment_after "c" "7" true (guarded "zk")).labels)
unfolding build_pod_disruption_budget deployment_after
has_budget = refl

-- The budget of a deployment with labels selects by those of its pods.
labelled_selector :
    (deployment_after "c" "7" true (guarded "zk")).labels
    ≡ some (stateful_set_of "zk").spec.template_labels
labelled_selector =
    budget_selector world "c" "ns" "hbase" false configuration "7" (pos 1000) (guarded "zk") true
      (is_built "zk") has_budget

zk_nn : ◌≢◌ {A = String} "zk" "nn"
zk_nn e = let h : true ≡ false = ap (λ s. "zk" == s) e in cc

selectors_disjoint_example :
    ¬ Selects (stateful_set_of "nn").spec.selector (stateful_set_of "zk").spec.template_labels
selectors_disjoint_example =
    selectors_disjoint world "c" "c" "ns" "ns" "hbase" "hbase" false false configuration
      configuration "7" "7" (pos 1000) (pos 1000) (guarded "zk") (guarded "nn") true true
      (is_built "zk") (is_built "nn") (inr (refl, refl, zk_nn))

-- Two entries for the namespace, the later of which wins, and one for another.
abbrev overrides : List GoMap
overrides =
    some (("namespace", "ns") ∷ ("hbase-site.xml", "<first/>") ∷ [])
    ∷ some (("namespace", "ns") ∷ ("hbase-site.xml", "<second/>") ∷ [])
    ∷ some (("namespace", "tenant") ∷ ("hbase-site.xml", "<third/>") ∷ [])
    ∷ []

abbrev overridden : ConfigMap
overridden = build_config_map "cfg" "ns" (some (("hbase-site.xml", "<common/>") ∷ [])) overrides

build_config_map-lookup_example :
    lookup "hbase-site.xml" (entries overridden.contents)
    ≡ or_else
        (tenant_value "ns" "hbase-site.xml" overrides)
        (lookup "hbase-site.xml" (("hbase-site.xml", "<common/>") ∷ []))
build_config_map-lookup_example =
    build_config_map-lookup "cfg" "ns" (some (("hbase-site.xml", "<common/>") ∷ [])) overrides
      "hbase-site.xml"

-- The later entry of the namespace wins.
overridden_site : lookup "hbase-site.xml" (entries overridden.contents) ≡ some "<second/>"
unfolding build_config_map lookup config_data merge collect_tenant_config add_tenant_config
    without_namespace
overridden_site = refl

validate_configuration-exact_example :
    (validate_configuration world configuration ≡ none) ↔ AcceptsAll world (effective configuration)
validate_configuration-exact_example = validate_configuration-exact world configuration

is_refused : validate_configuration world bad_configuration ≡ some (invalid_xml "hbase-site.xml")
unfolding validate_configuration all_config lookup validate_entries merge allowed_configs
    is_valid_xml
is_refused = refl

validate_configuration-error_example :
    (key contents : String) × (effective bad_configuration key ≡ some contents)
    × (is_xml (lookup key allowed_configs) ≡ true)
    × (is_valid_xml world contents ≡ false)
    × (invalid_xml "hbase-site.xml" ≡ invalid_xml key)
validate_configuration-error_example =
    validate_configuration-error world bad_configuration (invalid_xml "hbase-site.xml") is_refused
