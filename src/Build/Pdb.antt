-- ===== src/Build/Pdb.antt =====
-- operator/controllers/utils.go: buildPodDisruptionBudget.
use hbase_k8s_operator.Prelude.{String, ◌⧺◌, Option, none, some, [], ◌∷◌}
use hbase_k8s_operator.Api.{IntOrString, HbaseClusterDeployment, HBasePodDisruptionBudget, new_meta}
use hbase_k8s_operator.Kube.{PodDisruptionBudget}

-- spec.MaxUnavailable is set only where there is no MinAvailable.
abbrev limit_unavailable : Option IntOrString → Option IntOrString → Option IntOrString
limit_unavailable none max_unavailable = max_unavailable
limit_unavailable (some _) max_unavailable = none

abbrev budget :
    String → String → HbaseClusterDeployment → HBasePodDisruptionBudget → PodDisruptionBudget
budget name namespace d b = record {
  meta = new_meta (d.name ⧺ "-pdb") namespace (
      some
        (("app.kubernetes.io/name", name) ∷ ("app.kubernetes.io/instance", "pdb-" ⧺ d.name) ∷ []));
  selector = d.labels;
  min_available = b.min_available;
  max_unavailable = limit_unavailable b.min_available b.max_unavailable;
}

-- `none` is the nil pointer.
unfoldable pub build_pod_disruption_budget :
    String → String → HbaseClusterDeployment → Option PodDisruptionBudget
build_pod_disruption_budget name namespace d = elim d.pod_disruption_budget [
  | none ↦ none
  | some b ↦ some (budget name namespace d b)
]
