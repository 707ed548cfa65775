-- ===== src/Build/StatefulSet/Selectors.antt =====
-- Which pods the selectors of StatefulSets and disruption budgets match.
use hbase_k8s_operator.Prelude.{
  String, ◌≡◌, refl, ◌∙◌, sym, ◌≢◌, ◌⊎◌, inl, inr, Bool, true, false, none, some, ℤ, arith,
}
use mathlib.Core.Option
use mathlib.Core.Option.{some-injective}
use hbase_k8s_operator.GoMap.{Map, GoMap, lookup, insert, merge, lookup-merge, lookup-insert_self}
use hbase_k8s_operator.Api.{HbaseClusterConfiguration, HbaseClusterDeployment}
use hbase_k8s_operator.Kube.{StatefulSet, PodDisruptionBudget}
use hbase_k8s_operator.Env.{Env}
use hbase_k8s_operator.Build.Outcome.{built}
use hbase_k8s_operator.Build.Labels.{
  cr_label, stateful_set_label, get_shared_labels_map, labels_for_stateful_set,
  match_labels_for_multi_stateful_set, template_labels_for_multi_stateful_set,
}
use hbase_k8s_operator.Build.Pdb.{build_pod_disruption_budget}
use hbase_k8s_operator.Build.StatefulSet.{
  build_stateful_set, template_labels, selector_match_labels, deployment_after, seen_by_caller,
}

seen_by_caller-map :
    (m : GoMap) (written : Map String) → seen_by_caller m written ≡ Option.map (λ _. written) m
seen_by_caller-map none written = refl
seen_by_caller-map (some _) written = refl

-- A label selector matches a pod with these labels.
abbrev pub Selects : Map String → Map String → Type 0
Selects selector labels = (k v : String) → lookup k selector ≡ some v → lookup k labels ≡ some v

Selects-merge : (into from : Map String) → Selects from (merge into from)
Selects-merge into from k v e = rw (lookup-merge, e)

template-Selects :
    (name : String) (d : HbaseClusterDeployment) (is_multi : Bool)
    → Selects (selector_match_labels name d is_multi) (template_labels name d is_multi)
unfolding template_labels selector_match_labels match_labels_for_multi_stateful_set
    template_labels_for_multi_stateful_set
template-Selects name d true = Selects-merge _ _
template-Selects name d false = Selects-merge _ _

module _ (env : Env) (name namespace base_image : String) (is_bootstrap : Bool)
    (c : HbaseClusterConfiguration) (version : String) (fsgroup : ℤ) where
  -- The labels of a StatefulSet that has been built.
  built_labels :
      (d : HbaseClusterDeployment) (is_multi : Bool) {ss : StatefulSet}
      → build_stateful_set env name namespace base_image is_bootstrap c version fsgroup d is_multi
        ≡ built ss
      → (ss.spec.selector ≡ selector_match_labels name d is_multi)
        × (ss.spec.template_labels ≡ template_labels name d is_multi)
  unfolding build_stateful_set
  built_labels d is_multi h = ground arith

  -- Where buildStatefulSet builds a StatefulSet, its selector matches the labels of its own pod
  -- template, whatever labels the deployment has, for both kinds of selectors.
  pub selector-Selects-template :
      (d : HbaseClusterDeployment) (is_multi : Bool) {ss : StatefulSet}
      → build_stateful_set env name namespace base_image is_bootstrap c version fsgroup d is_multi
        ≡ built ss
      → Selects ss.spec.selector ss.spec.template_labels
  selector-Selects-template d is_multi h =
      let l = built_labels d is_multi h in rw (l.0, l.1) (template-Selects name d is_multi)

  -- The budget that a reconciliation builds for a deployment after its StatefulSet selects by all the
  -- labels of the StatefulSet's pod template, if the resource gives the deployment labels. If it
  -- gives none, then the budget has no labels to select by.
  pub budget_selector :
      (d : HbaseClusterDeployment) (is_multi : Bool) {ss : StatefulSet} {pdb : PodDisruptionBudget}
      → build_stateful_set env name namespace base_image is_bootstrap c version fsgroup d is_multi
        ≡ built ss
      → build_pod_disruption_budget name namespace (deployment_after name version is_multi d)
        ≡ some pdb
      → pdb.selector ≡ Option.map (λ _. ss.spec.template_labels) d.labels
  unfolding build_pod_disruption_budget deployment_after
  budget_selector d is_multi h k =
      let l = built_labels d is_multi h in
      rw l.1 (ground (arith, seen_by_caller-map d.labels (template_labels name d is_multi)))

-- The label of its StatefulSet on a pod of a cluster.
stateful_set_label-selector :
    (name : String) (d : HbaseClusterDeployment)
    → lookup stateful_set_label (selector_match_labels name d true) ≡ some d.name
unfolding selector_match_labels match_labels_for_multi_stateful_set labels_for_stateful_set
stateful_set_label-selector name d = lookup-insert_self _ _ _

cr_label-selector :
    (name : String) (d : HbaseClusterDeployment) (is_multi : Bool)
    → lookup cr_label (selector_match_labels name d is_multi) ≡ some name
unfolding selector_match_labels match_labels_for_multi_stateful_set lookup insert
    get_shared_labels_map
cr_label-selector name d true = refl
cr_label-selector name d false = refl

-- Two StatefulSets share no pod, so that the selector of the one does not match the pod template of
-- the other, if their custom resources' names differ, whether clusters, standalone instances or
-- tenants; or if their own names differ and neither is a tenant's (isMultiStatefulSet is true for
-- clusters and standalone instances).
pub selectors_disjoint :
    (env : Env) (name1 name2 namespace1 namespace2 image1 image2 : String)
    (bootstrap1 bootstrap2 : Bool) (c1 c2 : HbaseClusterConfiguration) (version1 version2 : String)
    (fsgroup1 fsgroup2 : ℤ) (d1 d2 : HbaseClusterDeployment) (is_multi1 is_multi2 : Bool)
    {ss1 ss2 : StatefulSet}
    → build_stateful_set env name1 namespace1 image1 bootstrap1 c1 version1 fsgroup1 d1 is_multi1
      ≡ built ss1
    → build_stateful_set env name2 namespace2 image2 bootstrap2 c2 version2 fsgroup2 d2 is_multi2
      ≡ built ss2
    → (name1 ≢ name2) ⊎ ((is_multi1 ≡ true) × (is_multi2 ≡ true) × (d1.name ≢ d2.name))
    → ¬ Selects ss2.spec.selector ss1.spec.template_labels
selectors_disjoint env name1 name2 namespace1 namespace2 image1 image2 bootstrap1 bootstrap2 c1 c2
      version1 version2 fsgroup1 fsgroup2 d1 d2 is_multi1 is_multi2 h1 h2 differ selects =
    let l1 =
      built_labels env name1 namespace1 image1 bootstrap1 c1 version1 fsgroup1 d1 is_multi1 h1 in
    let l2 =
      built_labels env name2 namespace2 image2 bootstrap2 c2 version2 fsgroup2 d2 is_multi2 h2 in
    let both : Selects (selector_match_labels name2 d2 is_multi2)
        (template_labels name1 d1 is_multi1) =
      rw (l1.1, l2.0) at selects in
    elim differ [
      | inl crs ↦ crs (
          some-injective _ _ (
            sym (template-Selects name1 d1 is_multi1 _ _ (cr_label-selector name1 d1 is_multi1))
            ∙ both _ _ (cr_label-selector name2 d2 is_multi2)))
      | inr (m1, m2, names) ↦ names (
          some-injective _ _ (
            sym (template-Selects name1 d1 true _ _ (stateful_set_label-selector name1 d1))
            ∙ (rw (m1, m2) at both) _ _ (stateful_set_label-selector name2 d2)))
    ]
