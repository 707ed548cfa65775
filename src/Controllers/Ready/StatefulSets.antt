-- ===== src/Controllers/Ready/StatefulSets.antt =====
-- reconcileStatefulSet, where it ends with the empty result and no error.
use hbase_k8s_operator.Prelude.{
  String, ◌≡◌, true, false, Bool-cases, inl, inr, arith, eq_iff, eq_ℤ_sound, ◌==◌,
}
use hbase_k8s_operator.GoMap.{lookup}
use hbase_k8s_operator.Api.{NamespacedName, HbaseClusterDeployment}
use hbase_k8s_operator.Kube.{StatefulSet, stateful_sets}
use hbase_k8s_operator.Env.{Env, Error, Answer-cases, ok, err}
use hbase_k8s_operator.Action.{State, ◌>>=◌, after_get, either_way}
use hbase_k8s_operator.Build.ConfigMap.{text_or_empty}
use hbase_k8s_operator.Reconcile.Hash.{stateful_set_key, stateful_set_hash}
use hbase_k8s_operator.Reconcile.StatefulSets.{
  reconcile_stateful_set, settle_stateful_set, create_stateful_set, update_stateful_set,
  wait_for_stateful_set, is_rolling,
}
use hbase_k8s_operator.Controllers.Ready.Finish.{Finishes, again}

module _ (env : Env) where
  create-unfinished : (ss : StatefulSet) (s u : State) → ¬ Finishes (create_stateful_set env ss) s u
  unfolding create_stateful_set ◌>>=◌
  create-unfinished ss s u h = let e = h.ends in let k = h.succeeds in ground arith

  update-unfinished : (ss : StatefulSet) (s u : State) → ¬ Finishes (update_stateful_set env ss) s u
  unfolding update_stateful_set ◌>>=◌
  update-unfinished ss s u h = let e = h.ends in let k = h.succeeds in ground arith

  missing-unfinished :
      (ss : StatefulSet) (d : HbaseClusterDeployment) (e : Error) (s u : State)
      → ¬ Finishes (settle_stateful_set env ss d (err e)) s u
  unfolding settle_stateful_set
  missing-unfinished ss d e s u =
      either_way (λ m. ¬ Finishes m s u) e.is_not_found _ _ (create-unfinished ss s u)
        (λ h. let q = h.ends in let k = h.succeeds in ground arith)

  wait-Finishes :
      (d : HbaseClusterDeployment) (existing : StatefulSet) (s u : State)
      → Finishes (wait_for_stateful_set d existing) s u
      → (is_rolling d existing ≡ false) × (u ≡ s)
  unfolding wait_for_stateful_set
  wait-Finishes d existing s u h = let q = h.ends in let k = h.succeeds in ground arith

  settle-Finishes :
      (ss : StatefulSet) (d : HbaseClusterDeployment) (existing : StatefulSet) (s u : State)
      → Finishes (settle_stateful_set env ss d (ok existing)) s u
      → ((stateful_set_hash env ss == text_or_empty (lookup (stateful_set_key ss) s.hash_store))
          ≡ true)
        × (is_rolling d existing ≡ false)
        × (u ≡ s)
  unfolding settle_stateful_set ◌>>=◌
  settle-Finishes ss d existing s u h =
      let test =
        stateful_set_hash env ss == text_or_empty (lookup (stateful_set_key ss) s.hash_store) in
      elim (Bool-cases test) [
        | inl e ↦
            let (rolled, same) = wait-Finishes d existing s u (again h (rw e at h.ends)) in
            (e, rolled, same)
        | inr e ↦ absurd (update-unfinished ss s u (again h (rw e at h.ends)))
      ]

  rolled_out :
      (d : HbaseClusterDeployment) (existing : StatefulSet)
      → is_rolling d existing ≡ false
      → (existing.status.ready_replicas ≡ d.size)
        × (existing.status.current_revision ≡ existing.status.update_revision)
  unfolding is_rolling
  rolled_out d existing h = (
    eq_ℤ_sound _ _ (ground arith),
    ground (arith, eq_iff existing.status.current_revision existing.status.update_revision),
  )

  -- What is known when reconcileStatefulSet ends with the empty result and no error.
  pub reconcile_stateful_set-Finishes :
      (namespace : String) (ss : StatefulSet) (d : HbaseClusterDeployment) (s u : State)
      → Finishes (reconcile_stateful_set env namespace ss d) s u
      → (existing : StatefulSet) × (env.stateful_sets.get s.history
            (record { name = d.name; namespace = namespace })
          ≡ ok existing)
        × (text_or_empty (lookup (stateful_set_key ss) s.hash_store) ≡ stateful_set_hash env ss)
        × (existing.status.ready_replicas ≡ d.size)
        × (existing.status.current_revision ≡ existing.status.update_revision)
        × (u ≡ after_get stateful_sets (record { name = d.name; namespace = namespace }) s)
  unfolding reconcile_stateful_set ◌>>=◌
  reconcile_stateful_set-Finishes namespace ss d s u h =
      let key : NamespacedName = record { name = d.name; namespace = namespace } in
      elim (Answer-cases (env.stateful_sets.get s.history key)) [
        | inl (existing, e) ↦
            let (test, rolled, same) =
              settle-Finishes ss d existing (after_get stateful_sets key s) u
                (again h (rw e at h.ends)) in
            (
              existing,
              e,
              ground (
                arith,
                test,
                eq_iff (stateful_set_hash env ss)
                    (text_or_empty (lookup (stateful_set_key ss) s.hash_store)),
              ),
              (rolled_out d existing rolled).0,
              (rolled_out d existing rolled).1,
              same,
            )
        | inr (x, e) ↦
            absurd (
              missing-unfinished ss d x (after_get stateful_sets key s) u
                (again h (rw e at h.ends)))
      ]
