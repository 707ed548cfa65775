-- ===== src/Controllers/Progress/Rollouts.antt =====
-- The reconciliation of a StatefulSet makes progress on a cooperative server, also while it waits: time
-- passes, and rollouts end.
use hbase_k8s_operator.Prelude.{
  String, ℕ, ◌≤◌, ◌≡◌, refl, ◌∙◌, true, false, Bool-cases, inl, inr, List, length, arith,
}
use native.Mathlib.Decide.{dec_lt}
use hbase_k8s_operator.Api.{NamespacedName, HbaseClusterDeployment}
use hbase_k8s_operator.Kube.{StatefulSet, stateful_sets, stateful_set}
use hbase_k8s_operator.Env.{Env, Call, ok, got, created, updated}
use hbase_k8s_operator.Action.{State, ◌>>=◌, after_get, finished, requeue_in}
use hbase_k8s_operator.Reconcile.StatefulSets.{
  reconcile_stateful_set, settle_stateful_set, create_stateful_set, update_stateful_set,
  wait_for_stateful_set, is_rolling,
}
use hbase_k8s_operator.Controllers.Progress.Server.{Presence, key_of_meta, IsCooperative}
use hbase_k8s_operator.Controllers.Progress.Measure.{
  Want, IsWanted, is_recorded, is_consistent, called-le, waited-lt, created-lt, updated-lt,
}
use hbase_k8s_operator.Controllers.Progress.Advance.{Advances}
use hbase_k8s_operator.Controllers.Progress.Objects.{want_stateful_set, Moves, after_read}

-- From some call on, the StatefulSet of the deployment is found rolled out.
abbrev pub RollsOut : Env → ℕ → HbaseClusterDeployment → NamespacedName → Type 0
RollsOut env patience d key =
    (h : List Call) (existing : StatefulSet)
    → patience ≤ length h
    → env.stateful_sets.get h key ≡ ok existing
    → is_rolling d existing ≡ false

module _ (env : Env) (has : Presence) (c : IsCooperative env has) (patience : ℕ) (ws : List Want)
    (consistent : is_consistent ws ws ≡ true) (ss : StatefulSet)
    (w : IsWanted (want_stateful_set env ss) ws) (d : HbaseClusterDeployment) where
  update-Moves :
      (existing : StatefulSet) (s : State)
      → has stateful_sets (key_of_meta ss.meta) s.history ≡ true
      → is_recorded (want_stateful_set env ss) s.hash_store ≡ false
      → Moves env has c patience ws consistent s (settle_stateful_set env ss d (ok existing) s)
  unfolding settle_stateful_set update_stateful_set ◌>>=◌
  update-Moves existing s there stale =
      let (b, accepted) = c.on_stateful_sets.updates s.history ss there in
      let lt =
        updated-lt has c.stays patience ws consistent (want_stateful_set env ss)
          (updated (stateful_set ss)) s w stale in
      rw (stale, accepted) (requeue_in 10, refl, omega arith, λ n. lt)

  create-Moves :
      (s : State)
      → has stateful_sets (key_of_meta ss.meta) s.history ≡ false
      → Moves env has c patience ws consistent s (create_stateful_set env ss s)
  unfolding create_stateful_set ◌>>=◌
  create-Moves s missing =
      let (b, accepted, there) = c.on_stateful_sets.creates s.history ss missing in
      let lt =
        created-lt has c.stays patience ws consistent (want_stateful_set env ss)
          (created (stateful_set ss)) s w missing there in
      rw accepted (requeue_in 5, refl, omega arith, λ n. lt)

  -- Where the hash is recorded: the rollout is over, or there is time left for it.
  wait-Moves :
      (key : NamespacedName) (existing : StatefulSet) (s : State)
      → RollsOut env patience d key
      → env.stateful_sets.get s.history key ≡ ok existing
      → is_recorded (want_stateful_set env ss) s.hash_store ≡ true
      → Moves env has c patience ws consistent s
          (settle_stateful_set env ss d (ok existing) (after_get stateful_sets key s))
  unfolding settle_stateful_set wait_for_stateful_set ◌>>=◌
  wait-Moves key existing s rolls found fresh =
      let le = called-le has c.stays patience ws consistent (got stateful_sets key) s in
      elim (Bool-cases (is_rolling d existing)) [
        | inl rolling ↦ elim (dec_lt (length s.history) patience) [
          | yes early ↦
              let lt =
                waited-lt has c.stays patience ws consistent (got stateful_sets key) s early in
              rw (fresh, rolling) (requeue_in 10, refl, le, λ n. lt)
          | no late ↦ let over = rolls s.history existing (omega arith) found in cc
        ]
        | inr over ↦ rw (fresh, over) (finished, refl, le, λ n. cc)
      ]

  pub reconcile_stateful_set-Advances :
      (namespace : String)
      → key_of_meta ss.meta ≡ record { name = d.name; namespace = namespace }
      → RollsOut env patience d (record { name = d.name; namespace = namespace })
      → Advances has patience ws (reconcile_stateful_set env namespace ss d)
  unfolding reconcile_stateful_set settle_stateful_set ◌>>=◌
  reconcile_stateful_set-Advances namespace same rolls = record {
    at = λ s.
        let key : NamespacedName = record { name = d.name; namespace = namespace } in
        let next = after_get stateful_sets key s in
        elim (Bool-cases (has stateful_sets key s.history)) [
          | inl there ↦
              let (existing, e) = c.on_stateful_sets.found s.history key there in
              elim (Bool-cases (is_recorded (want_stateful_set env ss) s.hash_store)) [
                | inl fresh ↦ rw e (wait-Moves key existing s rolls e fresh)
                | inr stale ↦ rw e (
                    after_read env has c patience ws consistent s _ _ (got stateful_sets key) (
                      update-Moves existing next
                        (rw same (c.reading stateful_sets stateful_sets key key s.history ∙ there))
                        stale))
              ]
          | inr missing ↦
              let (x, e, absent) = c.on_stateful_sets.missing s.history key missing in
              rw (e, absent)
                (after_read env has c patience ws consistent s _ _ (got stateful_sets key) (
                  create-Moves next
                    (rw same (c.reading stateful_sets stateful_sets key key s.history ∙ missing))))
        ];
  }
