-- ===== src/Controllers/Calls/Standalone.antt =====
-- How many calls of the client the Reconcile method of a standalone instance makes.
use hbase_k8s_operator.Prelude.{ℕ, ◌+◌, ◌≤◌, refl, Bool-cases, inl, inr, arith, if◌then◌else◌}
use hbase_k8s_operator.Api.{NamespacedName, HbaseStandalone}
use hbase_k8s_operator.Kube.{ConfigMap, hbase_standalones}
use hbase_k8s_operator.Env.{Env, Answer-cases}
use hbase_k8s_operator.Action.{
  State, Action, Flow, done, panicked, Reply, continue, pure, is_finished, ◌>>=◌, after_get,
}
use hbase_k8s_operator.Controllers.Contract.{reply_of}
use hbase_k8s_operator.Controllers.Steps.{apply_config_map}
use hbase_k8s_operator.Controllers.Standalone.{
  apply_standalone_objects, apply_standalone, reconcile_standalone, standalone_owner,
}
use hbase_k8s_operator.Controllers.Calls.Cost.{
  Spent, Spent-call, Costs, or_return-Costs, failed-Spent, after_success,
}
use hbase_k8s_operator.Controllers.Calls.Parts.{
  reconcile_service-Costs, reconcile_config_map-Spent, apply_config-Costs, validate_or_return-Costs,
  apply_deployment-Costs,
}

module _ (n k n' k' most : ℕ) (first_fails : k ≤ most) (second_fails : n + k' ≤ most)
    (rest : ConfigMap → Action Reply) (c : (cfg : ConfigMap) → Costs n' k' (rest cfg)) where
  -- A config map that is reconciled, and what its controller does next.
  with_config-Spent :
      (s t : State) (f : Flow (Reply × ConfigMap))
      → Spent n k s (reply_of f) t
      → let (g, u) = continue f (λ (r, cfg). if is_finished r then rest cfg else pure r) t in
        Spent (n + n') most s g u
  with_config-Spent s t panicked h =
      failed-Spent n k n' k' most first_fails second_fails s t panicked refl h
  with_config-Spent s t (done (r, cfg)) h = elim (Bool-cases (is_finished r)) [
    | inl e ↦
        rw e (after_success n k n' k' most first_fails second_fails s t _ r _ e h ((c cfg).at t))
    | inr e ↦ rw e (failed-Spent n k n' k' most first_fails second_fails s t (done r) e h)
  ]

module _ (env : Env) where
  apply_standalone_objects-Costs :
      (standalone : HbaseStandalone) → Costs 6 7 (apply_standalone_objects env standalone)
  unfolding apply_standalone_objects apply_config_map ◌>>=◌
  apply_standalone_objects-Costs standalone =
      or_return-Costs 2 2 4 5 7 (omega arith) (omega arith) _ _
        (apply_config-Costs env (standalone_owner standalone) _ _ _ _)
        (record {
          at = λ s.
              with_config-Spent 2 2 2 3 5 (omega arith) (omega arith) _
                (λ cfg. apply_deployment-Costs env _ _ _) s _ _
                (reconcile_config_map-Spent env _ _ s);
        })

  apply_standalone-Costs :
      (standalone : HbaseStandalone) → Costs 8 9 (apply_standalone env standalone)
  unfolding apply_standalone
  apply_standalone-Costs standalone =
      or_return-Costs 2 4 6 7 9 (omega arith) (omega arith) _ _ (reconcile_service-Costs env _ _) (
        validate_or_return-Costs env 6 7 _ _ _ (omega arith)
          (apply_standalone_objects-Costs standalone))

  -- A Reconcile of a standalone instance makes at most 9 calls of the client if it succeeds, and at
  -- most 10 if it does not, whatever the server answers and however large the instance is.
  pub reconcile_standalone-Spent :
      (req : NamespacedName) (s : State)
      → let (f, t) = reconcile_standalone env req s in Spent 9 10 s f t
  unfolding reconcile_standalone ◌>>=◌
  reconcile_standalone-Spent req s = elim (Answer-cases (env.get_hbase_standalone s.history req)) [
    | inl (standalone, e) ↦ rw e (
        Spent-call _ 8 9 s
          ((apply_standalone-Costs standalone).at (after_get hbase_standalones req s)))
    | inr (x, e) ↦ rw e (record { always = ground arith; success = ground arith })
  ]
