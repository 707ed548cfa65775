-- ===== src/Controllers/Progress/Advance.antt =====
-- Actions that make progress: they end normally, leave no more to do than before, and less if they
-- do not finish.
use hbase_k8s_operator.Prelude.{
  ℕ, ◌≤◌, ◌<◌, ◌≡◌, refl, false, Bool-cases, inl, inr, List, arith, if◌then◌else◌,
}
use hbase_k8s_operator.Action.{
  State, Action, Flow, done, panicked, Reply, ◌>>=◌, pure, continue, finished, is_finished,
  ◌or_return◌,
}
use hbase_k8s_operator.Controllers.Progress.Server.{Presence}
use hbase_k8s_operator.Controllers.Progress.Measure.{Want, left}

module _ (has : Presence) (patience : ℕ) (ws : List Want) where
  abbrev pub Advanced : State → Flow Reply → State → Type 0
  Advanced s f t =
      (r : Reply) × (f ≡ done r)
      × (left has patience ws t ≤ left has patience ws s)
      × (is_finished r ≡ false → left has patience ws t < left has patience ws s)

  pub record Advances (m : Action Reply) : Type 0 where
    pub at : (s : State) → Advanced s (m s).0 (m s).1

  pub finished-Advances : Advances (pure finished)
  finished-Advances = record { at = λ s. (finished, refl, omega arith, λ e. cc) }

  -- A part that finishes lets the rest run, and another one is all that runs.
  or_return-Advanced :
      (rest : Action Reply) (s t : State) (f : Flow Reply)
      → Advances rest
      → Advanced s f t
      → let (g, u) = continue f (λ r. if is_finished r then rest else pure r) t in Advanced s g u
  or_return-Advanced rest s t panicked k (r, e, le, lt) = cc
  or_return-Advanced rest s t (done x) k (r, e, le, lt) = elim (Bool-cases (is_finished x)) [
    | inl b ↦
        let (r', e', le', lt') = k.at t in
        rw b (r', e', omega arith, λ n. let p = lt' n in omega arith)
    | inr b ↦ rw b (x, refl, le, λ n. lt (rw⁻¹ (done-injective x r e) b))
  ]
    where
      done-injective : (x r : Reply) → done x ≡ done r → x ≡ r
      done-injective x r e = cc

  pub or_return-Advances :
      (first rest : Action Reply) → Advances first → Advances rest → Advances (first or_return rest)
  unfolding ◌or_return◌ ◌>>=◌
  or_return-Advances first rest h k = record {
    at = λ s. or_return-Advanced rest s (first s).1 (first s).0 k (h.at s);
  }
