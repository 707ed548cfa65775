-- ===== src/Controllers/Calls/Cost.antt =====
-- How many calls of the client an action makes, as a number that adds up over `◌or_return◌`.
use hbase_k8s_operator.Prelude.{
  ℕ, ◌+◌, ◌≤◌, ◌≡◌, refl, true, false, Bool-cases, inl, inr, length, arith, if◌then◌else◌, ◌∷◌,
}
use hbase_k8s_operator.Env.{Call}
use hbase_k8s_operator.Action.{
  State, Action, Flow, done, panicked, Reply, continue, pure, finished, is_finished, succeeds,
  ◌or_return◌,
}

-- At most n calls where it succeeds, and at most k where it does not.
pub record Spent (n k : ℕ) (s : State) (f : Flow Reply) (t : State) : Type 0 where
  pub always : length t.history ≤ length s.history + k
  pub success : succeeds f ≡ true → length t.history ≤ length s.history + n

pub Spent-call :
    {f : Flow Reply} {t : State} (c : Call) (n k : ℕ) (s : State)
    → Spent n k (record s { history = c ∷ s.history }) f t
    → Spent (n + 1) (k + 1) s f t
Spent-call c n k s h = record {
  always = omega (arith, h.always);
  success = λ e. omega (arith, h.success e);
}

pub record Costs (n k : ℕ) (m : Action Reply) : Type 0 where
  pub at : (s : State) → let (f, t) = m s in Spent n k s f t

pub finished-Costs : (n k : ℕ) → Costs n k (pure finished)
finished-Costs n k = record {
  at = λ s. record { always = omega arith; success = λ e. omega arith };
}

pub Costs-more : {m : Action Reply} (n k n' k' : ℕ) → Costs n k m → n ≤ n' → k ≤ k' → Costs n' k' m
Costs-more n k n' k' c le le' = record {
  at = λ s.
      let h = c.at s in
      record {
        always = omega (arith, h.always, le');
        success = λ e. omega (arith, h.success e, le);
      };
}

-- One action that makes at most n calls if it succeeds and k if not, and then one with n' and k': the
-- two make at most n + n' if both succeed, and otherwise at most k or n + k'.
module _ (n k n' k' most : ℕ) (first_fails : k ≤ most) (second_fails : n + k' ≤ most) where
  pub failed-Spent :
      (s t : State) (f : Flow Reply)
      → succeeds f ≡ false
      → Spent n k s f t
      → Spent (n + n') most s f t
  failed-Spent s t f e h = record {
    always = omega (arith, h.always, first_fails);
    success = λ e'. cc;
  }

  pub after_success :
      (s t u : State) (r : Reply) (f : Flow Reply)
      → succeeds (done r) ≡ true
      → Spent n k s (done r) t
      → Spent n' k' t f u
      → Spent (n + n') most s f u
  after_success s t u r f e h c =
      let le = h.success e in
      record {
        always = omega (arith, le, c.always, second_fails);
        success = λ e'. omega (arith, le, c.success e');
      }

  after_first :
      (rest : Action Reply) (s t : State) (f : Flow Reply)
      → Spent n k s f t
      → Costs n' k' rest
      → let (g, u) = continue f (λ r. if is_finished r then rest else pure r) t in
        Spent (n + n') most s g u
  after_first rest s t panicked h c = failed-Spent s t panicked refl h
  after_first rest s t (done r) h c = elim (Bool-cases (is_finished r)) [
    | inl e ↦ rw e (after_success s t _ r _ e h (c.at t))
    | inr e ↦ rw e (failed-Spent s t (done r) e h)
  ]

  pub or_return-Costs :
      (first rest : Action Reply)
      → Costs n k first
      → Costs n' k' rest
      → Costs (n + n') most (first or_return rest)
  unfolding ◌or_return◌
  or_return-Costs first rest h c = record {
    at = λ s. let (f, t) = first s in after_first rest s t f (h.at s) c;
  }
