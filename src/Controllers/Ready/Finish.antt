-- ===== src/Controllers/Ready/Finish.antt =====
-- Actions that end with the empty result and no error: every part of them does.
use hbase_k8s_operator.Prelude.{
  String, ◌≡◌, refl, true, false, Bool-cases, Option-cases, none, inl, inr, arith, if◌then◌else◌,
}
use hbase_k8s_operator.Api.{HbaseClusterConfiguration}
use hbase_k8s_operator.Env.{Env, Error}
use hbase_k8s_operator.Action.{
  State, Action, Flow, done, panicked, Reply, ◌>>=◌, pure, continue, failed, is_finished,
  ◌or_return◌,
}
use hbase_k8s_operator.Reconcile.Validate.{validate_configuration}
use hbase_k8s_operator.Controllers.Steps.{validate_or_return}

pub record Finishes (m : Action Reply) (s u : State) : Type 0 where
  pub reply : Reply
  pub ends : m s ≡ (done reply, u)
  pub succeeds : is_finished reply ≡ true

-- Another action that ends in the same way.
pub again :
    {m n : Action Reply} {s t u : State} (h : Finishes m s u)
    → n t ≡ (done h.reply, u)
    → Finishes n t u
again h e = record { reply = h.reply; ends = e; succeeds = h.succeeds }

abbrev pub Parts : Action Reply → Action Reply → State → State → Type 0
Parts first rest s u = (t : State) × Finishes first s t × Finishes rest t u

pub different :
    (x r : Reply) (t u : State)
    → is_finished x ≡ false
    → is_finished r ≡ true
    → ¬ (◌≡◌ {A = Flow Reply × State} (done x, t) (done r, u))
different x r t u b k h = ground arith

-- The flow of the first part decides whether the rest runs.
after_first :
    (first rest : Action Reply) (s t u : State) (f : Flow Reply) (r : Reply)
    → first s ≡ (f, t)
    → continue f (λ x. if is_finished x then rest else pure x) t ≡ (done r, u)
    → is_finished r ≡ true
    → Parts first rest s u
after_first first rest s t u panicked r e h k = cc
after_first first rest s t u (done x) r e h k = elim (Bool-cases (is_finished x)) [
  | inl b ↦ (
    t,
    record { reply = x; ends = e; succeeds = b },
    record { reply = r; ends = rw b at h; succeeds = k },
  )
  | inr b ↦ absurd (different x r t u b k (rw b at h))
]

pub or_return-Finishes :
    (first rest : Action Reply) (s u : State)
    → Finishes (first or_return rest) s u
    → Parts first rest s u
unfolding ◌or_return◌ ◌>>=◌
or_return-Finishes first rest s u h =
    after_first first rest s (first s).1 u (first s).0 h.reply refl h.ends h.succeeds

pub published :
    (f : Flow Unit) (e : Error) (t u : State) (r : Reply)
    → continue f (λ _. pure (failed e)) t ≡ (done r, u)
    → ¬ (is_finished r ≡ true)
published panicked e t u r h k = cc
published (done x) e t u r h k = ground arith

pub validate_or_return-Finishes :
    (env : Env) (namespace : String) (c : HbaseClusterConfiguration) (rest : Action Reply)
    (s u : State)
    → Finishes (validate_or_return env namespace c rest) s u
    → (validate_configuration env c ≡ none) × Finishes rest s u
unfolding validate_or_return ◌>>=◌
validate_or_return-Finishes env namespace c rest s u h =
    elim (Option-cases (validate_configuration env c)) [
      | inl e ↦ (
        e,
        record {
          reply = h.reply;
          ends = rw (e, validate_or_return) at h.ends;
          succeeds = h.succeeds;
        },
      )
      | inr (x, e) ↦
          absurd (published _ x _ u h.reply (rw (e, validate_or_return) at h.ends) h.succeeds)
    ]
