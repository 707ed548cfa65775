-- ===== src/Concurrent/Honest.antt =====
-- Programs that record a hash only after the server has accepted the Update, in any interleaving.
use hbase_k8s_operator.Prelude.{String, ℕ, zero, suc, List, [], ◌∷◌, All, inr}
use hbase_k8s_operator.GoMap.{Map}
use hbase_k8s_operator.Env.{Env, Call}
use hbase_k8s_operator.Action.{State}
use hbase_k8s_operator.Action.Steps.{Grown, same, more}
use hbase_k8s_operator.Controllers.Ready.Growth.{Grown-trans}
use hbase_k8s_operator.Controllers.Honest.{Accepted, IsHonest, extend, extend_store}
use hbase_k8s_operator.Concurrent.Program.{
  Program, finish, ask, moment, look, store, step, step_at, interleave,
}

Accepted-Grown :
    (env : Env) (key hash : String) {h h' : List Call}
    → Grown h h'
    → Accepted env key hash h
    → Accepted env key hash h'
Accepted-Grown env key hash same a = a
Accepted-Grown env key hash (more c g) a = inr (Accepted-Grown env key hash g a)

module _ (env : Env) {A : Type 0} where
  -- After these calls and whatever other calls and hashes come between its steps, the program
  -- records only hashes of Updates that have been accepted.
  abbrev pub Justified : List Call → Program A → Type 0
  Justified h (finish a) = Unit
  Justified h (ask c k) = (h' : List Call) → Grown h h' → Justified (c ∷ h') (k h')
  Justified h (moment k) = (h' : List Call) → Grown h h' → Justified h' (k h')
  Justified h (look k) = (hashes : Map String) → Justified h (k hashes)
  Justified h (store key hash p) = Accepted env key hash h × Justified h p

  pub Justified-Grown :
      (p : Program A) {h h' : List Call} → Grown h h' → Justified h p → Justified h' p
  Justified-Grown (finish a) g j = tt
  Justified-Grown (ask c k) g j = λ h' g'. j h' (Grown-trans g g')
  Justified-Grown (moment k) g j = λ h' g'. j h' (Grown-trans g g')
  Justified-Grown (look k) g j = λ hashes. Justified-Grown (k hashes) g (j hashes)
  Justified-Grown (store key hash p) g (a, j) =
      (Accepted-Grown env key hash g a, Justified-Grown p g j)

  All-Grown :
      (ps : List (Program A)) {h h' : List Call}
      → Grown h h'
      → All (Justified h) ps
      → All (Justified h') ps
  All-Grown [] g js = tt
  All-Grown (p ∷ ps) g (j, js) = (Justified-Grown p g j, All-Grown ps g js)

  -- What a step keeps.
  record Kept (s t : State) (ps : List (Program A)) : Type 0 where
    pub grown : Grown s.history t.history
    pub honest : IsHonest env t
    pub justified : All (Justified t.history) ps

  step-Kept :
      (p : Program A) (s : State)
      → IsHonest env s
      → Justified s.history p
      → let (p', t) = step p s in Kept s t (p' ∷ [])
  unfolding step
  step-Kept (finish a) s i j = record { grown = same; honest = i; justified = (j, tt) }
  step-Kept (ask c k) s i j = record {
    grown = more c same;
    honest = extend env s c i;
    justified = (j s.history same, tt);
  }
  step-Kept (moment k) s i j = record {
    grown = same;
    honest = i;
    justified = (j s.history same, tt);
  }
  step-Kept (look k) s i j = record { grown = same; honest = i; justified = (j s.hash_store, tt) }
  step-Kept (store key hash p) s i (a, j) = record {
    grown = same;
    honest = extend_store env s key hash a i;
    justified = (j, tt);
  }

  step_at-Kept :
      (n : ℕ) (ps : List (Program A)) (s : State)
      → IsHonest env s
      → All (Justified s.history) ps
      → let (ps', t) = step_at n ps s in Kept s t ps'
  unfolding step_at
  step_at-Kept n [] s i js = record { grown = same; honest = i; justified = tt }
  step_at-Kept zero (p ∷ ps) s i (j, js) =
      let k = step-Kept p s i j in
      record {
        grown = k.grown;
        honest = k.honest;
        justified = (k.justified.0, All-Grown ps k.grown js);
      }
  step_at-Kept (suc n) (p ∷ ps) s i (j, js) =
      let k = step_at-Kept n ps s i js in
      record {
        grown = k.grown;
        honest = k.honest;
        justified = (Justified-Grown p k.grown j, k.justified);
      }

  -- Programs that are justified keep the hash store honest, in whatever order their steps come.
  pub interleave-IsHonest :
      (schedule : List ℕ) (ps : List (Program A)) (s : State)
      → IsHonest env s
      → All (Justified s.history) ps
      → IsHonest env (interleave schedule ps s).1
  unfolding interleave
  interleave-IsHonest [] ps s i js = i
  interleave-IsHonest (n ∷ schedule) ps s i js =
      let k = step_at-Kept n ps s i js in interleave-IsHonest schedule _ _ k.honest k.justified
