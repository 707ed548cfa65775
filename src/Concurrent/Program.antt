-- ===== src/Concurrent/Program.antt =====
-- A reconciler as a program of single steps, between which others may run: one call of the client, one
-- reading of the hash store or of the clock, or one writing to the hash store. What the controller runtime may interleave are
-- such steps.
use hbase_k8s_operator.Prelude.{String, ℕ, zero, suc, ◌≡◌, refl, List, [], ◌∷◌}
use hbase_k8s_operator.GoMap.{Map, insert}
use hbase_k8s_operator.Env.{Call}
use hbase_k8s_operator.Action.{State, Action, done}

-- `ask` makes a call, and goes on with the calls before it, which decide the answer; `moment` makes
-- none, for what depends on the time.
pub data Program (A : Type 0) : Type 0 where
  finish : A → Program A
  ask : Call → (List Call → Program A) → Program A
  moment : (List Call → Program A) → Program A
  look : (Map String → Program A) → Program A
  store : String → String → Program A → Program A

module _ {A : Type 0} where
  -- The program alone, from beginning to end.
  unfoldable pub run : Program A → Action A
  run (finish a) s = (done a, s)
  run (ask c k) s = run (k s.history) (record s { history = c ∷ s.history })
  run (moment k) s = run (k s.history) s
  run (look k) s = run (k s.hash_store) s
  run (store key hash p) s = run p (record s { hash_store = insert key hash s.hash_store })

  -- Its next step, and what is left of it.
  unfoldable pub step : Program A → State → Program A × State
  step (finish a) s = (finish a, s)
  step (ask c k) s = (k s.history, record s { history = c ∷ s.history })
  step (moment k) s = (k s.history, s)
  step (look k) s = (k s.hash_store, s)
  step (store key hash p) s = (p, record s { hash_store = insert key hash s.hash_store })

  -- The next step of the n-th of several programs.
  unfoldable pub step_at : ℕ → List (Program A) → State → List (Program A) × State
  unfolding step
  step_at n [] s = ([], s)
  step_at zero (p ∷ ps) s = let (p', s') = step p s in (p' ∷ ps, s')
  step_at (suc n) (p ∷ ps) s = let (ps', s') = step_at n ps s in (p ∷ ps', s')

  -- Several programs, whose steps come in the order of a schedule.
  unfoldable pub interleave : List ℕ → List (Program A) → State → List (Program A) × State
  unfolding step_at
  interleave [] ps s = (ps, s)
  interleave (n ∷ schedule) ps s = let (ps', s') = step_at n ps s in interleave schedule ps' s'

  -- A step changes nothing of what a program that runs alone comes to.
  pub run-step : (p : Program A) (s : State) → let (p', s') = step p s in run p' s' ≡ run p s
  unfolding run step
  run-step (finish a) s = refl
  run-step (ask c k) s = refl
  run-step (moment k) s = refl
  run-step (look k) s = refl
  run-step (store key hash p) s = refl
