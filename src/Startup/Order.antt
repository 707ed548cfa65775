-- ===== src/Startup/Order.antt =====
-- What main asks of the controller runtime, in which order, and when it gives up.
use hbase_k8s_operator.Prelude.{
  ◌≡◌, refl, ℕ, Option, none, some, Option-cases, List, [], ◌∷◌, ◌++◌, inl, inr,
}
use hbase_k8s_operator.Env.{Error}
use hbase_k8s_operator.Watch.{Shell, get_watch_namespaces}
use hbase_k8s_operator.Startup.{
  Flags, Setup, Runtime, Boot, Rest, return, check, or_exit, log_namespaces, exit_after,
  manager_options, setup_cluster, setup_tenant, setup_standalone, set_up, main, get_config,
  new_manager, complete, add_healthz_check, add_readyz_check, run_manager,
}

-- The calls of a plan, made one after another until one is refused: the calls before, the plan, the
-- calls at the end, the error that has ended it, and the exit code, which is 0 if none has.
pub data Upto (runtime : Runtime) : List Setup → List Setup → List Setup → ℕ → Type 0 where
  completed : (h : List Setup) → Upto runtime h [] h 0
  refused :
      (h : List Setup) (c : Setup) (plan : List Setup) (e : Error)
      → runtime h c ≡ some e
      → Upto runtime h (c ∷ plan) (c ∷ h) 1
  accepted :
      {h plan last : List Setup} {code : ℕ} (c : Setup)
      → runtime h c ≡ none
      → Upto runtime (c ∷ h) plan last code
      → Upto runtime h (c ∷ plan) last code

-- What is left of main carries out a plan.
abbrev Follows : Runtime → List Setup → Rest → Type 0
Follows runtime plan rest = (b : Boot) → Upto runtime b.calls plan (rest b).1.calls (rest b).0

check-Follows :
    (runtime : Runtime) (c : Setup) (plan : List Setup) (fail : Error → Rest) (next : Rest)
    → ((e : Error) (b : Boot) → ((fail e b).0 ≡ 1) × ((fail e b).1.calls ≡ b.calls))
    → Follows runtime plan next
    → Follows runtime (c ∷ plan) (check runtime c fail next)
check-Follows runtime c plan fail next fails follows b =
    let b' = record b { calls = c ∷ b.calls } in
    elim (Option-cases (runtime b.calls c)) [
      | inl e ↦ rw e (accepted c e (follows b'))
      | inr (x, e) ↦ rw (e, (fails x b').0, (fails x b').1) (refused b.calls c plan x e)
    ]

or_exit-Follows :
    (runtime : Runtime) (c : Setup) (plan : List Setup) (message : _) (next : Rest)
    → Follows runtime plan next
    → Follows runtime (c ∷ plan) (or_exit runtime c message next)
or_exit-Follows runtime c plan message next =
    check-Follows runtime c plan (λ e. exit_after e message) next (λ e b. (refl, refl))

-- The calls that main makes before it runs the manager, where none is refused, and all of them.
abbrev pub preparations : Shell → Flags → List Setup
preparations sh flags =
    get_config
    ∷ new_manager (manager_options flags (get_watch_namespaces sh).0)
    ∷ complete setup_cluster
    ∷ complete (setup_tenant (record { max_concurrent_reconciles = flags.max_reconcilers_tenant }))
    ∷ complete setup_standalone
    ∷ add_healthz_check "healthz"
    ∷ add_readyz_check "readyz"
    ∷ []

abbrev pub planned : Shell → Flags → List Setup
planned sh flags = preparations sh flags ++ run_manager ∷ []

set_up-Follows :
    (runtime : Runtime) (flags : Flags)
    → Follows runtime
        (complete setup_cluster
          ∷ complete
              (setup_tenant (record { max_concurrent_reconciles = flags.max_reconcilers_tenant }))
          ∷ complete setup_standalone
          ∷ add_healthz_check "healthz"
          ∷ add_readyz_check "readyz"
          ∷ run_manager
          ∷ [])
        (set_up runtime flags)
unfolding set_up
set_up-Follows runtime flags = or_exit-Follows runtime _ _ _ _ (
    or_exit-Follows runtime _ _ _ _ (
      or_exit-Follows runtime _ _ _ _ (
        or_exit-Follows runtime _ _ _ _ (
          or_exit-Follows runtime _ _ _ _
            λ b. or_exit-Follows runtime run_manager [] _ return (λ b. completed b.calls) _))))

log_namespaces-Follows :
    (runtime : Runtime) (plan : List Setup) (ns : _) (err : Option Error) (next : Rest)
    → Follows runtime plan next
    → Follows runtime plan (log_namespaces ns err next)
log_namespaces-Follows runtime plan ns none next follows b = follows _
log_namespaces-Follows runtime plan ns (some e) next follows b = follows _

-- Whatever the controller runtime answers, main carries out its plan: it reads the configuration,
-- makes a manager for the namespaces that are watched, registers the three controllers and the two
-- checks and runs the manager, one call after another; at the first call that is refused it makes
-- no other and ends with exit code 1, and with 0 if none is refused.
pub main-Upto :
    (sh : Shell) (runtime : Runtime) (flags : Flags) (b : Boot)
    → Upto runtime b.calls
        (planned sh flags)
        (main sh runtime flags b).1.calls
        (main sh runtime flags b).0
unfolding main
main-Upto sh runtime flags b =
    let (ns, err) = get_watch_namespaces sh in
    log_namespaces-Follows runtime _ ns err _
      (check-Follows runtime _ _ (λ e b. (1, b)) _ (λ e b. (refl, refl))
        (or_exit-Follows runtime _ _ _ _ (set_up-Follows runtime flags)))
      b
