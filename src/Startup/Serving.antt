-- ===== src/Startup/Serving.antt =====
-- Once main has run the manager, each kind of request has its controller.
use hbase_k8s_operator.Prelude.{
  ◌≡◌, refl, Bool, true, false, List, [], ◌∷◌, ◌++◌, All, Any, inl, inr, subst, sym,
}
use hbase_k8s_operator.Api.{NamespacedName}
use hbase_k8s_operator.Kube.{Kind}
use hbase_k8s_operator.Env.{Env}
use hbase_k8s_operator.Watch.{Shell}
use hbase_k8s_operator.Startup.{Flags, Setup, Runtime, Boot, main, complete, run_manager, LogEntry}
use hbase_k8s_operator.Startup.Order.{Upto, completed, refused, accepted, preparations, main-Upto}
use hbase_k8s_operator.Controllers.Requests.{Request, handle, cluster, tenant, standalone}

abbrev pub is_run : Setup → Bool
is_run run_manager = true
is_run _ = false

-- The elements of the first list, the last of them first, before the second.
abbrev reverse_onto : List Setup → List Setup → List Setup
reverse_onto [] h = h
reverse_onto (c ∷ cs) h = reverse_onto cs (c ∷ h)

none_runs : (cs : List Setup) → All (λ c. is_run c ≡ false) cs → Any (λ c. is_run c ≡ true) cs → ⊥
none_runs [] h a = a
none_runs (c ∷ cs) h (inl e) = cc
none_runs (c ∷ cs) h (inr a) = none_runs cs h.1 a

-- Where the manager is run last, it is run after all the other calls.
runs_last :
    (runtime : Runtime) (plan h : List Setup) {last : List Setup} {code : _}
    → Upto runtime h (plan ++ run_manager ∷ []) last code
    → All (λ c. is_run c ≡ false) plan
    → All (λ c. is_run c ≡ false) h
    → Any (λ c. is_run c ≡ true) last
    → last ≡ run_manager ∷ reverse_onto plan h
runs_last runtime [] h (refused _ _ _ e eq) quiet before a = refl
runs_last runtime [] h (accepted _ eq (completed _)) quiet before a = refl
runs_last runtime (c ∷ plan) h (refused _ _ _ e eq) quiet before a =
    absurd (none_runs (c ∷ h) (quiet.0, before) a)
runs_last runtime (c ∷ plan) h (accepted _ eq u) quiet before a =
    runs_last runtime plan (c ∷ h) u quiet.1 (quiet.0, before) a

abbrev pub kind_of : Request → Kind
kind_of (cluster req) = Kind.hbase_clusters
kind_of (tenant req) = Kind.hbase_tenants
kind_of (standalone req) = Kind.hbase_standalones

abbrev pub name_of : Request → NamespacedName
name_of (cluster req) = req
name_of (tenant req) = req
name_of (standalone req) = req

-- The call registers a controller for the kind of the request, which answers it as `handle` does.
abbrev pub Answers : Request → Setup → Type 0
Answers r (complete reg) =
    (reg.for_kind ≡ kind_of r) × ((env : Env) → reg.reconciler env (name_of r) ≡ handle env r)
Answers r _ = ⊥

-- The calls before the manager is run have a controller for each kind.
preparations-Answers :
    (sh : Shell) (flags : Flags) (r : Request)
    → Any (Answers r) (run_manager ∷ reverse_onto (preparations sh flags) [])
unfolding handle
preparations-Answers sh flags (cluster req) = inr (inr (inr (inr (inr (inl (refl, λ env. refl))))))
preparations-Answers sh flags (tenant req) = inr (inr (inr (inr (inl (refl, λ env. refl)))))
preparations-Answers sh flags (standalone req) = inr (inr (inr (inl (refl, λ env. refl))))

-- Where main, started without a call of the manager before, has run the manager, every request has
-- a controller registered for its kind, whose reconciler treats it as `handle` does.
pub main-Answers :
    (sh : Shell) (runtime : Runtime) (flags : Flags) (log : List LogEntry)
    → Any (λ c. is_run c ≡ true) (main sh runtime flags (record { calls = []; log = log })).1.calls
    → (r : Request)
    → Any (Answers r) (main sh runtime flags (record { calls = []; log = log })).1.calls
main-Answers sh runtime flags log a r =
    let boot : Boot = record { calls = []; log = log } in
    let e =
      runs_last runtime (preparations sh flags) [] (main-Upto sh runtime flags boot)
        (refl, (refl, (refl, (refl, (refl, (refl, (refl, tt))))))) tt a in
    subst (Any (Answers r)) (sym e) (preparations-Answers sh flags r)
