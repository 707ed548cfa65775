-- ===== src/Action.antt =====
-- The state that a reconciler works on, and actions on it: the package variable `hashStore`
-- (operator/controllers/hbasecluster_controller.go) and the calls made so far, the latest first.
pub mod Steps
use hbase_k8s_operator.Prelude.{
  ℕ, ◌*◌, String, Bool, true, false, List, [], ◌∷◌, Option, none, some, ◌&&◌, not, if◌then◌else◌,
  eqb,
}
use hbase_k8s_operator.GoMap.{Map, lookup, insert}
use hbase_k8s_operator.Api.{NamespacedName}
use hbase_k8s_operator.Kube.{Kind}
use hbase_k8s_operator.Env.{got, Error, Call}

pub record State : Type 0 where
  pub hash_store : Map String
  pub history : List Call

-- An operator that has just started.
abbrev pub start : State
start = record { hash_store = []; history = [] }

-- How a computation ends: with a value, or in a panic, which the controller runtime catches.
pub data Flow {ℓ} (A : Type ℓ) : Type ℓ where
  done : A → Flow A
  panicked : Flow A

abbrev pub Action : Type 0 → Type 0
Action A = State → Flow A × State

module _ {A B : Type 0} where
  abbrev pub continue : Flow A → (A → Action B) → Action B
  continue (done a) f s = f a s
  continue panicked f s = (panicked, s)

  infixl 5 ◌>>=◌
  unfoldable pub ◌>>=◌ : Action A → (A → Action B) → Action B
  ◌>>=◌ m f s = let (r, s') = m s in continue r f s'

infixl 5 ◌>>◌
abbrev pub ◌>>◌ : {A B : Type 0} → Action A → Action B → Action B
m >> n = m >>= λ _. n

module _ {A : Type 0} where
  abbrev pub pure : A → Action A
  pure a s = (done a, s)

  -- One call of the client: its answer comes from the calls before it, and it is recorded.
  abbrev pub call : Call → (List Call → A) → Action A
  call c answer s = (done (answer s.history), record s { history = c ∷ s.history })

  -- A value that depends on the moment, as the time does.
  abbrev pub at_now : (List Call → A) → Action A
  at_now f s = (done (f s.history), s)

-- The state after one Get.
abbrev pub after_get : Kind → NamespacedName → State → State
after_get kind key s = record s { history = got kind key ∷ s.history }

-- _, ok := hashStore[key], and hashStore[key], which reads "" where there is no entry
abbrev pub stored_hash : String → Action (Option String)
stored_hash key s = (done (lookup key s.hash_store), s)

-- hashStore[key] = hash
abbrev pub store_hash : String → String → Action Unit
store_hash key hash s = (done tt, record s { hash_store = insert key hash s.hash_store })

-- ctrl.Result; a duration counts nanoseconds.
pub record Result : Type 0 where
  pub requeue : Bool
  pub requeue_after : ℕ

-- The pair (ctrl.Result, error) that the reconcilers return.
pub record Reply : Type 0 where
  pub result : Result
  pub error : Option Error

abbrev pub seconds : ℕ → ℕ
seconds n = n * 1000000000

-- return ctrl.Result{}, nil
abbrev pub finished : Reply
finished = record { result = record { requeue = false; requeue_after = 0 }; error = none }

-- return ctrl.Result{RequeueAfter: time.Second * 5}, nil
abbrev pub again_in_5 : Reply
again_in_5 = record { result = record { requeue = false; requeue_after = seconds 5 }; error = none }

-- return ctrl.Result{Requeue: true, RequeueAfter: time.Second * n}, nil
abbrev pub requeue_in : ℕ → Reply
requeue_in n = record {
  result = record { requeue = true; requeue_after = seconds n };
  error = none;
}

-- return ctrl.Result{RequeueAfter: time.Second * 5}, err
abbrev pub failed_in_5 : Error → Reply
failed_in_5 e = record {
  result = record { requeue = false; requeue_after = seconds 5 };
  error = some e;
}

-- return ctrl.Result{}, err
abbrev pub failed : Error → Reply
failed e = record { result = record { requeue = false; requeue_after = 0 }; error = some e }

abbrev is_nil : Option Error → Bool
is_nil none = true
is_nil (some e) = false

-- The negation of `(ctrl.Result{}) != result || err != nil`.
abbrev pub is_finished : Reply → Bool
is_finished r = not r.result.requeue && eqb r.result.requeue_after 0 && is_nil r.error

-- result, err = first; if (ctrl.Result{}) != result || err != nil { return result, err }; rest
infixr 4 ◌or_return◌
unfoldable pub ◌or_return◌ : Action Reply → Action Reply → Action Reply
unfolding ◌>>=◌
first or_return rest = first >>= λ r. if is_finished r then rest else pure r

-- The method returned the empty result and no error.
abbrev pub succeeds : Flow Reply → Bool
succeeds panicked = false
succeeds (done r) = is_finished r

-- What holds of both branches holds of the conditional.
pub either_way :
    {A : Type 0} (P : Action A → Type 0) (b : Bool) (m n : Action A)
    → P m
    → P n
    → P (if b then m else n)
either_way P true m n h k = h
either_way P false m n h k = k
