-- ===== src/Controllers/Progress/Measure.antt =====
-- What is left to do for a list of wanted objects.
use hbase_k8s_operator.Prelude.{
  String, ℕ, ◌+◌, ◌-◌, ◌*◌, ◌≤◌, ◌<◌, ◌≡◌, Bool, true, false, not, ◌&&◌, ◌||◌, Bool-cases, inl, inr,
  List, [], ◌∷◌, length, All, Any, arith, eq_iff, eq_refl, ◌==◌,
}
use hbase_k8s_operator.GoMap.{Map, lookup, insert, lookup-insert}
use hbase_k8s_operator.Api.{NamespacedName}
use hbase_k8s_operator.Kube.{Kind}
use hbase_k8s_operator.Env.{Call}
use hbase_k8s_operator.Action.{State}
use hbase_k8s_operator.Build.ConfigMap.{text_or_empty}
use hbase_k8s_operator.Controllers.Progress.Server.{Presence}

-- A wanted object: where it is on the server, and its entry in the hash store.
pub record Want : Type 0 where
  pub kind : Kind
  pub key : NamespacedName
  pub store_key : String
  pub hash : String

abbrev pub is_recorded : Want → Map String → Bool
is_recorded w store = w.hash == text_or_empty (lookup w.store_key store)

abbrev pub IsWanted : Want → List Want → Type 0
IsWanted w ws = Any (λ v. v ≡ w) ws

-- Wanted objects that share an entry of the hash store agree on it.
abbrev pub agrees : Want → Want → Bool
agrees v w = not (v.store_key == w.store_key) || v.hash == w.hash

abbrev pub agrees_all : Want → List Want → Bool
agrees_all v [] = true
agrees_all v (w ∷ ws) = agrees v w && agrees_all v ws

abbrev pub is_consistent : List Want → List Want → Bool
is_consistent [] ws = true
is_consistent (v ∷ vs) ws = agrees_all v ws && is_consistent vs ws

abbrev count : Bool → ℕ
count true = 0
count false = 1

module _ (has : Presence) where
  -- Creating the object, and updating it.
  abbrev cost : Want → State → ℕ
  cost w s = count (has w.kind w.key s.history) + count (is_recorded w s.hash_store)

  unfoldable pub todo : List Want → State → ℕ
  todo [] s = 0
  todo (w ∷ ws) s = cost w s + todo ws s

  -- What is left: the objects, and the calls until `patience` is over.
  pub left : ℕ → List Want → State → ℕ
  left patience ws s = todo ws s + (patience - length s.history)

  todo-le :
      (ws : List Want) (s t : State) → All (λ w. cost w t ≤ cost w s) ws → todo ws t ≤ todo ws s
  unfolding todo
  todo-le [] s t h = omega arith
  todo-le (w ∷ ws) s t (h, hs) = omega (arith, todo-le ws s t hs)

  todo-lt :
      (ws : List Want) (w : Want) (s t : State)
      → IsWanted w ws
      → cost w t < cost w s
      → All (λ w. cost w t ≤ cost w s) ws
      → todo ws t < todo ws s
  unfolding todo
  todo-lt [] w s t m lt h = elim m [ ]
  todo-lt (v ∷ ws) w s t (inl e) lt (h, hs) =
      let lt' : cost v t < cost v s = rw e lt in omega (arith, todo-le ws s t hs)
  todo-lt (v ∷ ws) w s t (inr m) lt (h, hs) = omega (arith, todo-lt ws w s t m lt hs)

  count-le : (b : Bool) → count b ≤ 1
  count-le true = omega arith
  count-le false = omega arith

  todo_bounded : (ws : List Want) (s : State) → todo ws s ≤ 2 * length ws
  unfolding todo
  todo_bounded [] s = omega arith
  todo_bounded (w ∷ ws) s = omega (
    arith,
    todo_bounded ws s,
    count-le (has w.kind w.key s.history),
    count-le (is_recorded w s.hash_store),
  )

  -- At most one creation and one Update for each wanted object, and waiting.
  pub left_bounded :
      (patience : ℕ) (ws : List Want) (s : State) → left patience ws s ≤ 2 * length ws + patience
  unfolding left
  left_bounded patience ws s = omega (arith, todo_bounded ws s)

-- Agreement, from its test.
agrees_with : (v : Want) (ws : List Want) → agrees_all v ws ≡ true → All (λ w. agrees v w ≡ true) ws
agrees_with v [] h = tt
agrees_with v (w ∷ ws) h = (ground arith, agrees_with v ws (ground arith))

wanted_agrees :
    (vs ws : List Want) (v : Want)
    → IsWanted v vs
    → is_consistent vs ws ≡ true
    → All (λ w. agrees v w ≡ true) ws
wanted_agrees [] ws v m h = elim m [ ]
wanted_agrees (u ∷ vs) ws v (inl e) h = rw (← e) (agrees_with u ws (ground arith))
wanted_agrees (u ∷ vs) ws v (inr m) h = wanted_agrees vs ws v m (ground arith)

All-map {ℓ} :
    {A : Type ℓ} {P Q : A → Type 0} (xs : List A) → ((x : A) → P x → Q x) → All P xs → All Q xs
All-map [] f h = tt
All-map (x ∷ xs) f (h, hs) = (f x h, All-map xs f hs)

All-of {ℓ} : {A : Type ℓ} {P : A → Type 0} (xs : List A) → ((x : A) → P x) → All P xs
All-of [] f = tt
All-of (x ∷ xs) f = (f x, All-of xs f)

-- Storing a hash that agrees loses nothing.
still_recorded :
    (v w : Want) (store : Map String)
    → agrees v w ≡ true
    → count (is_recorded w (insert v.store_key v.hash store)) ≤ count (is_recorded w store)
still_recorded v w store h = elim (Bool-cases (w.store_key == v.store_key)) [
  | inl e ↦
      let same : (w.hash == v.hash) ≡ true = ground (
        arith,
        eq_iff w.store_key v.store_key,
        eq_iff v.store_key w.store_key,
        eq_iff w.hash v.hash,
        eq_iff v.hash w.hash,
      ) in
      rw (lookup-insert, e, same) (omega arith)
  | inr e ↦ rw (lookup-insert, e) (omega arith)
]

recorded_self :
    (w : Want) (store : Map String) → is_recorded w (insert w.store_key w.hash store) ≡ true
recorded_self w store = rw (lookup-insert, eq_refl w.store_key) (eq_refl w.hash)

-- Steps of the state, and what they leave to do: in calls until `patience` is over, and in objects.
module _ (has : Presence)
    (stays : (kind : Kind) (key : NamespacedName) (c : Call) (h : List Call)
      → has kind key h ≡ true
      → has kind key (c ∷ h) ≡ true)
    (patience : ℕ) (ws : List Want) (consistent : is_consistent ws ws ≡ true) where
  still_there :
      (w : Want) (c : Call) (h : List Call)
      → count (has w.kind w.key (c ∷ h)) ≤ count (has w.kind w.key h)
  still_there w c h = elim (Bool-cases (has w.kind w.key h)) [
    | inl e ↦ rw (e, stays w.kind w.key c h e) (omega arith)
    | inr e ↦ elim (Bool-cases (has w.kind w.key (c ∷ h))) [
      | inl e' ↦ rw (e, e') (omega arith)
      | inr e' ↦ rw (e, e') (omega arith)
    ]
  ]

  pub called-le :
      (c : Call) (s : State)
      → left has patience ws (record s { history = c ∷ s.history }) ≤ left has patience ws s
  unfolding left
  called-le c s = omega (
    arith,
    todo-le has ws s (record s { history = c ∷ s.history })
        (All-of ws (λ w. omega (arith, still_there w c s.history))),
  )

  -- A call that only takes time.
  pub waited-lt :
      (c : Call) (s : State)
      → length s.history < patience
      → left has patience ws (record s { history = c ∷ s.history }) < left has patience ws s
  unfolding left
  waited-lt c s h = omega (
    arith,
    todo-le has ws s (record s { history = c ∷ s.history })
        (All-of ws (λ w. omega (arith, still_there w c s.history))),
  )

  -- A call that creates a wanted object.
  pub created-lt :
      (w : Want) (c : Call) (s : State)
      → IsWanted w ws
      → has w.kind w.key s.history ≡ false
      → has w.kind w.key (c ∷ s.history) ≡ true
      → left has patience ws (record s { history = c ∷ s.history }) < left has patience ws s
  unfolding left
  created-lt w c s m before after = omega (
    arith,
    todo-lt has ws w s (record s { history = c ∷ s.history }) m (rw (before, after) (omega arith))
        (All-of ws (λ w. omega (arith, still_there w c s.history))),
  )

  -- A call that updates a wanted object, and its hash.
  pub updated-lt :
      (w : Want) (c : Call) (s : State)
      → IsWanted w ws
      → is_recorded w s.hash_store ≡ false
      → left has patience ws
          (record { hash_store = insert w.store_key w.hash s.hash_store; history = c ∷ s.history })
        < left has patience ws s
  unfolding left
  updated-lt w c s m stale =
      let t : State = record {
        hash_store = insert w.store_key w.hash s.hash_store;
        history = c ∷ s.history;
      } in
      omega (
        arith,
        todo-lt has ws w s t m
            (rw (stale, recorded_self w s.hash_store) (omega (arith, still_there w c s.history)))
            (All-map ws
              (λ v a. omega (arith, still_there v c s.history, still_recorded w v s.hash_store a))
              (wanted_agrees ws ws w m consistent)),
      )
