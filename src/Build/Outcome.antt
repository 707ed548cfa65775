-- ===== src/Build/Outcome.antt =====
-- How a function that builds an object ends, and a loop that appends what it builds.
use hbase_k8s_operator.Prelude.{String, none, some, List, [], ◌∷◌, Bool, not, ◌==◌}
use hbase_k8s_operator.Env.{Env}

pub data Outcome {ℓ} (A : Type ℓ) : Type ℓ where
  built : A → Outcome A
  -- An error value with this text.
  invalid : String → Outcome A
  -- A Go panic.
  panic : Outcome A

module _ {A B : Type 0} where
  infixl 5 ◌>>=◌
  abbrev pub ◌>>=◌ : Outcome A → (A → Outcome B) → Outcome B
  built a >>= f = f a
  invalid message >>= f = invalid message
  panic >>= f = panic

module _ {A B : Type 0} where
  -- for _, a := range as { bs = append(bs, f(a)) }
  unfoldable pub collect : (A → Outcome B) → List A → Outcome (List B)
  collect f [] = built []
  collect f (a ∷ as') = do b ← f a; bs ← collect f as'; built (b ∷ bs)

-- len(s) > 0
abbrev pub is_nonempty : String → Bool
is_nonempty s = not (s == "")

-- resource.MustParse
unfoldable pub must_parse : Env → String → Outcome String
must_parse env s = elim (env.parse_quantity s) [ none ↦ panic | some q ↦ built q ]
