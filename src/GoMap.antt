-- ===== src/GoMap.antt =====
-- Go's maps with text keys. A map that was made is an association list; a map value of the Go
-- program may also be nil, which reads as an empty map. `range` visits the entries in an order that
-- Go leaves open: a loop that only writes its entries into another map is `merge`.
use hbase_k8s_operator.Prelude.{
  String, ◌≡◌, refl, Option, none, some, List, [], ◌∷◌, ◌==◌, eq_iff, eq_refl, arith, if◌then◌else◌,
}

abbrev pub Map {ℓ} : Type ℓ → Type ℓ
Map V = List (String × V)

-- A Go value of type map[string]string: nil, or a map.
abbrev pub GoMap : Type 0
GoMap = Option (Map String)

-- What reading and ranging sees: a nil map has no entries.
abbrev pub entries : GoMap → Map String
entries none = []
entries (some m) = m

-- The value, or the alternative where there is none.
abbrev pub or_else {ℓ} : {V : Type ℓ} → Option V → Option V → Option V
or_else none w = w
or_else (some v) w = some v

pub or_else-none {ℓ} : {V : Type ℓ} (a : Option V) → or_else a none ≡ a
or_else-none none = refl
or_else-none (some a) = refl

pub or_else_assoc {ℓ} :
    {V : Type ℓ} (a b c : Option V) → or_else (or_else a b) c ≡ or_else a (or_else b c)
or_else_assoc none b c = refl
or_else_assoc (some a) b c = refl

module _ {ℓ} {V : Type ℓ} where
  -- v, ok := m[key]
  unfoldable pub lookup : String → Map V → Option V
  lookup key [] = none
  lookup key (entry ∷ rest) = if key == entry.0 then some entry.1 else lookup key rest

  -- m[key] = value
  unfoldable pub insert : String → V → Map V → Map V
  insert key value [] = (key, value) ∷ []
  insert key value (entry ∷ rest) =
      if key == entry.0 then (key, value) ∷ rest else entry ∷ insert key value rest

  -- for key, value := range from { into[key] = value }
  unfoldable pub merge : Map V → Map V → Map V
  unfolding insert
  merge into [] = into
  merge into (entry ∷ from) = insert entry.0 entry.1 (merge into from)

  pub lookup-insert :
      (asked key : String) (value : V) (m : Map V)
      → lookup asked (insert key value m) ≡ (if asked == key then some value else lookup asked m)
  unfolding lookup insert
  lookup-insert asked key value [] = refl
  lookup-insert asked key value (entry ∷ rest) = ground (
    arith,
    lookup-insert asked key value rest,
    eq_iff asked key,
    eq_iff asked entry.0,
    eq_iff key entry.0,
  )

  pub lookup-insert_self : (key : String) (v : V) (m : Map V) → lookup key (insert key v m) ≡ some v
  lookup-insert_self key v m = simp (lookup-insert, eq_refl)

  -- An entry of `from` hides the one of `into` under the same key.
  pub lookup-merge :
      (asked : String) (into from : Map V)
      → lookup asked (merge into from) ≡ or_else (lookup asked from) (lookup asked into)
  unfolding lookup merge
  lookup-merge asked into [] = refl
  lookup-merge asked into (entry ∷ from) =
      ground
        (arith, lookup-insert asked entry.0 entry.1 (merge into from), lookup-merge asked into from)
