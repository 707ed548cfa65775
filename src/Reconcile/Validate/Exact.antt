-- ===== src/Reconcile/Validate/Exact.antt =====
-- Which configurations validateConfiguration accepts.
use hbase_k8s_operator.Prelude.{
  String, ◌≡◌, refl, ap, sym, ◌∙◌, ◌↔◌, true, false, [], ◌∷◌, Option, none, some, arith, eq_iff,
  eq_refl, ◌==◌, All, Bool-cases, inl, inr,
}
use mathlib.Core.Option.{some-injective}
use hbase_k8s_operator.GoMap.{Map, entries, or_else, lookup, lookup-merge, or_else-none}
use hbase_k8s_operator.Api.{HbaseClusterConfiguration}
use hbase_k8s_operator.Env.{Env, Error}
use hbase_k8s_operator.Reconcile.Validate.{
  allowed_configs, is_valid_xml, is_xml, all_config, invalid_xml, validate_entries,
  validate_configuration,
}

-- The contents of a file of the configuration: the Hadoop one, where both have the file.
abbrev pub effective : HbaseClusterConfiguration → String → Option String
effective c key =
    or_else (lookup key (entries c.hadoop_config)) (lookup key (entries c.hbase_config))

abbrev pub MustBeXml : String → Type 0
MustBeXml key = is_xml (lookup key allowed_configs) ≡ true

lookup-all_config :
    (c : HbaseClusterConfiguration) (key : String) → lookup key (all_config c) ≡ effective c key
unfolding all_config lookup
lookup-all_config c key = rw (lookup-merge, lookup-merge) (ap (or_else _) (or_else-none _))

-- Every entry of a list is found in the map.
abbrev Found : Map String → Map String → Type 0
Found all l = All (λ entry. (v : String) × (lookup entry.0 all ≡ some v)) l

Found-cons : (x : String × String) (all l : Map String) → Found all l → Found (x ∷ all) l
unfolding lookup
Found-cons x all [] h = tt
Found-cons x all (entry ∷ l) ((v, e), h) = elim (Bool-cases (entry.0 == x.0)) [
  | inl same ↦ ((x.1, rw same), Found-cons x all l h)
  | inr other ↦ ((v, rw other e), Found-cons x all l h)
]

Found-refl : (l : Map String) → Found l l
unfolding lookup
Found-refl [] = tt
Found-refl (x ∷ l) = ((x.1, rw (eq_refl x.0)), Found-cons x l l (Found-refl l))

module _ (env : Env) where
  -- The configuration is accepted: every file that has to be XML is.
  abbrev pub AcceptsAll : (String → Option String) → Type 0
  AcceptsAll file =
      (key contents : String)
      → file key ≡ some contents
      → MustBeXml key
      → is_valid_xml env contents ≡ true

  validate_entries_complete :
      (all l : Map String)
      → Found all l
      → AcceptsAll (λ key. lookup key all)
      → validate_entries env all l ≡ none
  unfolding validate_entries
  validate_entries_complete all [] f h = refl
  validate_entries_complete all ((key, value) ∷ l) ((v, e), f) h =
      elim (Bool-cases (is_xml (lookup key allowed_configs))) [
        | inl x ↦ rw (x, e, h key v e x) (validate_entries_complete all l f h)
        | inr x ↦ rw x (validate_entries_complete all l f h)
      ]

  validate_entries_sound :
      (all l : Map String) (key contents : String)
      → Found all l
      → validate_entries env all l ≡ none
      → lookup key all ≡ some contents
      → (v : String) × (lookup key l ≡ some v)
      → MustBeXml key
      → is_valid_xml env contents ≡ true
  unfolding validate_entries lookup
  validate_entries_sound all [] key contents f h e (v, g) x = cc
  validate_entries_sound all (entry ∷ l) key contents ((u, e'), f) h e (v, g) x =
      elim (Bool-cases (key == entry.0)) [
        | inl same ↦ ground (arith, eq_iff key entry.0)
        | inr other ↦
            validate_entries_sound all l key contents f (ground arith) e (v, rw other at g) x
      ]

  -- A file that is refused is one of the configuration's.
  validate_entries-error :
      (all l : Map String) (e : Error)
      → Found all l
      → validate_entries env all l ≡ some e
      → (key contents : String) × (lookup key all ≡ some contents)
        × (is_xml (lookup key allowed_configs) ≡ true)
        × (is_valid_xml env contents ≡ false)
        × (e ≡ invalid_xml key)
  unfolding validate_entries
  validate_entries-error all [] e f h = cc
  validate_entries-error all ((key, value) ∷ l) err ((v, e), f) h =
      elim (Bool-cases (is_xml (lookup key allowed_configs))) [
        | inl x ↦ elim (Bool-cases (is_valid_xml env v)) [
          | inl good ↦ validate_entries-error all l err f (rw (x, e, good) at h)
          | inr bad ↦ (key, v, e, x, bad, sym (some-injective _ _ (rw (x, e, bad) at h)))
        ]
        | inr x ↦ validate_entries-error all l err f (rw x at h)
      ]

  -- validateConfiguration accepts a configuration exactly when every file of it that has to be XML is
  -- valid XML. Of a file that both the HBase and the Hadoop configuration have, the Hadoop one counts.
  pub validate_configuration-exact :
      (c : HbaseClusterConfiguration)
      → (validate_configuration env c ≡ none) ↔ AcceptsAll (effective c)
  unfolding validate_configuration
  validate_configuration-exact c = (
    λ h key contents e x.
        validate_entries_sound (all_config c) (all_config c) key contents
          (Found-refl (all_config c)) h (lookup-all_config c key ∙ e)
          (contents, lookup-all_config c key ∙ e) x,
    λ h.
        validate_entries_complete (all_config c) (all_config c) (Found-refl (all_config c))
          (λ key contents e. h key contents (sym (lookup-all_config c key) ∙ e)),
  )

  -- The error that it returns names a file that has to be XML and is not.
  pub validate_configuration-error :
      (c : HbaseClusterConfiguration) (e : Error)
      → validate_configuration env c ≡ some e
      → (key contents : String) × (effective c key ≡ some contents)
        × (is_xml (lookup key allowed_configs) ≡ true)
        × (is_valid_xml env contents ≡ false)
        × (e ≡ invalid_xml key)
  unfolding validate_configuration
  validate_configuration-error c e h =
      let (key, contents, found, x, bad, same) =
        validate_entries-error (all_config c) (all_config c) e (Found-refl (all_config c)) h in
      (key, contents, sym (lookup-all_config c key) ∙ found, x, bad, same)
