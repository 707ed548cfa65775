-- ===== src/Watch/Exact.antt =====
-- Which namespaces the operator watches.
use hbase_k8s_operator.Prelude.{
  String, ◌≡◌, refl, sym, ◌∙◌, Bool-cases, inl, inr, Bool, true, false, ◌||◌, ◌&&◌, not, Option,
  none, some, List, [], ◌∷◌, ◌++◌, ◌==◌, arith, if◌then◌else◌,
}
use hbase_k8s_operator.GoMap.{Map, lookup, insert, lookup-insert}
use hbase_k8s_operator.Watch.{
  Shell, watch_namespace_env_var, watch_additional_ns, trim_all, get_watch_namespaces,
  add_namespaces, convert_to_namespace_map,
}

abbrev pub is_empty {ℓ} : {A : Type ℓ} → List A → Bool
is_empty [] = true
is_empty (x ∷ xs) = false

abbrev pub is_key : Option (Unit {0}) → Bool
is_key none = false
is_key (some _) = true

-- What the controller runtime makes of cache.Options.DefaultNamespaces: whether it watches a
-- namespace. Without an entry it watches all of them, and the key "" (cache.AllNamespaces) stands
-- for those that have no entry of their own.
pub record FollowsKeys (watches : Map (Unit {0}) → String → Bool) : Type 0 where
  pub without_entries : (k : String) → watches [] k ≡ true
  pub with_entries :
      (m : Map (Unit {0})) (k : String)
      → is_empty m ≡ false
      → watches m k ≡ is_key (lookup "" m) || is_key (lookup k m)

-- One of the texts is the namespace, without the space around it.
abbrev pub has_trimmed : Shell → String → List String → Bool
has_trimmed sh k [] = false
has_trimmed sh k (part ∷ parts) = k == sh.trim_space part || has_trimmed sh k parts

-- The namespace is a part of the list of additional namespaces, or it is the main one.
abbrev pub is_named : Shell → String → Bool
is_named sh k =
    (not (sh.getenv "ADDITIONAL_WATCH_NAMESPACES" == "")
      && has_trimmed sh k (sh.split_comma (sh.getenv "ADDITIONAL_WATCH_NAMESPACES")))
    || (not (sh.getenv "WATCH_NAMESPACE" == "") && k == sh.getenv "WATCH_NAMESPACE")

abbrev contains : String → List String → Bool
contains k [] = false
contains k (n ∷ ns) = k == n || contains k ns

contains-append :
    (k : String) (xs ys : List String) → contains k (xs ++ ys) ≡ contains k xs || contains k ys
contains-append k [] ys = refl
contains-append k (x ∷ xs) ys = ground (arith, contains-append k xs ys)

contains-trim_all :
    (sh : Shell) (k : String) (parts : List String)
    → contains k (trim_all sh parts) ≡ has_trimmed sh k parts
unfolding trim_all
contains-trim_all sh k [] = refl
contains-trim_all sh k (part ∷ parts) = ground (arith, contains-trim_all sh k parts)

is_empty-trim_all :
    (sh : Shell) (parts : List String) → is_empty (trim_all sh parts) ≡ is_empty parts
unfolding trim_all
is_empty-trim_all sh [] = refl
is_empty-trim_all sh (part ∷ parts) = refl

is_empty-append : (xs ys : List String) → is_empty (xs ++ ys) ≡ is_empty xs && is_empty ys
is_empty-append [] ys = refl
is_empty-append (x ∷ xs) ys = refl

is_empty-insert : (k : String) (m : Map (Unit {0})) → is_empty (insert k tt m) ≡ false
unfolding insert
is_empty-insert k [] = refl
is_empty-insert k (entry ∷ m) = ground arith

lookup-add_namespaces :
    (k : String) (m : Map (Unit {0})) (ns : List String)
    → is_key (lookup k (add_namespaces m ns)) ≡ contains k ns || is_key (lookup k m)
unfolding add_namespaces
lookup-add_namespaces k m [] = refl
lookup-add_namespaces k m (n ∷ ns) =
    ground (arith, lookup-add_namespaces k (insert n tt m) ns, lookup-insert k n tt m)

is_empty-add_namespaces :
    (m : Map (Unit {0})) (ns : List String)
    → is_empty (add_namespaces m ns) ≡ is_empty m && is_empty ns
unfolding add_namespaces
is_empty-add_namespaces m [] = ground arith
is_empty-add_namespaces m (n ∷ ns) =
    ground (arith, is_empty-add_namespaces (insert n tt m) ns, is_empty-insert n m)

module _ (sh : Shell) where
  -- The key of a namespace, and whether there is any key, by the two variables.
  key_of_namespace :
      (k : String)
      → is_key (lookup k (convert_to_namespace_map (get_watch_namespaces sh).0)) ≡ is_named sh k
  unfolding convert_to_namespace_map get_watch_namespaces lookup
  key_of_namespace k =
      let additional = sh.getenv watch_additional_ns in
      let namespace = sh.getenv watch_namespace_env_var in
      let parts = sh.split_comma additional in
      let ns = if additional == "" then [] else trim_all sh parts in
      let all = if namespace == "" then ns else ns ++ namespace ∷ [] in
      ground (
        arith,
        lookup-add_namespaces k [] all,
        contains-append k ns (namespace ∷ []),
        contains-trim_all sh k parts,
      )

  no_namespaces :
      ((s : String) → is_empty (sh.split_comma s) ≡ false)
      → is_empty (convert_to_namespace_map (get_watch_namespaces sh).0)
        ≡ sh.getenv watch_additional_ns == "" && sh.getenv watch_namespace_env_var == ""
  unfolding convert_to_namespace_map get_watch_namespaces
  no_namespaces splits =
      let additional = sh.getenv watch_additional_ns in
      let namespace = sh.getenv watch_namespace_env_var in
      let parts = sh.split_comma additional in
      let ns = if additional == "" then [] else trim_all sh parts in
      let all = if namespace == "" then ns else ns ++ namespace ∷ [] in
      ground (
        arith,
        is_empty-add_namespaces [] all,
        is_empty-append ns (namespace ∷ []),
        is_empty-trim_all sh parts,
        splits additional,
      )

  -- Where strings.Split gives at least one part, as it does for a separator that is not empty, and
  -- the controller runtime reads the map of namespaces as it is documented: with neither variable set
  -- the operator watches every namespace; otherwise it watches those that are a part of the list of
  -- additional namespaces, without the space around it, or the main namespace, each where its
  -- variable is set, but again every namespace if one of these parts is empty.
  pub watches_exactly :
      (watches : Map (Unit {0}) → String → Bool) (k : String)
      → FollowsKeys watches
      → ((s : String) → is_empty (sh.split_comma s) ≡ false)
      → watches (convert_to_namespace_map (get_watch_namespaces sh).0) k ≡ (
          if sh.getenv "ADDITIONAL_WATCH_NAMESPACES" == "" && sh.getenv "WATCH_NAMESPACE" == ""
          then true
          else is_named sh "" || is_named sh k)
  watches_exactly watches k w splits =
      let m = convert_to_namespace_map (get_watch_namespaces sh).0 in
      elim (Bool-cases (is_empty m)) [
        | inl e ↦ rw (sym (no_namespaces splits) ∙ e, empty_map m e) (w.without_entries k)
        | inr e ↦
            rw
              (
                sym (no_namespaces splits) ∙ e,
                w.with_entries m k e,
                key_of_namespace "",
                key_of_namespace k,
              )
              refl
      ]
    where
      empty_map : (m : Map (Unit {0})) → is_empty m ≡ true → m ≡ []
      empty_map [] e = refl
      empty_map (x ∷ m) e = cc
