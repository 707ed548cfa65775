-- ===== src/Examples/Watching.antt =====
-- The namespaces that an operator watches, for several values of its two variables.
use hbase_k8s_operator.Prelude.{
  ◌≡◌, refl, String, Bool, false, true, ◌||◌, ◌&&◌, [], ◌∷◌, ◌==◌, if◌then◌else◌,
}
use hbase_k8s_operator.GoMap.{Map, lookup, insert}
use hbase_k8s_operator.Watch.{
  Shell, watch_namespace_env_var, trim_all, get_watch_namespaces, add_namespaces,
  convert_to_namespace_map,
}
use hbase_k8s_operator.Watch.Exact.{is_key, is_empty, is_named, FollowsKeys, watches_exactly}

-- WATCH_NAMESPACE is "main" and ADDITIONAL_WATCH_NAMESPACES is "a, b".
abbrev pub shell : Shell
shell = record {
  getenv = λ v. if v == watch_namespace_env_var then "main" else "a, b";
  split_comma = λ s. "a" ∷ " b" ∷ [];
  trim_space = λ s. if s == " b" then "b" else s;
}

-- A controller runtime that watches as it is documented.
abbrev runtime_watches : Map (Unit {0}) → String → Bool
runtime_watches [] k = true
runtime_watches (entry ∷ m) k = is_key (lookup "" (entry ∷ m)) || is_key (lookup k (entry ∷ m))

runtime-FollowsKeys : FollowsKeys runtime_watches
runtime-FollowsKeys = record { without_entries = λ k. refl; with_entries = entries_count }
  where
    entries_count :
        (m : Map (Unit {0})) (k : String)
        → is_empty m ≡ false
        → runtime_watches m k ≡ is_key (lookup "" m) || is_key (lookup k m)
    entries_count [] k e = cc
    entries_count (entry ∷ m) k e = refl

watches_exactly_example :
    runtime_watches (convert_to_namespace_map (get_watch_namespaces shell).0) "b" ≡ (
      if shell.getenv "ADDITIONAL_WATCH_NAMESPACES" == "" && shell.getenv "WATCH_NAMESPACE" == ""
      then true
      else is_named shell "" || is_named shell "b")
watches_exactly_example = watches_exactly shell runtime_watches "b" runtime-FollowsKeys (λ s. refl)

-- The additional namespace is watched without its space, and no other.
watches_b : runtime_watches (convert_to_namespace_map (get_watch_namespaces shell).0) "b" ≡ true
unfolding convert_to_namespace_map get_watch_namespaces add_namespaces trim_all lookup insert
watches_b = refl

watches_c : runtime_watches (convert_to_namespace_map (get_watch_namespaces shell).0) "c" ≡ false
unfolding convert_to_namespace_map get_watch_namespaces add_namespaces trim_all lookup insert
watches_c = refl

-- With a comma at the end of ADDITIONAL_WATCH_NAMESPACES, as in "a,", every namespace is watched.
abbrev trailing : Shell
trailing = record {
  getenv = λ v. if v == watch_namespace_env_var then "main" else "a,";
  split_comma = λ s. "a" ∷ "" ∷ [];
  trim_space = λ s. s;
}

watches_all :
    runtime_watches (convert_to_namespace_map (get_watch_namespaces trailing).0) "c" ≡ true
unfolding convert_to_namespace_map get_watch_namespaces add_namespaces trim_all lookup insert
watches_all = refl

-- With neither variable set, too.
abbrev bare : Shell
bare = record { getenv = λ v. ""; split_comma = λ s. s ∷ []; trim_space = λ s. s }

watches_everything :
    runtime_watches (convert_to_namespace_map (get_watch_namespaces bare).0) "c" ≡ true
unfolding convert_to_namespace_map get_watch_namespaces add_namespaces trim_all lookup insert
watches_everything = refl
