-- ===== src/Build/Containers/Init.antt =====
-- Which init containers a StatefulSet has.
use hbase_k8s_operator.Prelude.{
  String, ◌≡◌, refl, Bool, true, false, Bool-cases, inl, inr, List, [], ◌∷◌, if◌then◌else◌,
}
use hbase_k8s_operator.Api.{HbaseClusterConfiguration, HbaseClusterInitContainer}
use hbase_k8s_operator.Env.{Env}
use hbase_k8s_operator.Build.Outcome.{collect}
use hbase_k8s_operator.Build.Containers.{build_init_container, build_init_containers}

-- The init containers that are not for the bootstrap only, or all of them during the bootstrap.
abbrev pub wanted : Bool → List HbaseClusterInitContainer → List HbaseClusterInitContainer
wanted true cs = cs
wanted false [] = []
wanted false (c ∷ cs) = if c.is_bootstrap then wanted false cs else c ∷ wanted false cs

-- buildInitContainers builds the init containers that are not for the bootstrap only, or all of them
-- during the bootstrap, in their order, and fails as the first of these does; the others it does
-- not look at.
pub build_init_containers-collect :
    (env : Env) (base_image : String) (config : HbaseClusterConfiguration)
    (cs : List HbaseClusterInitContainer) (is_bootstrap : Bool)
    → build_init_containers env base_image config cs is_bootstrap
      ≡ collect (build_init_container env base_image config) (wanted is_bootstrap cs)
unfolding build_init_containers collect
build_init_containers-collect env base_image config [] true = refl
build_init_containers-collect env base_image config [] false = refl
build_init_containers-collect env base_image config (c ∷ cs) true =
    elim (Bool-cases c.is_bootstrap) [
      | inl e ↦ rw (e, build_init_containers-collect env base_image config cs true) refl
      | inr e ↦ rw (e, build_init_containers-collect env base_image config cs true) refl
    ]
build_init_containers-collect env base_image config (c ∷ cs) false =
    elim (Bool-cases c.is_bootstrap) [
      | inl e ↦ rw e (build_init_containers-collect env base_image config cs false)
      | inr e ↦ rw (e, build_init_containers-collect env base_image config cs false) refl
    ]
