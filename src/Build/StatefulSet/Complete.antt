-- ===== src/Build/StatefulSet/Complete.antt =====
-- When buildStatefulSet succeeds: every quantity that it parses is one.
use hbase_k8s_operator.Prelude.{
  String, ◌≡◌, refl, ◌∙◌, ◌++◌, Bool, true, false, not, ◌||◌, Bool-cases, inl, inr, ℤ, some, List,
  [], ◌∷◌, All, arith, eq_iff, ◌==◌, if◌then◌else◌,
}
use mathlib.Core.List.{map, map-append}
use hbase_k8s_operator.Build.Containers.Init.{wanted, build_init_containers-collect}
use hbase_k8s_operator.Api.{
  HbaseClusterConfiguration, HbaseClusterDeployment, HbaseClusterVolume, HbaseClusterVolumeClaim,
  HbaseClusterContainer, HbaseClusterSideCarContainer, HbaseClusterInitContainer,
}
use hbase_k8s_operator.Kube.{StatefulSet, Container, Volume}
use hbase_k8s_operator.Env.{Env}
use hbase_k8s_operator.Build.Outcome.{Outcome, built, collect, is_nonempty, must_parse}
use hbase_k8s_operator.Build.Volumes.{
  build_size_limit, build_volume, build_volumes, build_volume_claim, build_volume_claims,
}
use hbase_k8s_operator.Build.Containers.{
  build_resources, build_container, build_side_car_container, build_containers,
  build_init_container,
}
use hbase_k8s_operator.Build.StatefulSet.{build_stateful_set}

-- It builds something.
abbrev pub Builds : {A : Type 0} → Outcome A → Type 0
Builds {A} o = (a : A) × (o ≡ built a)

-- It builds something that looks like this.
abbrev BuildsAs : {A C : Type 0} → (A → C) → C → Outcome A → Type 0
BuildsAs {A} look x o = (a : A) × (o ≡ built a) × (look a ≡ x)

module _ {A B C : Type 0} where
  -- A loop whose every turn builds something builds all of them, in their order.
  collect-built :
      (f : A → Outcome B) (look : B → C) (expected : A → C) (xs : List A)
      → All (λ x. BuildsAs look (expected x) (f x)) xs
      → BuildsAs (map look) (map expected xs) (collect f xs)
  unfolding collect
  collect-built f look expected [] h = ([], refl, refl)
  collect-built f look expected (x ∷ xs) ((y, e, l), h) =
      let (ys, q, m) = collect-built f look expected xs h in
      (y ∷ ys, rw (e, q) refl, rw (l, m) refl)

All-map :
    {A : Type 0} {P Q : A → Type 0} (xs : List A) → ((x : A) → P x → Q x) → All P xs → All Q xs
All-map [] f h = tt
All-map (x ∷ xs) f (h, hs) = (f x h, All-map xs f hs)

-- A volume has the name that the resource gives it, unless its source is not known.
abbrev pub volume_name : HbaseClusterVolume → String
volume_name v =
    let s = v.volume_source in
    if s == "ConfigMap" || s == "EmptyDir" || s == "Secret" || s == "HostPath" then v.name else ""

abbrev pub Process : Type 0
Process = String × String × List String × List String

-- What a container runs: its name and image, its command and arguments.
abbrev pub process : Container → Process
process c = (c.name, c.image, c.command, c.args)

module _ (env : Env) where
  abbrev pub Parses : String → Type 0
  Parses s = (q : String) × (env.parse_quantity s ≡ some q)

  -- The four quantities of a container.
  abbrev pub ParsesAll : String → String → String → String → Type 0
  ParsesAll a b c d = Parses a × Parses b × Parses c × Parses d

  -- The quantities of a deployment. The size limit of a volume counts only if it is an EmptyDir and
  -- has one, and an init container for the bootstrap only during the bootstrap.
  pub record IsParsable (d : HbaseClusterDeployment) (is_bootstrap : Bool) : Type 0 where
    pub volumes :
        All
          (λ v.
            v.volume_source ≡ "EmptyDir" → is_nonempty v.size_limit ≡ true → Parses v.size_limit)
          d.volumes
    pub claims : All (λ v. Parses v.storage_size) d.volume_claims
    pub containers :
        All (λ c. ParsesAll c.cpu_limit c.memory_limit c.cpu_request c.memory_request) d.containers
    pub side_cars :
        All
          (λ c. ParsesAll c.cpu_limit c.memory_limit c.cpu_request c.memory_request)
          d.side_car_containers
    pub init_containers :
        All
          (λ c.
            (not c.is_bootstrap || is_bootstrap) ≡ true
            → ParsesAll c.cpu_limit c.memory_limit c.cpu_request c.memory_request)
          d.init_containers

  build_resources-Builds :
      (a b c d : String) → ParsesAll a b c d → Builds (build_resources env a b c d)
  unfolding build_resources must_parse
  build_resources-Builds a b c d ((w, e), (x, f), (y, g), (z, h)) =
      rw (e, f, g, h, must_parse) (_, refl)

  either_built :
      (b : Bool) (x y : Volume)
      → BuildsAs (λ v. v.name) (if b then x.name else y.name) (if b then built x else built y)
  either_built true x y = (x, refl, refl)
  either_built false x y = (y, refl, refl)

  build_volume-Builds :
      (v : HbaseClusterVolume)
      → (v.volume_source ≡ "EmptyDir" → is_nonempty v.size_limit ≡ true → Parses v.size_limit)
      → BuildsAs (λ x. x.name) (volume_name v) (build_volume env v)
  unfolding build_volume build_size_limit
  build_volume-Builds v h = elim (Bool-cases (v.volume_source == "ConfigMap")) [
    | inl a ↦ rw a (_, refl, refl)
    | inr a ↦ elim (Bool-cases (v.volume_source == "EmptyDir")) [
      | inl b ↦ elim (Bool-cases (is_nonempty v.size_limit)) [
        | inl c ↦ let (q, e) = h ((eq_iff _ _).0 b) c in rw (a, b, c, e) (_, refl, refl)
        | inr c ↦ rw (a, b, c) (_, refl, refl)
      ]
      | inr b ↦ elim (Bool-cases (v.volume_source == "Secret")) [
        | inl c ↦ rw (a, b, c) (_, refl, refl)
        | inr c ↦ rw (a, b, c) (either_built (v.volume_source == "HostPath") _ _)
      ]
    ]
  ]

  build_volume_claim-Builds :
      (namespace : String) (v : HbaseClusterVolumeClaim)
      → Parses v.storage_size
      → BuildsAs (λ x. x.meta.name) v.name (build_volume_claim env namespace v)
  unfolding build_volume_claim must_parse
  build_volume_claim-Builds namespace v (q, e) = rw (e, must_parse) (_, refl, refl)

  build_container-Builds :
      (base_image : String) (config : HbaseClusterConfiguration) (c : HbaseClusterContainer)
      → ParsesAll c.cpu_limit c.memory_limit c.cpu_request c.memory_request
      → BuildsAs process
          (c.name, base_image, c.command, c.args)
          (build_container env base_image config c)
  unfolding build_container
  build_container-Builds base_image config c h =
      let (r, e) = build_resources-Builds _ _ _ _ h in rw e (_, refl, refl)

  build_side_car_container-Builds :
      (config : HbaseClusterConfiguration) (c : HbaseClusterSideCarContainer)
      → ParsesAll c.cpu_limit c.memory_limit c.cpu_request c.memory_request
      → BuildsAs process
          (c.name, c.image, c.command, c.args)
          (build_side_car_container env config c)
  unfolding build_side_car_container
  build_side_car_container-Builds config c h =
      let (r, e) = build_resources-Builds _ _ _ _ h in rw e (_, refl, refl)

  build_init_container-Builds :
      (base_image : String) (config : HbaseClusterConfiguration) (c : HbaseClusterInitContainer)
      → ParsesAll c.cpu_limit c.memory_limit c.cpu_request c.memory_request
      → BuildsAs process
          (c.name, base_image, c.command, c.args)
          (build_init_container env base_image config c)
  unfolding build_init_container
  build_init_container-Builds base_image config c h =
      let (r, e) = build_resources-Builds _ _ _ _ h in rw e (_, refl, refl)

  -- The init containers that are built are those whose quantities have to parse.
  wanted-All :
      (P : HbaseClusterInitContainer → Type 0) (is_bootstrap : Bool)
      (cs : List HbaseClusterInitContainer)
      → All (λ c. (not c.is_bootstrap || is_bootstrap) ≡ true → P c) cs
      → All P (wanted is_bootstrap cs)
  wanted-All P true [] h = tt
  wanted-All P false [] h = tt
  wanted-All P true (c ∷ cs) (h, hs) = (h (ground arith), wanted-All P true cs hs)
  wanted-All P false (c ∷ cs) (h, hs) = keep c.is_bootstrap h (wanted-All P false cs hs)
    where
      keep :
          (b : Bool)
          → ((not b || false) ≡ true → P c)
          → All P (wanted false cs)
          → All P (if b then wanted false cs else c ∷ wanted false cs)
      keep true h hs = hs
      keep false h hs = (h refl, hs)

  -- Where every quantity of the deployment parses, buildStatefulSet neither fails nor panics. Its
  -- StatefulSet has the deployment's name and size, and these parts, each in the order of the
  -- deployment's: a volume for each of the two config maps and for each of the deployment's, by
  -- their names (none where its source is not known); every volume claim, by its name; and the side
  -- cars and then the containers, and the init containers that are not for the bootstrap only or, in
  -- the bootstrap, all of them, by name, image, command and arguments.
  pub build_stateful_set-total :
      (name namespace base_image : String) (is_bootstrap : Bool)
      (config : HbaseClusterConfiguration) (config_version : String) (fsgroup : ℤ)
      (d : HbaseClusterDeployment) (is_multi_stateful_set : Bool)
      → IsParsable d is_bootstrap
      → (ss : StatefulSet) × (build_stateful_set env name namespace base_image is_bootstrap config
            config_version fsgroup d is_multi_stateful_set
          ≡ built ss)
        × (ss.meta.name ≡ d.name)
        × (ss.spec.replicas ≡ d.size)
        × (map (λ v. v.name) ss.spec.template.volumes
            ≡ config.hbase_config_name ∷ config.hadoop_config_name ∷ map volume_name d.volumes)
        × (map (λ v. v.meta.name) ss.spec.volume_claim_templates
            ≡ map (λ v. v.name) d.volume_claims)
        × (map process ss.spec.template.containers
            ≡ map (λ c. (c.name, c.image, c.command, c.args)) d.side_car_containers
              ++ map (λ c. (c.name, base_image, c.command, c.args)) d.containers)
        × (map process ss.spec.template.init_containers
            ≡ map
                (λ c. (c.name, base_image, c.command, c.args))
                (wanted is_bootstrap d.init_containers))
  unfolding build_stateful_set build_volumes build_volume_claims build_containers
  build_stateful_set-total name namespace base_image is_bootstrap config config_version fsgroup d
        is_multi_stateful_set h =
      let (vs, e, n) =
        collect-built (build_volume env) (λ v. v.name) volume_name d.volumes
          (All-map _ build_volume-Builds h.volumes) in
      let (ws, f, m) =
        collect-built (build_volume_claim env namespace) (λ v. v.meta.name) (λ v. v.name)
          d.volume_claims (All-map _ (build_volume_claim-Builds namespace) h.claims) in
      let (xs, g, k) =
        collect-built (build_side_car_container env config) process
          (λ c. (c.name, c.image, c.command, c.args)) d.side_car_containers
          (All-map _ (build_side_car_container-Builds config) h.side_cars) in
      let (ys, p, l) =
        collect-built (build_container env base_image config) process
          (λ c. (c.name, base_image, c.command, c.args)) d.containers
          (All-map _ (build_container-Builds base_image config) h.containers) in
      let (zs, q, r) =
        collect-built (build_init_container env base_image config) process
          (λ c. (c.name, base_image, c.command, c.args)) (wanted is_bootstrap d.init_containers)
          (All-map _ (build_init_container-Builds base_image config)
            (wanted-All _ is_bootstrap d.init_containers h.init_containers)) in
      let q' =
        build_init_containers-collect env base_image config d.init_containers is_bootstrap ∙ q in
      rw (e, f, g, p, q')
        (_, refl, refl, refl, rw n refl, m, map-append process xs ys ∙ rw (k, l) refl, r)
