-- ===== src/Controllers/CarryOver.antt =====
-- The config version on its way from the annotations of a pod template to the server and back.
use hbase_k8s_operator.Prelude.{String, ◌≡◌, refl, Bool, true, false, ◌⊎◌, inl, inr, none, ℤ, arith}
use hbase_k8s_operator.GoMap.{entries, lookup, lookup-insert_self}
use hbase_k8s_operator.Api.{
  HbaseClusterConfiguration, HbaseClusterDeployment, HbaseTenant, HbaseCluster,
}
use hbase_k8s_operator.Kube.{StatefulSet}
use hbase_k8s_operator.Env.{Env, ok}
use hbase_k8s_operator.Action.{State, done, ◌>>=◌}
use hbase_k8s_operator.Build.Outcome.{Outcome, built, is_nonempty}
use hbase_k8s_operator.Build.ConfigMap.{text_or_empty}
use hbase_k8s_operator.Build.StatefulSet.{
  stateful_set_v2_annotation, template_annotations, build_stateful_set,
}
use hbase_k8s_operator.Reconcile.Annotations.{
  get_stateful_set_annotation, get_existing_annotation_of_stateful_set,
  get_existing_annotation_of_cluster_stateful_set,
}
use hbase_k8s_operator.Controllers.Steps.{
  Owner, Template, is_restart_enabled, reconcile_config_label,
}
use hbase_k8s_operator.Controllers.Cluster.{cluster_owner, cluster_template, cluster_config_version}
use hbase_k8s_operator.Controllers.Tenant.{
  tenant_label, tenant_owner, tenant_template, tenant_config_version,
}

-- What apply_deployment builds.
abbrev pub built_for : Env → Owner → Template → HbaseClusterDeployment → Outcome StatefulSet
built_for env o t d =
    build_stateful_set env o.meta.name o.meta.namespace t.base_image t.is_bootstrap t.configuration
      t.config_version t.fs_group d t.is_multi_stateful_set

annotations-build_stateful_set :
    (env : Env) (name namespace base_image : String) (is_bootstrap : Bool)
    (config : HbaseClusterConfiguration) (version : String) (fsgroup : ℤ)
    (d : HbaseClusterDeployment) (is_multi : Bool) (ss : StatefulSet)
    → build_stateful_set env name namespace base_image is_bootstrap config version fsgroup d
        is_multi
      ≡ built ss
    → entries ss.spec.template_annotations ≡ template_annotations version d
unfolding build_stateful_set
annotations-build_stateful_set env name namespace base_image is_bootstrap config version fsgroup d
      is_multi ss h =
    ground arith

-- The deployment's own annotations do not set a version that the template does not have.
abbrev pub IsUnambiguous : String → HbaseClusterDeployment → Type 0
IsUnambiguous version d =
    (is_nonempty version ≡ true)
    ⊎ ((version ≡ "") × (lookup stateful_set_v2_annotation (entries d.annotations) ≡ none))

version_of_template :
    (version : String) (d : HbaseClusterDeployment)
    → IsUnambiguous version d
    → text_or_empty (lookup stateful_set_v2_annotation (template_annotations version d)) ≡ version
unfolding template_annotations
version_of_template version d (inl e) = rw (e, lookup-insert_self) refl
version_of_template version d (inr (e, h)) = rw (e, h) refl

-- A config version that buildStatefulSet has written into a StatefulSet is what
-- getStatefulSetAnnotation reads, where the server answers with the same template annotations and
-- the version is not empty, or is empty and the deployment's own annotations have none.
pub get_stateful_set_annotation-build_stateful_set :
    (env : Env) (o : Owner) (t : Template) (d : HbaseClusterDeployment) (name namespace : String)
    (s : State) (ss live : StatefulSet)
    → built_for env o t d ≡ built ss
    → env.stateful_sets.get s.history (record { name = name; namespace = namespace }) ≡ ok live
    → live.spec.template_annotations ≡ ss.spec.template_annotations
    → IsUnambiguous t.config_version d
    → (get_stateful_set_annotation env name namespace s).0 ≡ done t.config_version
unfolding get_stateful_set_annotation ◌>>=◌
get_stateful_set_annotation-build_stateful_set env o t d name namespace s ss live b found same h =
    let e =
      annotations-build_stateful_set env o.meta.name o.meta.namespace t.base_image t.is_bootstrap
        t.configuration t.config_version t.fs_group d t.is_multi_stateful_set ss b in
    rw (found, same, e, version_of_template t.config_version d h) refl

-- A tenant whose label does not ask for a restart, and whose StatefulSet on the server has the
-- template annotations of the one that was built with a version, gets the same version again.
pub tenant_config_version-kept :
    (env : Env) (tenant : HbaseTenant) (version : String) (s : State) (ss live : StatefulSet)
    → is_restart_enabled (tenant_label tenant) ≡ false
    → built_for env (tenant_owner tenant) (tenant_template tenant version) tenant.spec.datanode
      ≡ built ss
    → env.stateful_sets.get s.history
        (record { name = tenant.spec.datanode.name; namespace = tenant.meta.namespace })
      ≡ ok live
    → live.spec.template_annotations ≡ ss.spec.template_annotations
    → IsUnambiguous version tenant.spec.datanode
    → (tenant_config_version env tenant s).0 ≡ done version
unfolding tenant_config_version get_existing_annotation_of_stateful_set
tenant_config_version-kept env tenant version s ss live off b found same h = rw off (
    get_stateful_set_annotation-build_stateful_set env (tenant_owner tenant)
      (tenant_template tenant version) tenant.spec.datanode tenant.spec.datanode.name
      tenant.meta.namespace s ss live b found same h)

-- A cluster whose label does not ask for a restart, and whose datanodes' StatefulSet on the server
-- has the template annotations of the one that was built with a version, gets the same version
-- again.
pub cluster_config_version-kept :
    (env : Env) (cluster : HbaseCluster) (version : String) (s : State) (ss live : StatefulSet)
    → is_restart_enabled (lookup reconcile_config_label (entries cluster.spec.service_labels))
      ≡ false
    → built_for env
        (cluster_owner cluster)
        (cluster_template cluster version)
        cluster.spec.deployments.datanode
      ≡ built ss
    → env.stateful_sets.get s.history (record {
      name = cluster.spec.deployments.datanode.name;
      namespace = cluster.meta.namespace;
    })
      ≡ ok live
    → live.spec.template_annotations ≡ ss.spec.template_annotations
    → IsUnambiguous version cluster.spec.deployments.datanode
    → (cluster_config_version env cluster s).0 ≡ done version
unfolding cluster_config_version get_existing_annotation_of_cluster_stateful_set
cluster_config_version-kept env cluster version s ss live off b found same h = rw off (
    get_stateful_set_annotation-build_stateful_set env (cluster_owner cluster)
      (cluster_template cluster version) cluster.spec.deployments.datanode
      cluster.spec.deployments.datanode.name cluster.meta.namespace s ss live b found same h)
