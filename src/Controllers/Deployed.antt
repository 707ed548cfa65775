-- ===== src/Controllers/Deployed.antt =====
-- What success means for the server: a cluster whose Reconcile method succeeds has had all its
-- StatefulSets accepted.
use hbase_k8s_operator.Prelude.{
  String, ◌≡◌, ◌≢◌, sym, ap, subst, none, some, Option, List, [], ◌∷◌, All,
}
use hbase_k8s_operator.Api.{NamespacedName, HbaseCluster, HbaseClusterDeployment}
use hbase_k8s_operator.Kube.{hbase_clusters}
use hbase_k8s_operator.Env.{Env, ok, Call}
use hbase_k8s_operator.Action.{State, after_get}
use hbase_k8s_operator.Build.ConfigMap.{text_or_empty}
use hbase_k8s_operator.Reconcile.Hash.{as_sha256, stateful_set_key, stateful_set_hash}
use hbase_k8s_operator.Controllers.Steps.{Owner, Template, own_stateful_set}
use hbase_k8s_operator.Controllers.Cluster.{
  cluster_owner, cluster_template, deployments_of, reconcile_cluster,
}
use hbase_k8s_operator.Controllers.Requests.{Request, cluster, handle, serve}
use hbase_k8s_operator.Controllers.Honest.{Accepted, IsHonest, handle-IsHonest, serve-IsHonest}
use hbase_k8s_operator.Controllers.Ready.{Ready}
use hbase_k8s_operator.Controllers.Ready.Finish.{Finishes}
use hbase_k8s_operator.Controllers.Success.Cluster.{reconcile_cluster-Ready}

-- The server has accepted an Update of the StatefulSet that is wanted, up to its hash, and was then
-- asked for it and had all its replicas ready at the latest revision.
pub record IsDeployed (env : Env) (o : Owner) (t : Template) (s u : State)
    (d : HbaseClusterDeployment) : Type 0 where
  pub ready : Ready env o t s u d
  pub accepted :
      let ss = own_stateful_set env o ready.wanted in
      Accepted env (stateful_set_key ss) (stateful_set_hash env ss) u.history

entry_of : (o : Option String) (hash : String) → text_or_empty o ≡ hash → hash ≢ "" → o ≡ some hash
entry_of none hash e n = absurd (n (sym e))
entry_of (some x) hash e n = ap some e

module _ (env : Env) (hashes : (text : String) → env.sha256_hex text ≢ "") where
  Ready-IsDeployed :
      (o : Owner) (t : Template) (s u : State) (ds : List HbaseClusterDeployment)
      → IsHonest env u
      → All (Ready env o t s u) ds
      → All (IsDeployed env o t s u) ds
  unfolding stateful_set_hash as_sha256
  Ready-IsDeployed o t s u [] p h = tt
  Ready-IsDeployed o t s u (d ∷ ds) p (h, hs) = (
    record { ready = h; accepted = p.recorded _ _ (entry_of _ _ h.is_recorded (hashes _)) },
    Ready-IsDeployed o t s u ds p hs,
  )

  -- Where no hash is the empty text: if an operator starts with an empty hash store, serves requests,
  -- and then serves one for a cluster that exists and ends with the empty result and no error, then
  -- all deployments of the cluster have the same config version, and for each of them the server has
  -- accepted, at some time, an Update of a StatefulSet with the same hash as the one that
  -- buildStatefulSet makes of it, and in this last run the deployment's StatefulSet had all replicas
  -- ready at the latest revision.
  pub serve-IsDeployed :
      (before : List Call) (requests : List Request) (req : NamespacedName) (c : HbaseCluster)
      (u : State)
      → let s = serve env (record { hash_store = []; history = before }) requests in
        env.get_hbase_cluster s.history req ≡ ok c
        → Finishes (reconcile_cluster env req) s u
        → (version : String) × All
            (IsDeployed env
              (cluster_owner c)
              (cluster_template c version)
              (after_get hbase_clusters req s)
              u)
            (deployments_of c.spec.deployments)
  unfolding handle
  serve-IsDeployed before requests req c u found h =
      let s = serve env (record { hash_store = []; history = before }) requests in
      let (valid, version, all) = reconcile_cluster-Ready env req c s u found h in
      let p = handle-IsHonest env (cluster req) s (serve-IsHonest env before requests) in
      (version, Ready-IsDeployed _ _ _ u _ (subst (IsHonest env) (ap (λ x. x.1) h.ends) p) all)
