-- ===== src/Reconcile/Collisions.antt =====
-- Keys of the hash store that two objects share: the key of a service has no namespace.
use hbase_k8s_operator.Prelude.{String, ◌≡◌}
use hbase_k8s_operator.Kube.{Service, services}
use hbase_k8s_operator.Env.{Env, ok}
use hbase_k8s_operator.Action.{State, done, finished, again_in_5, after_get}
use hbase_k8s_operator.Reconcile.Hash.{service_key, service_hash}
use hbase_k8s_operator.Reconcile.Services.{reconcile_service}
use hbase_k8s_operator.Reconcile.Settled.{key_of, settle_service-again, settle_service-Recorded}

module _ (env : Env) where
  -- After an Update of a service in one namespace, a service of the same name and desired spec in
  -- another namespace is taken for up to date: it is read and not updated, and the empty result is
  -- returned, whatever the service that is found there looks like.
  pub reconcile_service-collides :
      (namespace namespace' : String) (svc svc' existing : Service) (s t : State)
      → svc'.meta.name ≡ svc.meta.name
      → service_hash env svc' ≡ service_hash env svc
      → reconcile_service env namespace svc s ≡ (done again_in_5, t)
      → env.services.get t.history (key_of svc'.meta.name namespace') ≡ ok existing
      → reconcile_service env namespace' svc' t
        ≡ (done finished, after_get services (key_of svc'.meta.name namespace') t)
  unfolding reconcile_service service_key
  reconcile_service-collides namespace namespace' svc svc' existing s t name hash h found =
      rw found (
        settle_service-Recorded env svc' existing _
          (rw (hash, name) (settle_service-again env svc _ _ t h)))
