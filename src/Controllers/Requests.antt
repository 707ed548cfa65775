-- ===== src/Controllers/Requests.antt =====
-- Requests to the three controllers one after another, in any order.
use hbase_k8s_operator.Prelude.{List, [], ◌∷◌}
use hbase_k8s_operator.Api.{NamespacedName}
use hbase_k8s_operator.Env.{Env}
use hbase_k8s_operator.Action.{State, Action, Flow, Reply}
use hbase_k8s_operator.Controllers.Cluster.{reconcile_cluster}
use hbase_k8s_operator.Controllers.Tenant.{reconcile_tenant}
use hbase_k8s_operator.Controllers.Standalone.{reconcile_standalone}
use hbase_k8s_operator.Controllers.Contract.{Contract, Meets}
use hbase_k8s_operator.Controllers.Whole.{
  reconcile_cluster-Meets, reconcile_tenant-Meets, reconcile_standalone-Meets,
}

pub data Request : Type 0 where
  cluster tenant standalone : NamespacedName → Request

unfoldable pub handle : Env → Request → Action Reply
handle env (cluster req) = reconcile_cluster env req
handle env (tenant req) = reconcile_tenant env req
handle env (standalone req) = reconcile_standalone env req

unfoldable pub serve : Env → State → List Request → State
serve env s [] = s
serve env s (r ∷ rest) = serve env (handle env r s).1 rest

pub handle-Meets :
    {env : Env} {R : State → Flow Reply → State → Type 0}
    → Contract env R
    → (r : Request) → Meets R (handle env r)
unfolding handle
handle-Meets c (cluster req) = reconcile_cluster-Meets c req
handle-Meets c (tenant req) = reconcile_tenant-Meets c req
handle-Meets c (standalone req) = reconcile_standalone-Meets c req

-- What every request keeps holds after all of them.
pub serve_induction :
    (env : Env) (P : State → Type 0)
    → ((r : Request) (s : State) → P s → P (handle env r s).1)
    → (s : State) (requests : List Request) → P s
    → P (serve env s requests)
unfolding serve
serve_induction env P step s [] p = p
serve_induction env P step s (r ∷ rest) p =
    serve_induction env P step (handle env r s).1 rest (step r s p)
