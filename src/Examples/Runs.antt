-- ===== src/Examples/Runs.antt =====
-- The theorems on whole runs, at concrete requests.
use hbase_k8s_operator.Prelude.{[], ◌∷◌}
use hbase_k8s_operator.Action.{start}
use hbase_k8s_operator.Controllers.Requests.{cluster, tenant, standalone, handle, serve}
use hbase_k8s_operator.Controllers.OneChange.{Gentle, handle-Gentle}
use hbase_k8s_operator.Controllers.Honest.{IsHonest, serve-IsHonest}
use hbase_k8s_operator.Examples.World.{world, key}

handle-Gentle_example : let (f, t) = handle world (cluster key) start in Gentle start f t
handle-Gentle_example = handle-Gentle world (cluster key) start

serve-IsHonest_example :
    IsHonest world
      (serve world start (cluster key ∷ tenant key ∷ cluster key ∷ standalone key ∷ []))
serve-IsHonest_example =
    serve-IsHonest world [] (cluster key ∷ tenant key ∷ cluster key ∷ standalone key ∷ [])
