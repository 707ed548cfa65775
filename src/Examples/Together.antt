-- ===== src/Examples/Together.antt =====
-- Two StatefulSets that are reconciled at the same time.
use hbase_k8s_operator.Prelude.{String, ◌≡◌, refl, ℕ, List, [], ◌∷◌, length}
use hbase_k8s_operator.GoMap.{lookup, insert}
use hbase_k8s_operator.Env.{Env}
use hbase_k8s_operator.Action.{start}
use hbase_k8s_operator.Reconcile.Hash.{stateful_set_key, stateful_set_hash, as_sha256}
use hbase_k8s_operator.Controllers.Honest.{IsHonest}
use hbase_k8s_operator.Concurrent.Program.{step, step_at, interleave}
use hbase_k8s_operator.Concurrent.StatefulSets.{settle_steps, reconcile_steps}
use hbase_k8s_operator.Concurrent.Jobs.{Job, stateful_set_job, programs, concurrent-IsHonest}
use hbase_k8s_operator.Examples.World.{world, workload, deployment, server_with}

-- A server that has the StatefulSets.
abbrev busy : Env
busy = record world { stateful_sets = server_with workload }

abbrev job : String → Job
job name =
    stateful_set_job "ns" (record workload { meta = record (workload.meta) { name = name } })
      (deployment name)

abbrev jobs : List Job
jobs = job "a" ∷ job "b" ∷ []

-- Both read, both look into the hash store, both update, and both record.
abbrev schedule : List ℕ
schedule = 0 ∷ 1 ∷ 1 ∷ 0 ∷ 0 ∷ 1 ∷ 1 ∷ 0 ∷ []

concurrent-IsHonest_example : IsHonest busy (interleave schedule (programs busy jobs) start).1
concurrent-IsHonest_example = concurrent-IsHonest busy [] jobs schedule

-- The hash store has both hashes at the end, after four calls.
two_hashes : length (interleave schedule (programs busy jobs) start).1.hash_store ≡ 2
unfolding interleave step_at step reconcile_steps settle_steps lookup insert stateful_set_key
    stateful_set_hash as_sha256
two_hashes = refl

four_calls : length (interleave schedule (programs busy jobs) start).1.history ≡ 4
unfolding interleave step_at step reconcile_steps settle_steps lookup insert stateful_set_key
    stateful_set_hash as_sha256
four_calls = refl
