-- ===== src/Reconcile/Recounts.antt =====
-- What publishEvent writes: a new event with count 1, or one more of the event that exists.
use hbase_k8s_operator.Prelude.{
  String, ◌≡◌, refl, true, false, Bool-cases, inl, inr, pos, ◌∷◌, List, [], ℕ, ◌++◌, next_int32,
}
use hbase_k8s_operator.Kube.{Event, event, events}
use hbase_k8s_operator.Env.{Env, Error, Answer, ok, err, Call, got, created, updated}
use hbase_k8s_operator.Action.{State, done, ◌>>=◌}
use hbase_k8s_operator.Build.Event.{build_event}
use hbase_k8s_operator.Reconcile.Events.{publish_event, write_event}
use hbase_k8s_operator.Reconcile.Settled.{key_of}

-- The two events say the same: all but the count and the times.
abbrev pub SaysTheSame : Event → String → String → String → String → String → Type 0
SaysTheSame e namespace reason message level kind =
    (e.meta.name ≡ reason)
    × (e.meta.namespace ≡ namespace)
    × (e.reason ≡ reason)
    × (e.message ≡ message)
    × (e.event_type ≡ level)
    × (e.involved_kind ≡ kind)

-- The calls of publishEvent after its Get, given what the Get answers, at a time: an Update of an
-- event that exists, which counts one more and keeps the time when it was first seen; the creation of
-- one that is not there; and nothing where the Get fails otherwise.
pub data Written (namespace reason message level kind : String) (time : ℕ)
    : Answer Event → List Call → Type 0 where
  again :
      (existing sent : Event)
      → SaysTheSame sent namespace reason message level kind
      → sent.count ≡ next_int32 existing.count
      → sent.first_timestamp ≡ existing.first_timestamp
      → sent.last_timestamp ≡ time
      → sent.meta.resource_version ≡ existing.meta.resource_version
      → Written namespace reason message level kind time (ok existing) (updated (event sent) ∷ [])
  first :
      (e : Error) (sent : Event)
      → e.is_not_found ≡ true
      → SaysTheSame sent namespace reason message level kind
      → sent.count ≡ pos 1
      → sent.first_timestamp ≡ time
      → sent.last_timestamp ≡ time
      → Written namespace reason message level kind time (err e) (created (event sent) ∷ [])
  nothing :
      (e : Error)
      → e.is_not_found ≡ false
      → Written namespace reason message level kind time (err e) []

module _ (env : Env) (namespace reason message level kind : String) (s : State) where
  written :
      (time : ℕ) (answer : Answer Event) (t : State)
      → let (f, u) =
          write_event env (build_event time namespace reason message level kind) answer t in
        (f ≡ done tt)
        × (u.hash_store ≡ t.hash_store)
        × (calls : List Call) × (u.history ≡ calls ++ t.history)
        × Written namespace reason message level kind time answer calls
  unfolding write_event ◌>>=◌ build_event
  written time (ok existing) t = (
    refl,
    refl,
    _,
    refl,
    again existing _ (refl, refl, refl, refl, refl, refl) refl refl refl refl,
  )
  written time (err e) t = elim (Bool-cases e.is_not_found) [
    | inl b ↦
        rw b
          (refl, refl, _, refl, first _ _ refl (refl, refl, refl, refl, refl, refl) refl refl refl)
    | inr b ↦ rw b (refl, refl, [], refl, nothing _ refl)
  ]

  -- publishEvent always ends normally and leaves the hash store alone. Its calls are a Get of the event
  -- with the reason as name, and then at most one write: an Update that counts one more (an int32,
  -- which wraps) and keeps the first time of the event that exists, or the creation of an event with
  -- count 1. Errors of the write are dropped, and an error of the Get other than "not found" ends it.
  pub publish_event-Written :
      let (f, t) = publish_event env namespace reason message level kind s in
      (f ≡ done tt)
      × (t.hash_store ≡ s.hash_store)
      × (calls : List Call) × (t.history
          ≡ calls ++ got events (key_of reason namespace) ∷ s.history)
      × Written namespace reason message level kind
          (env.now s.history)
          (env.events.get s.history (key_of reason namespace))
          calls
  unfolding publish_event ◌>>=◌ build_event
  publish_event-Written =
      written (env.now s.history) (env.events.get s.history (key_of reason namespace)) _
