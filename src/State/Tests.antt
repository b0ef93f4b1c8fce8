-- ===== src/State/Tests.antt =====
-- Runs of the coordinator, and the theorems at concrete inputs.
use tmuxatlas.Common.{
  ◌≡◌, refl, List, [], ◌∷◌, arith, Bool, true, none, some, Text, bytes, ◌⊎◌, Text-discrete,
  ℕ_discrete, get, put, ok, err, Result, map_values, dict_equal, text_key, trim_space,
}
use tmuxatlas.State.Keys.{key_part, pane_key}
use tmuxatlas.State.Keys.Injective.{Place, IsPlace, key_of, pane_key_injective}
use tmuxatlas.State.Projection.{
  Host, Operation, bare, upsert_host, Host-discrete, Projection, new_projection,
}
use tmuxatlas.State.Projection.Validate.{validate}
use tmuxatlas.State.Projection.Clone.{clone_projection, clone_operation}
use tmuxatlas.State.Projection.Apply.{apply_operation}
use tmuxatlas.State.Commit.{
  apply_all, apply_commit, deep_equal, conclude, CommitResult, DeltaEnvelope, delta_of,
  validate_delta,
}
use tmuxatlas.State.Commit.Effects.{apply_commit-delta, IsDeltaOf}
use tmuxatlas.State.Reconcile.{HostSnapshot, TmuxSession, ReconcileError, desired, reconcile_hosts}
use tmuxatlas.State.Reconcile.Complete.Whole.{
  HasStableTree, SameTree, SameRest, reconcile_hosts_complete,
}
use tmuxatlas.State.Coordinator.{
  Coordinator, commit, new_coordinator, register, snapshot, step, serve,
}
use tmuxatlas.State.Coordinator.Commits.{CommitEnd, commit_outcome}
use tmuxatlas.State.Coordinator.Reader.{Event, command, receive, start, world_run}
use tmuxatlas.State.Coordinator.Follow.{IsFollowing}
use tmuxatlas.State.Coordinator.Follow.Runs.{subscription_follows}

key_part_slash : key_part (bytes "a/b") ≡ bytes "a%2Fb"
unfolding key_part
key_part_slash = refl

abbrev first_pane : Place
first_pane = record {
  host_id = bytes "h";
  session = bytes "a/b";
  window = bytes "@1";
  pane = bytes "%1";
}

first_pane_key : key_of first_pane ≡ bytes "host/h/session/a%2Fb/window/@1/pane/%251"
unfolding pane_key
first_pane_key = refl

first_pane-IsPlace : IsPlace first_pane
first_pane-IsPlace = omega arith

pane_key_injective_example : first_pane ≡ first_pane
pane_key_injective_example =
    pane_key_injective first_pane first_pane first_pane-IsPlace first_pane-IsPlace refl

abbrev accept_all : Text → Bool
accept_all metadata = true

abbrev laptop : Host
laptop = record {
  key = bytes "host/l";
  id = bytes "l";
  display_name = bytes "laptop";
  online = true;
  local = true;
  version = [];
  last_seen = 0;
}

abbrev add_laptop : Operation
add_laptop = record (bare upsert_host []) { host = some laptop }

abbrev later : List Event
later = command (commit (add_laptop ∷ [])) ∷ receive ∷ command (commit (add_laptop ∷ [])) ∷ []

abbrev hub : Coordinator
hub = new_coordinator (bytes "i")

abbrev subscribed_hub : Coordinator
subscribed_hub = register 2 hub

subscription_follows_example : IsFollowing accept_all 1 (
    world_run accept_all 1 later
      (record { hub = subscribed_hub; reader = start (snapshot subscribed_hub) }))
subscription_follows_example =
    subscription_follows accept_all (bytes "i") [] 2 later subscribed_hub (snapshot subscribed_hub)
      1 (omega arith) (unfold step serve new_coordinator register snapshot in refl)

commit_outcome_example :
    CommitEnd accept_all hub
      (add_laptop ∷ [])
      (clone_projection hub.projection)
      (step accept_all (commit (add_laptop ∷ [])) hub)
commit_outcome_example =
    commit_outcome accept_all hub add_laptop [] (unfold new_coordinator in refl)

abbrev one_host : Projection
one_host = record new_projection { hosts = put (bytes "host/l") laptop [] }

abbrev one_host_result : CommitResult
one_host_result = record {
  changed = true;
  revision = 8;
  delta = some (delta_of (bytes "i") 7 (add_laptop ∷ []));
}

apply_commit-delta_example :
    ((d : DeltaEnvelope) × (one_host_result.delta ≡ some d)
      × (validate_delta accept_all d ≡ true)
      × IsDeltaOf d (bytes "i") 7
      × (one_host_result.revision ≡ 8))
    ⊎ ((one_host_result.delta ≡ none)
        × (one_host ≡ new_projection)
        × (one_host_result.revision ≡ 7))
apply_commit-delta_example =
    apply_commit-delta accept_all (bytes "i") new_projection one_host 7 (add_laptop ∷ [])
      one_host_result (unfold trim_space in refl) (omega arith)
      (unfold apply_commit apply_all validate apply_operation conclude deep_equal dict_equal get put
          map_values clone_projection clone_operation Host-discrete Text-discrete ℕ_discrete in
        refl)

abbrev main_session : TmuxSession
main_session = record {
  id = bytes "$1";
  name = bytes "main";
  attached = true;
  created = 1;
  last_activity = 2;
  windows = [];
}

abbrev report : List HostSnapshot
report =
    record {
      id = bytes "l";
      display_name = bytes "laptop";
      online = true;
      local = true;
      version = [];
      sessions = some main_session ∷ [];
    }
    ∷ []

abbrev operations_of : Result ReconcileError (List Operation) → List Operation
operations_of (ok ops) = ops
operations_of (err e) = []

abbrev reported : List Operation
reported = operations_of (reconcile_hosts new_projection report)

new_projection-HasStableTree : HasStableTree new_projection
unfolding get
new_projection-HasStableTree = record {
  hosts = λ k v h. absurd (ground arith);
  sessions = λ k v h. absurd (ground arith);
  windows = λ k v h. absurd (ground arith);
  panes = λ k v h. absurd (ground arith);
}

reconcile_hosts_complete_example :
    (next q : Projection) × (desired report new_projection ≡ ok next)
    × (apply_all accept_all 0 reported new_projection ≡ ok q)
    × SameTree q next
    × SameRest q new_projection
    × (reconcile_hosts q report ≡ ok [])
reconcile_hosts_complete_example =
    reconcile_hosts_complete accept_all new_projection report reported new_projection-HasStableTree
      (unfold reconcile_hosts desired in refl)
