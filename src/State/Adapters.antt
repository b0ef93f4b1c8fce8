-- ===== src/State/Adapters.antt =====
-- pkg/state/adapters.go and ReplaceHosts of pkg/state/projector.go: what the rest of the Hub does to the
-- canonical state. Most of them take a snapshot with one command, compute operations and commit them with
-- another; `between` are the commands that the loop takes from others in the meantime. strconv.Itoa is a
-- parameter, and so is the content of a Value for a number.
pub mod Effects
pub mod Tools
pub mod Samples
mod Tests
use tmuxatlas.Activity as Bytes
use tmuxatlas.Common.{
  ℕ, Bool, true, false, not, ◌&&◌, ◌||◌, Option, none, some, List, [], ◌∷◌, ◌++◌, map, Text, bytes,
  is_empty, same_text, Result, ok, err, ◌>>=◌, if◌then◌else◌, Dict, get, put, has, text_key, holds,
  Option-discrete,
}
use tmuxatlas.State.Commit.{SnapshotEnvelope}
use tmuxatlas.State.Coordinator.{
  Coordinator, Command, commit, take_snapshot, Response, committed, failed, snapshot_of, subscribed,
  done, closed, step, serve,
}
use tmuxatlas.State.Keys.{key_part, session_key}
use tmuxatlas.State.Projection.{
  ToolEvent, Activity, Health, Projection, Operation, bare, Activity-discrete, upsert_tool_event,
  remove_tool_event, upsert_activity, remove_activity, upsert_health, set_metadata,
}
use tmuxatlas.State.Reconcile.{HostSnapshot, ReconcileError, reconcile_hosts, sort_keys, upserts}
use tmuxatlas.State.Values.{Value, scalar, object, int64s, field, end, made, clone_slice}
use tmuxatlas.ToolEvents.{Event, status_active, status_completed}

pub data AdapterError : Type 0 where
  nil_event no_host no_host_key not_marshalled : AdapterError
  not_reconciled : ReconcileError → AdapterError

pub data Reply : Type 0 where
  refused : AdapterError → Reply
  answered : Response → Reply

-- The events that remove what the state has for their key.
abbrev pub is_clearing : Event → Bool
is_clearing e =
    same_text e.status status_active && not e.auto_detected || same_text e.status status_completed

-- hostID: the event's, or the Hub's own.
abbrev pub host_or : Text → Text → Text
host_or host local = if is_empty host then local else host

module _ (itoa : ℕ → Text) where
  unfoldable pub tool_event_key : Text → Text → ℕ → Text → Text → Text
  unfolding session_key key_part
  tool_event_key host session window pane tool =
      session_key host session
      ++ (bytes "/tool/"
          ++ (key_part (itoa window)
              ++ (bytes "/"
                  ++ (key_part pane
                      ++ (bytes "/" ++ (key_part tool ++ (bytes "/" ++ key_part host)))))))

  -- The state's form of an event.
  abbrev pub tool_event_of : Text → Event → ToolEvent
  tool_event_of host e = record {
    key = tool_event_key host e.session e.window e.pane e.tool;
    host_id = host;
    session = e.session;
    window = itoa e.window;
    pane = e.pane;
    tool = e.tool;
    status = e.status;
    message = e.message;
    timestamp = e.timestamp;
    auto_detected = e.auto_detected;
  }

  unfoldable pub tool_event_operation : Option Event → Text → Result AdapterError Operation
  unfolding tool_event_key
  tool_event_operation none local = err nil_event
  tool_event_operation (some e) local =
      let host = host_or e.host local in
      if is_empty host
      then err no_host
      else if is_clearing e
      then ok (bare remove_tool_event (tool_event_key host e.session e.window e.pane e.tool))
      else ok (record (bare upsert_tool_event []) { tool_event = some (tool_event_of host e) })

  -- The loop of ClearToolEvents over the events of the snapshot; an empty session means all.
  abbrev pub is_spared : Text → Text → ℕ → Text → ToolEvent → Bool
  is_spared host session window pane e =
      not (is_empty session)
      && (not (same_text e.host_id host)
          || not (same_text e.session session)
          || not (same_text e.window (itoa window))
          || not (same_text e.pane pane))

  unfoldable pub cleared_keys : Text → Text → ℕ → Text → Dict Text ToolEvent → List Text
  cleared_keys host session window pane [] = []
  cleared_keys host session window pane ((key, e) ∷ events) =
      let rest = cleared_keys host session window pane events in
      if is_spared host session window pane e then rest else key ∷ rest

unfoldable pub activity_key : Text → Text → Text
unfolding session_key
activity_key host session = session_key host session ++ bytes "/activity"

module _ (idle_number : Option ℕ → ℕ) (count_number : ℕ → ℕ) where
  unfoldable pub activity_of : Text → Bytes.Snapshot → Activity
  unfolding activity_key clone_slice
  activity_of host s = record {
    key = activity_key host s.session_name;
    host_id = host;
    session = s.session_name;
    window = [];
    pane = [];
    timestamp = 0;
    payload = object (
        field (bytes "idle_seconds") (scalar (idle_number s.idle)) (
          field (bytes "sparkline") (int64s (clone_slice (made s.sparkline)))
            (field (bytes "total_bytes") (scalar (count_number s.total_bytes)) end)));
  }

  -- The first loop of ReplaceActivity; `none` is a nil pointer among the samples.
  unfoldable pub reported :
      Text → List (Option Bytes.Snapshot) → Dict Text Activity → Dict Text Activity
  unfolding activity_of
  reported local [] next = next
  reported local (none ∷ samples) next = reported local samples next
  reported local (some s ∷ samples) next =
      let host = host_or s.host local in
      reported local samples (
        if is_empty host || is_empty s.session_name
        then next
        else put (activity_of host s).key (activity_of host s) next)

abbrev pub keys_of : {V : Type 0} → Dict Text V → List Text
keys_of [] = []
keys_of ((key, v) ∷ m) = key ∷ keys_of m

unfoldable pub kept_keys : (Text → Bool) → List Text → List Text
kept_keys q [] = []
kept_keys q (k ∷ ks) = let rest = kept_keys q ks in if q k then k ∷ rest else rest

abbrev pub removal_of_activity : Text → Operation
removal_of_activity key = bare remove_activity key

abbrev pub upsert_of_activity : Activity → Operation
upsert_of_activity v = record (bare upsert_activity []) { activity = some v }

-- The two loops over the sorted keys.
unfoldable pub activity_operations : Dict Text Activity → Dict Text Activity → List Operation
unfolding kept_keys
activity_operations current next =
    map removal_of_activity (kept_keys (λ k. not (has k next)) (sort_keys (keys_of current)))
    ++ upserts upsert_of_activity next (
        kept_keys
          (λ k. not (holds (Option-discrete Activity-discrete (get k current) (get k next))))
          (sort_keys (keys_of next)))

module _ (json_valid : Text → Bool) where
  -- c.Commit
  unfoldable pub commit_all : List Operation → Coordinator → Coordinator × Reply
  unfolding step
  commit_all ops c =
      let (after, response) = step json_valid (commit ops) c in (after, answered response)

  abbrev pub commit_result :
      Result AdapterError (List Operation) → Coordinator → Coordinator × Reply
  commit_result (err e) c = (c, refused e)
  commit_result (ok ops) c = commit_all ops c

  -- c.Snapshot fails where the loop has ended, and otherwise gives a snapshot.
  abbrev pub on_snapshot :
      (Projection → Result AdapterError (List Operation))
      → List Command
      → Coordinator × Response
      → Coordinator × Reply
  on_snapshot plan between (c, snapshot_of envelope) =
      commit_result (plan envelope.state) (serve json_valid between c)
  on_snapshot plan between (c, response) = (serve json_valid between c, answered response)

  -- A snapshot, the computation of the operations, and the commit.
  unfoldable pub snapshot_then_commit :
      (Projection → Result AdapterError (List Operation))
      → List Command
      → Coordinator
      → Coordinator × Reply
  unfolding step commit_all
  snapshot_then_commit plan between c = on_snapshot plan between (step json_valid take_snapshot c)

  abbrev pub of_reconcile :
      Result ReconcileError (List Operation) → Result AdapterError (List Operation)
  of_reconcile (ok ops) = ok ops
  of_reconcile (err e) = err (not_reconciled e)

  unfoldable pub replace_hosts :
      List HostSnapshot → List Command → Coordinator → Coordinator × Reply
  unfolding snapshot_then_commit
  replace_hosts hosts = snapshot_then_commit (λ p. of_reconcile (reconcile_hosts p hosts))

  unfoldable pub replace_activity :
      (Option ℕ → ℕ)
      → (ℕ → ℕ)
      → List (Option Bytes.Snapshot)
      → Text
      → List Command
      → Coordinator
      → Coordinator × Reply
  unfolding snapshot_then_commit activity_operations reported
  replace_activity idle_number count_number samples local = snapshot_then_commit (λ p.
      ok (activity_operations p.activity (reported idle_number count_number local samples [])))

  unfoldable pub clear_tool_events :
      (ℕ → Text) → Text → Text → ℕ → Text → List Command → Coordinator → Coordinator × Reply
  unfolding snapshot_then_commit cleared_keys
  clear_tool_events itoa host session window pane = snapshot_then_commit (λ p.
      ok (map (bare remove_tool_event) (cleared_keys itoa host session window pane p.tool_events)))

  abbrev one : Result AdapterError Operation → Result AdapterError (List Operation)
  one (ok op) = ok (op ∷ [])
  one (err e) = err e

  unfoldable pub apply_tool_event :
      (ℕ → Text) → Option Event → Text → Coordinator → Coordinator × Reply
  unfolding commit_all tool_event_operation
  apply_tool_event itoa event local c =
      commit_result (one (tool_event_operation itoa event local)) c

  -- SetMetadata of what json.Marshal gives, none where it fails.
  unfoldable pub set_metadata_to : Text → Option Text → Coordinator → Coordinator × Reply
  unfolding commit_all
  set_metadata_to key none c = (c, refused not_marshalled)
  set_metadata_to key (some value) c =
      commit_all (record (bare set_metadata key) { metadata = value } ∷ []) c

  unfoldable pub put_health : Health → Coordinator → Coordinator × Reply
  unfolding commit_all
  put_health health c =
      if is_empty health.host_key
      then (c, refused no_host_key)
      else commit_all (record (bare upsert_health []) { health = some health } ∷ []) c
