-- ===== src/State/Reconcile.antt =====
-- pkg/state/projector.go: the operations that take the state to what discovery reports. The hosts come
-- from pkg/tmux (tmux.Session, Window and Pane); `none` is a nil pointer in one of its lists.
pub mod Tables
pub mod Complete
use tmuxatlas.Common.{
  ℕ, Bool, true, false, not, ◌||◌, Option, none, some, List, [], ◌∷◌, ◌++◌, map, Text, is_empty,
  text_less, Result, ok, err, ◌>>=◌, if◌then◌else◌, Dict, get, put, has, text_key, holds,
  Option-discrete,
}
use tmuxatlas.State.Keys.{host_key, session_key, window_key, pane_key}
use tmuxatlas.State.Projection.{
  Host, Session, Window, Pane, Projection, Operation, bare, new_projection, Host-discrete,
  Session-discrete, Window-discrete, Pane-discrete, upsert_host, remove_host, upsert_session,
  remove_session, upsert_window, remove_window, upsert_pane, remove_pane,
}

pub record TmuxPane : Type 0 where
  pub id : Text
  pub index : ℕ
  pub active : Bool
  pub width : ℕ
  pub height : ℕ
  pub current_command : Text
  pub pid : ℕ

pub record TmuxWindow : Type 0 where
  pub id : Text
  pub name : Text
  pub index : ℕ
  pub active : Bool
  pub layout : Text
  pub panes : List (Option TmuxPane)

pub record TmuxSession : Type 0 where
  pub id : Text
  pub name : Text
  pub attached : Bool
  pub created : ℕ
  pub last_activity : ℕ
  pub windows : List (Option TmuxWindow)

pub record HostSnapshot : Type 0 where
  pub id : Text
  pub display_name : Text
  pub online : Bool
  pub local : Bool
  pub version : Text
  pub sessions : List (Option TmuxSession)

add_pane : Text → Text → Text → TmuxPane → Projection → Projection
add_pane host_id session window t next =
    let key = pane_key host_id session window t.id in
    if is_empty t.id then next else record next {
      panes =
          put key
            (record {
              key = key;
              window_key = window_key host_id session window;
              tmux_id = t.id;
              index = t.index;
              active = t.active;
              width = t.width;
              height = t.height;
              current_command = t.current_command;
              pid = t.pid;
            })
            next.panes;
    }

add_panes : Text → Text → Text → List (Option TmuxPane) → Projection → Projection
add_panes host_id session window [] next = next
add_panes host_id session window (none ∷ rest) next = add_panes host_id session window rest next
add_panes host_id session window (some t ∷ rest) next =
    add_panes host_id session window rest (add_pane host_id session window t next)

add_window : Text → Text → TmuxWindow → Projection → Projection
unfolding add_pane add_panes
add_window host_id session t next =
    let key = window_key host_id session t.id in
    if is_empty t.id
    then next
    else add_panes host_id session t.id t.panes (record next {
      windows =
          put key
            (record {
              key = key;
              session_key = session_key host_id session;
              tmux_id = t.id;
              name = t.name;
              index = t.index;
              active = t.active;
              layout = t.layout;
            })
            next.windows;
    })

add_windows : Text → Text → List (Option TmuxWindow) → Projection → Projection
add_windows host_id session [] next = next
add_windows host_id session (none ∷ rest) next = add_windows host_id session rest next
add_windows host_id session (some t ∷ rest) next =
    add_windows host_id session rest (add_window host_id session t next)

add_session : Text → TmuxSession → Projection → Projection
unfolding add_window add_windows
add_session host_id t next =
    let key = session_key host_id t.name in
    if is_empty t.name
    then next
    else add_windows host_id t.name t.windows (record next {
      sessions =
          put key
            (record {
              key = key;
              host_key = host_key host_id;
              host_id = host_id;
              name = t.name;
              tmux_id = t.id;
              attached = t.attached;
              created = t.created;
              last_activity = t.last_activity;
            })
            next.sessions;
    })

add_sessions : Text → List (Option TmuxSession) → Projection → Projection
add_sessions host_id [] next = next
add_sessions host_id (none ∷ rest) next = add_sessions host_id rest next
add_sessions host_id (some t ∷ rest) next = add_sessions host_id rest (add_session host_id t next)

add_host : HostSnapshot → Projection → Projection
unfolding add_session add_sessions
add_host source next =
    let key = host_key source.id in
    add_sessions source.id source.sessions (record next {
      hosts =
          put key
            (record {
              key = key;
              id = source.id;
              display_name = source.display_name;
              online = source.online;
              local = source.local;
              version = source.version;
              last_seen = 0;
            })
            next.hosts;
    })

pub data ReconcileError : Type 0 where
  host_id_required : ReconcileError

-- The first part of ReconcileHosts: the projection that the hosts ask for.
unfoldable pub desired : List HostSnapshot → Projection → Result ReconcileError Projection
unfolding add_host
desired [] next = ok next
desired (source ∷ rest) next =
    let more = desired rest (add_host source next) in
    if is_empty source.id then err host_id_required else more

-- sort.Slice by `<` on the keys.
insert_key : Text → List Text → List Text
insert_key k [] = k ∷ []
insert_key k (j ∷ ks) = if text_less j k then j ∷ insert_key k ks else k ∷ j ∷ ks

unfoldable pub sort_keys : List Text → List Text
unfolding insert_key
sort_keys [] = []
sort_keys (k ∷ ks) = insert_key k (sort_keys ks)

module _ {V : Type 0} where
  unfoldable pub remove_keys : Dict Text V → Dict Text V → List Text
  remove_keys [] next = []
  remove_keys ((k, v) ∷ current) next =
      let rest = remove_keys current next in if has k next then rest else k ∷ rest

  -- Keys of `entries`, which are those of `next`, that `current` lacks or has another value at.
  unfoldable pub upsert_keys : Discrete V → Dict Text V → Dict Text V → Dict Text V → List Text
  upsert_keys d current next [] = []
  upsert_keys d current next ((k, v) ∷ entries) =
      let rest = upsert_keys d current next entries in
      if holds (Option-discrete d (get k current) (get k next)) then rest else k ∷ rest

  -- upsert(next[key]); the key is one of `next`.
  abbrev pub upsert_at : (V → Operation) → Option V → List Operation → List Operation
  upsert_at upsert none rest = rest
  upsert_at upsert (some v) rest = upsert v ∷ rest

  unfoldable pub upserts : (V → Operation) → Dict Text V → List Text → List Operation
  upserts upsert next [] = []
  upserts upsert next (k ∷ ks) = upsert_at upsert (get k next) (upserts upsert next ks)

  -- appendMapDiff
  unfoldable pub map_diff :
      Discrete V → Dict Text V → Dict Text V → (Text → Operation) → (V → Operation) → List Operation
  map_diff d current next removal upsert =
      map removal (sort_keys (remove_keys current next))
      ++ upserts upsert next (sort_keys (upsert_keys d current next next))

abbrev pub removal_of_pane : Text → Operation
removal_of_pane key = bare remove_pane key

abbrev pub upsert_of_pane : Pane → Operation
upsert_of_pane v = record (bare upsert_pane []) { pane = some v }

abbrev pub removal_of_window : Text → Operation
removal_of_window key = bare remove_window key

abbrev pub upsert_of_window : Window → Operation
upsert_of_window v = record (bare upsert_window []) { window = some v }

abbrev pub removal_of_session : Text → Operation
removal_of_session key = bare remove_session key

abbrev pub upsert_of_session : Session → Operation
upsert_of_session v = record (bare upsert_session []) { session = some v }

abbrev pub removal_of_host : Text → Operation
removal_of_host key = bare remove_host key

abbrev pub upsert_of_host : Host → Operation
upsert_of_host v = record (bare upsert_host []) { host = some v }

-- The second part: children go before their parents.
unfoldable pub differences : Projection → Projection → List Operation
differences current next =
    map_diff Pane-discrete current.panes next.panes removal_of_pane upsert_of_pane
    ++ (map_diff Window-discrete current.windows next.windows removal_of_window upsert_of_window
        ++ (map_diff Session-discrete current.sessions next.sessions removal_of_session
              upsert_of_session
            ++ map_diff Host-discrete current.hosts next.hosts removal_of_host upsert_of_host))

-- ReconcileHosts
unfoldable pub reconcile_hosts :
    Projection → List HostSnapshot → Result ReconcileError (List Operation)
reconcile_hosts current hosts = do
  next ← desired hosts new_projection
  ok (differences current next)
