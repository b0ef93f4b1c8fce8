-- ===== src/State/Reconcile/Complete/Whole.antt =====
-- The whole of ReconcileHosts.
use tmuxatlas.Common.{
  ◌≡◌, refl, subst, Bool, false, List, [], ◌∷◌, arith, Text, Dict, get, text_key, ok, >>=-ok,
}
use tmuxatlas.State.Projection.{
  Projection, Operation, new_projection, Host-discrete, Session-discrete, Window-discrete,
  Pane-discrete,
}
use tmuxatlas.State.Commit.{apply_all}
use tmuxatlas.State.Reconcile.{
  HostSnapshot, desired, differences, reconcile_hosts, map_diff, remove_keys, upsert_keys,
  sort_keys, upserts, removal_of_pane, upsert_of_pane, removal_of_window, upsert_of_window,
  removal_of_session, upsert_of_session, removal_of_host, upsert_of_host,
}
use tmuxatlas.State.Reconcile.Tables.{
  contains, contains-remove_keys, contains-upsert_keys, get-patched, patched,
}
use tmuxatlas.State.Reconcile.Complete.{HasStableKeys, Takes, Takes-append, Takes-map_diff}
use tmuxatlas.State.Reconcile.Complete.Lenses.{
  hosts_table, sessions_table, windows_table, panes_table, hosts_table-IsTable,
  sessions_table-IsTable, windows_table-IsTable, panes_table-IsTable,
}
use tmuxatlas.State.Reconcile.Complete.Keyed.{WellKeyed, desired-WellKeyed}

-- The hosts, sessions, windows and panes of one projection are those of another.
pub record SameTree (p q : Projection) : Type 0 where
  pub hosts : (k : Text) → get k p.hosts ≡ get k q.hosts
  pub sessions : (k : Text) → get k p.sessions ≡ get k q.sessions
  pub windows : (k : Text) → get k p.windows ≡ get k q.windows
  pub panes : (k : Text) → get k p.panes ≡ get k q.panes

pub record HasStableTree (p : Projection) : Type 0 where
  pub hosts : HasStableKeys p.hosts
  pub sessions : HasStableKeys p.sessions
  pub windows : HasStableKeys p.windows
  pub panes : HasStableKeys p.panes

-- The state after the operations: four patched tables, and the rest as it was.
abbrev patched_tree : Projection → Projection → Projection
patched_tree p next = record p {
  panes = patched panes_table.key Pane-discrete p.panes next.panes;
  windows = patched windows_table.key Window-discrete p.windows next.windows;
  sessions = patched sessions_table.key Session-discrete p.sessions next.sessions;
  hosts = patched hosts_table.key Host-discrete p.hosts next.hosts;
}

Takes-differences :
    (json_valid : Text → Bool) (p next : Projection)
    → HasStableTree p
    → Takes json_valid (differences p next) p (patched_tree p next)
unfolding differences
Takes-differences json_valid p next h =
    Takes-append json_valid _ _ p _ _
      (Takes-map_diff json_valid panes_table (panes_table-IsTable json_valid) Pane-discrete
        next.panes p h.panes)
      (Takes-append json_valid _ _ _ _ _
        (Takes-map_diff json_valid windows_table (windows_table-IsTable json_valid) Window-discrete
          next.windows _ h.windows)
        (Takes-append json_valid _ _ _ _ _
          (Takes-map_diff json_valid sessions_table (sessions_table-IsTable json_valid)
            Session-discrete next.sessions _ h.sessions)
          (Takes-map_diff json_valid hosts_table (hosts_table-IsTable json_valid) Host-discrete
            next.hosts _ h.hosts)))

contains_none : (ks : List Text) → ((k : Text) → contains k ks ≡ false) → ks ≡ []
unfolding contains
contains_none [] h = refl
contains_none (k ∷ ks) h = absurd (ground (arith, h k))

module _ {V : Type 0} (d : Discrete V) (p next : Dict Text V) where
  -- Equal tables have no difference.
  map_diff-same :
      (removal : Text → Operation) (upsert : V → Operation)
      → ((k : Text) → get k p ≡ get k next)
      → map_diff d p next removal upsert ≡ []
  unfolding map_diff
  map_diff-same removal upsert same =
      rw
        (
          contains_none (remove_keys p next)
              (λ k. ground (arith, contains-remove_keys k p next, same k)),
          contains_none (upsert_keys d p next next)
              (λ k. ground (arith, contains-upsert_keys d k p next next, same k)),
        )
        (unfold sort_keys upserts in refl)

differences-same : (p next : Projection) → SameTree p next → differences p next ≡ []
unfolding differences
differences-same p next s = rw (
  map_diff-same Pane-discrete p.panes next.panes removal_of_pane upsert_of_pane s.panes,
  map_diff-same Window-discrete p.windows next.windows removal_of_window upsert_of_window s.windows,
  map_diff-same Session-discrete p.sessions next.sessions removal_of_session upsert_of_session
      s.sessions,
  map_diff-same Host-discrete p.hosts next.hosts removal_of_host upsert_of_host s.hosts,
)

new_projection-WellKeyed : WellKeyed new_projection
unfolding get
new_projection-WellKeyed = record {
  hosts = λ k v e. absurd (ground arith);
  sessions = λ k v e. absurd (ground arith);
  windows = λ k v e. absurd (ground arith);
  panes = λ k v e. absurd (ground arith);
}

patched_tree-SameTree : (p next : Projection) → WellKeyed next → SameTree (patched_tree p next) next
patched_tree-SameTree p next k = record {
  hosts = get-patched hosts_table.key Host-discrete p.hosts next.hosts k.hosts;
  sessions = get-patched sessions_table.key Session-discrete p.sessions next.sessions k.sessions;
  windows = get-patched windows_table.key Window-discrete p.windows next.windows k.windows;
  panes = get-patched panes_table.key Pane-discrete p.panes next.panes k.panes;
}

-- What is not discovery's business is left alone.
pub record SameRest (p q : Projection) : Type 0 where
  pub tool_events : p.tool_events ≡ q.tool_events
  pub activity : p.activity ≡ q.activity
  pub health : p.health ≡ q.health
  pub metadata : p.metadata ≡ q.metadata

-- If the hosts of a report all have identifiers, the operations computed from it apply to the state
-- without an error, whose result has exactly the reported hosts, sessions, windows and panes, and the
-- tool events, activity, health and metadata that it had. The same report gives no operations on the
-- result. No key of the state's four tables may be white space.
pub reconcile_hosts_complete :
    (json_valid : Text → Bool) (p : Projection) (hosts : List HostSnapshot) (ops : List Operation)
    → HasStableTree p
    → reconcile_hosts p hosts ≡ ok ops
    → (next q : Projection) × (desired hosts new_projection ≡ ok next)
      × (apply_all json_valid 0 ops p ≡ ok q)
      × SameTree q next
      × SameRest q p
      × (reconcile_hosts q hosts ≡ ok [])
unfolding reconcile_hosts
reconcile_hosts_complete json_valid p hosts ops h e =
    let (next, d, f) =
      >>=-ok (desired hosts new_projection) (λ next. ok (differences p next)) ops e in
    let same =
      patched_tree-SameTree p next
        (desired-WellKeyed hosts new_projection next new_projection-WellKeyed d) in
    (
      next,
      patched_tree p next,
      d,
      subst (λ o. apply_all json_valid 0 o p ≡ ok (patched_tree p next)) (cc)
          (Takes-differences json_valid p next h 0),
      same,
      record { tool_events = refl; activity = refl; health = refl; metadata = refl },
      rw (d, differences-same (patched_tree p next) next same),
    )
