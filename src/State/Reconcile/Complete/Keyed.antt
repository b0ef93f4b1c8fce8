-- ===== src/State/Reconcile/Complete/Keyed.antt =====
-- In the projection that discovery asks for, each value stands under its own key.
use tmuxatlas.Common.{
  ◌≡◌, refl, subst, Option, none, some, List, [], ◌∷◌, arith, Text, Dict, put, text_key, ok,
  is_empty, get-put, inl, inr, Bool-cases,
}
use tmuxatlas.State.Projection.{Projection}
use tmuxatlas.State.Reconcile.{
  TmuxPane, TmuxWindow, TmuxSession, HostSnapshot, add_pane, add_panes, add_window, add_windows,
  add_session, add_sessions, add_host, desired,
}
use tmuxatlas.State.Reconcile.Tables.{IsKeyed}
use tmuxatlas.State.Reconcile.Complete.Lenses.{
  hosts_table, sessions_table, windows_table, panes_table,
}

pub put-IsKeyed :
    {V : Type 0} (key : V → Text) (k : Text) (v : V) (m : Dict Text V)
    → IsKeyed key m
    → key v ≡ k
    → IsKeyed key (put k v m)
put-IsKeyed key k v m h e = λ j w g. ground (arith, get-put j k v m, h j w)

pub record WellKeyed (p : Projection) : Type 0 where
  pub hosts : IsKeyed hosts_table.key p.hosts
  pub sessions : IsKeyed sessions_table.key p.sessions
  pub windows : IsKeyed windows_table.key p.windows
  pub panes : IsKeyed panes_table.key p.panes

add_pane-WellKeyed :
    (h s w : Text) (t : TmuxPane) (p : Projection) → WellKeyed p → WellKeyed (add_pane h s w t p)
unfolding add_pane
add_pane-WellKeyed h s w t p k = elim (Bool-cases (is_empty t.id)) [
  | inl e ↦ rw e k
  | inr e ↦ rw e (record {
    hosts = k.hosts;
    sessions = k.sessions;
    windows = k.windows;
    panes = put-IsKeyed panes_table.key _ _ p.panes k.panes refl;
  })
]

add_panes-WellKeyed :
    (h s w : Text) (ts : List (Option TmuxPane)) (p : Projection)
    → WellKeyed p
    → WellKeyed (add_panes h s w ts p)
unfolding add_panes
add_panes-WellKeyed h s w [] p k = k
add_panes-WellKeyed h s w (none ∷ ts) p k = add_panes-WellKeyed h s w ts p k
add_panes-WellKeyed h s w (some t ∷ ts) p k =
    add_panes-WellKeyed h s w ts (add_pane h s w t p) (add_pane-WellKeyed h s w t p k)

add_window-WellKeyed :
    (h s : Text) (t : TmuxWindow) (p : Projection) → WellKeyed p → WellKeyed (add_window h s t p)
unfolding add_window
add_window-WellKeyed h s t p k = elim (Bool-cases (is_empty t.id)) [
  | inl e ↦ rw e k
  | inr e ↦ rw e (
      add_panes-WellKeyed h s t.id t.panes _ (record {
        hosts = k.hosts;
        sessions = k.sessions;
        windows = put-IsKeyed windows_table.key _ _ p.windows k.windows refl;
        panes = k.panes;
      }))
]

add_windows-WellKeyed :
    (h s : Text) (ts : List (Option TmuxWindow)) (p : Projection)
    → WellKeyed p
    → WellKeyed (add_windows h s ts p)
unfolding add_windows
add_windows-WellKeyed h s [] p k = k
add_windows-WellKeyed h s (none ∷ ts) p k = add_windows-WellKeyed h s ts p k
add_windows-WellKeyed h s (some t ∷ ts) p k =
    add_windows-WellKeyed h s ts (add_window h s t p) (add_window-WellKeyed h s t p k)

add_session-WellKeyed :
    (h : Text) (t : TmuxSession) (p : Projection) → WellKeyed p → WellKeyed (add_session h t p)
unfolding add_session
add_session-WellKeyed h t p k = elim (Bool-cases (is_empty t.name)) [
  | inl e ↦ rw e k
  | inr e ↦ rw e (
      add_windows-WellKeyed h t.name t.windows _ (record {
        hosts = k.hosts;
        sessions = put-IsKeyed sessions_table.key _ _ p.sessions k.sessions refl;
        windows = k.windows;
        panes = k.panes;
      }))
]

add_sessions-WellKeyed :
    (h : Text) (ts : List (Option TmuxSession)) (p : Projection)
    → WellKeyed p
    → WellKeyed (add_sessions h ts p)
unfolding add_sessions
add_sessions-WellKeyed h [] p k = k
add_sessions-WellKeyed h (none ∷ ts) p k = add_sessions-WellKeyed h ts p k
add_sessions-WellKeyed h (some t ∷ ts) p k =
    add_sessions-WellKeyed h ts (add_session h t p) (add_session-WellKeyed h t p k)

add_host-WellKeyed :
    (source : HostSnapshot) (p : Projection) → WellKeyed p → WellKeyed (add_host source p)
unfolding add_host
add_host-WellKeyed source p k = add_sessions-WellKeyed source.id source.sessions _ (record {
  hosts = put-IsKeyed hosts_table.key _ _ p.hosts k.hosts refl;
  sessions = k.sessions;
  windows = k.windows;
  panes = k.panes;
})

pub desired-WellKeyed :
    (hosts : List HostSnapshot) (p q : Projection)
    → WellKeyed p
    → desired hosts p ≡ ok q
    → WellKeyed q
unfolding desired
desired-WellKeyed [] p q k e = subst WellKeyed (cc) k
desired-WellKeyed (source ∷ hosts) p q k e =
    desired-WellKeyed hosts (add_host source p) q (add_host-WellKeyed source p k) (ground arith)
