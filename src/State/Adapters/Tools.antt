-- ===== src/State/Adapters/Tools.antt =====
-- What a snapshot shows after a tool event, and after the events of a pane were cleared.
use tmuxatlas.Common.{
  ℕ, ◌≡◌, refl, ap, ◌∙◌, Bool, true, false, not, Option, none, some, List, [], ◌∷◌, map, arith,
  Text, Text-discrete, Dict, get, text_key, ok, inl, inr, Option-cases, Bool-cases, is_blank, put,
  remove, get-put, get-remove, holds, Unique, is_empty, letter-not-blank, if◌then◌else◌,
}
use tmuxatlas.State.Adapters.Effects.{commit_all-Shows, snapshot_then_commit-commit}
use tmuxatlas.State.Adapters.{
  answered, is_spared, cleared_keys, clear_tool_events, apply_tool_event, tool_event_operation,
  tool_event_key, tool_event_of, host_or, is_clearing,
}
use tmuxatlas.State.Commit.{CommitResult, apply_all}
use tmuxatlas.State.Coordinator.{Coordinator, Command, committed, snapshot, serve}
use tmuxatlas.State.Keys.{session_key, host_key}
use tmuxatlas.State.Projection.Apply.{apply_operation}
use tmuxatlas.State.Projection.Clone.{clone_projection}
use tmuxatlas.State.Projection.Validate.{validate}
use tmuxatlas.State.Projection.{
  ToolEvent, Projection, Operation, bare, upsert_tool_event, remove_tool_event,
}
use tmuxatlas.State.Reconcile.Complete.{Table, IsTable, HasStableKeys, Takes-removals}
use tmuxatlas.State.Reconcile.Tables.{contains, removed, get-removed}
use tmuxatlas.ToolEvents.{Event}

abbrev tool_events_table : Table ToolEvent
tool_events_table = record {
  key = λ v. v.key;
  table = λ p. p.tool_events;
  with_table = λ m p. record p { tool_events = m };
  removal = bare remove_tool_event;
  upsert = λ v. record (bare upsert_tool_event []) { tool_event = some v };
}

module _ (json_valid : Text → Bool) where
  tool_events_table-IsTable : IsTable json_valid tool_events_table
  unfolding validate apply_operation
  tool_events_table-IsTable = record {
    table-with = λ m p. refl;
    with-with = λ m n p. refl;
    with_same = λ p. refl;
    removal_valid = λ k h. ground arith;
    removal_applies = λ k p. refl;
    upsert_valid = λ v. refl;
    upsert_applies = λ v p. refl;
  }

  -- Which of a state's events are cleared.
  abbrev pub is_cleared : (ℕ → Text) → Text → Text → ℕ → Text → Option ToolEvent → Bool
  is_cleared itoa host session window pane none = false
  is_cleared itoa host session window pane (some e) =
      not (is_spared itoa host session window pane e)

  contains-cleared_keys :
      (itoa : ℕ → Text) (host session : Text) (window : ℕ) (pane : Text) (m : Dict Text ToolEvent)
      (k : Text)
      → Unique m
      → contains k (cleared_keys itoa host session window pane m)
        ≡ is_cleared itoa host session window pane (get k m)
  unfolding contains cleared_keys get
  contains-cleared_keys itoa host session window pane [] k u = refl
  contains-cleared_keys itoa host session window pane ((j, e) ∷ m) k u = elim (Text-discrete j k) [
    | yes p ↦ ground (
      arith,
      contains-cleared_keys itoa host session window pane m k u.1,
      ap (λ (i : Text). get i m) p,
      u.0,
    )
    | no n ↦ ground (arith, contains-cleared_keys itoa host session window pane m k u.1)
  ]

  cleared_stable :
      (itoa : ℕ → Text) (host session : Text) (window : ℕ) (pane : Text) (m : Dict Text ToolEvent)
      → Unique m
      → HasStableKeys m
      → (k : Text) → contains k (cleared_keys itoa host session window pane m) ≡ true
      → is_blank k ≡ false
  cleared_stable itoa host session window pane m u h k c = elim (Option-cases (get k m)) [
    | inl e ↦ absurd (ground (arith, contains-cleared_keys itoa host session window pane m k u))
    | inr (v, e) ↦ h k v e
  ]

  -- The coordinator runs, also after the commands `between` that it takes from others while the clearing
  -- computes, and no key of its tool events is white space. Then the commit is taken, and a snapshot shows the
  -- events that the state had after those commands but for those that it had before them and that are of the
  -- given host, session, window and pane, or all of them where the session is empty.
  pub clear_tool_events_removes :
      (itoa : ℕ → Text) (host session : Text) (window : ℕ) (pane : Text) (between : List Command)
      (c : Coordinator)
      → c.stopped ≡ false
      → (serve json_valid between c).stopped ≡ false
      → Unique c.projection.tool_events
      → HasStableKeys c.projection.tool_events
      → let after = clear_tool_events json_valid itoa host session window pane between c in
        ((r : CommitResult) × (after.1 ≡ answered (committed r)))
        × ((k : Text)
            → get k (snapshot after.0).state.tool_events ≡ (
                if is_cleared itoa host session window pane (get k c.projection.tool_events)
                then none
                else get k (serve json_valid between c).projection.tool_events))
  unfolding clear_tool_events
  clear_tool_events_removes itoa host session window pane between c h g u stable =
      let keys = cleared_keys itoa host session window pane c.projection.tool_events in
      let late = serve json_valid between c in
      let now = clone_projection late.projection in
      let q = record now { tool_events = removed keys now.tool_events } in
      let shows = commit_all-Shows json_valid late (map (bare remove_tool_event) keys) q g (
        Takes-removals json_valid tool_events_table (tool_events_table-IsTable) keys now
          (cleared_stable itoa host session window pane c.projection.tool_events u stable) 0) in
      rw (snapshot_then_commit-commit json_valid _ c between h) (
        unfold clone_projection in
        (
          shows.0,
          λ k.
              shows.1.tool_events k
              ∙ (get-removed k keys late.projection.tool_events
                  ∙ ap (λ b. if b then none else get k late.projection.tool_events)
                      (contains-cleared_keys itoa host session window pane c.projection.tool_events
                        k u)),
        ))

  key_not_blank :
      (itoa : ℕ → Text) (host session : Text) (window : ℕ) (pane tool : Text)
      → is_blank (tool_event_key itoa host session window pane tool) ≡ false
  unfolding tool_event_key session_key host_key
  key_not_blank itoa host session window pane tool =
      letter-not-blank b'h' _ (omega arith) (omega arith)

  single :
      (op : Operation) (p q : Projection)
      → validate json_valid op ≡ ok tt
      → apply_operation op p ≡ ok q
      → apply_all json_valid 0 (op ∷ []) p ≡ ok q
  unfolding apply_all
  single op p q v a = rw (v, a) refl

  -- The key under which the state has an event's pane and tool.
  abbrev pub key_for : (ℕ → Text) → Text → Event → Text
  key_for itoa host e = tool_event_key itoa host e.session e.window e.pane e.tool

  -- The event or the Hub names a host. Then a commit to a running coordinator is taken, and a snapshot shows
  -- the event under the key of its host, session, window, pane and tool, or nothing there if it is completed
  -- or is active and was not detected; under every other key it shows what it showed before.
  pub apply_tool_event_shows :
      (itoa : ℕ → Text) (e : Event) (local : Text) (c : Coordinator)
      → c.stopped ≡ false
      → is_empty (host_or e.host local) ≡ false
      → let after = apply_tool_event json_valid itoa (some e) local c in
        ((r : CommitResult) × (after.1 ≡ answered (committed r)))
        × ((k : Text)
            → get k (snapshot after.0).state.tool_events ≡ (
                if holds (Text-discrete (key_for itoa (host_or e.host local) e) k)
                then (if is_clearing e
                    then none
                    else some (tool_event_of itoa (host_or e.host local) e))
                else get k (snapshot c).state.tool_events))
  unfolding apply_tool_event tool_event_operation
  apply_tool_event_shows itoa e local c h g =
      let host = host_or e.host local in
      let key = key_for itoa host e in
      let p = clone_projection c.projection in
      elim (Bool-cases (is_clearing e)) [
        | inl b ↦
            let op = bare remove_tool_event key in
            let q = record p { tool_events = remove key p.tool_events } in
            let shows = commit_all-Shows json_valid c (op ∷ []) q h (
              single op p q
                ((tool_events_table-IsTable).removal_valid key
                  (key_not_blank itoa host e.session e.window e.pane e.tool))
                ((tool_events_table-IsTable).removal_applies key p)) in
            rw (g, b)
              (
                shows.0,
                λ k.
                    unfold clone_projection snapshot in
                    shows.1.tool_events k
                    ∙ ground (arith, get-remove k key c.projection.tool_events),
              )
        | inr b ↦
            let value = tool_event_of itoa host e in
            let op = record (bare upsert_tool_event []) { tool_event = some value } in
            let q = record p { tool_events = put key value p.tool_events } in
            let shows = commit_all-Shows json_valid c (op ∷ []) q h (
              single op p q ((tool_events_table-IsTable).upsert_valid value)
                ((tool_events_table-IsTable).upsert_applies value p)) in
            rw (g, b)
              (
                shows.0,
                λ k.
                    unfold clone_projection snapshot in
                    shows.1.tool_events k
                    ∙ ground (arith, get-put k key value c.projection.tool_events),
              )
      ]
