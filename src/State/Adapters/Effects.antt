-- ===== src/State/Adapters/Effects.antt =====
-- What a snapshot shows after the Hub has reported its hosts to the state.
use tmuxatlas.Common.{
  ◌≡◌, refl, sym, ap, subst, ◌∙◌, Bool, false, List, [], ◌∷◌, Text, get, text_key, Result, ok, inl,
  inr, get-map_values, map_values,
}
use tmuxatlas.State.Adapters.{
  Reply, answered, commit_all, snapshot_then_commit, replace_hosts, commit_result,
}
use tmuxatlas.State.Commit.{CommitResult, apply_all, apply_commit}
use tmuxatlas.State.Commit.Effects.{SameEntries}
use tmuxatlas.State.Coordinator.{
  Coordinator, commit, take_snapshot, committed, snapshot, handle, serve, Command,
}
use tmuxatlas.State.Coordinator.Commits.{commit_outcome, step-running}
use tmuxatlas.State.Projection.Clone.{
  clone_projection, clone_projection_idem, clone_activity, clone_health,
}
use tmuxatlas.State.Projection.Validate.{Error}
use tmuxatlas.State.Projection.{Projection, Operation, new_projection}
use tmuxatlas.State.Reconcile.Complete.Whole.{
  SameTree, SameRest, HasStableTree, reconcile_hosts_complete,
}
use tmuxatlas.State.Reconcile.{HostSnapshot, desired, differences, reconcile_hosts}

same_result : (r : Result Error Projection) (p q : Projection) → r ≡ ok p → r ≡ ok q → p ≡ q
same_result r p q e f = cc

SameEntries-refl : (p q : Projection) → p ≡ q → SameEntries p q
SameEntries-refl p q e = subst (SameEntries p) e (record {
  hosts = λ k. refl;
  sessions = λ k. refl;
  windows = λ k. refl;
  panes = λ k. refl;
  tool_events = λ k. refl;
  activity = λ k. refl;
  health = λ k. refl;
  metadata = λ k. refl;
})

SameEntries-clone :
    (p q : Projection) → SameEntries p q → SameEntries (clone_projection p) (clone_projection q)
unfolding clone_projection
SameEntries-clone p q s = record {
  hosts = s.hosts;
  sessions = s.sessions;
  windows = s.windows;
  panes = s.panes;
  tool_events = s.tool_events;
  activity = λ k. cc (
    get-map_values clone_activity k p.activity,
    get-map_values clone_activity k q.activity,
    s.activity k,
  );
  health = λ k.
      cc (
        get-map_values clone_health k p.health,
        get-map_values clone_health k q.health,
        s.health k,
      );
  metadata = s.metadata;
}

module _ (json_valid : Text → Bool) where
  -- The commit was taken, and a snapshot shows the entries of `q`.
  abbrev pub Shows : Coordinator × Reply → Projection → Type 0
  Shows after q =
      ((r : CommitResult) × (after.1 ≡ answered (committed r)))
      × SameEntries (snapshot after.0).state (clone_projection q)

  pub commit_all-Shows :
      (c : Coordinator) (ops : List Operation) (q : Projection)
      → c.stopped ≡ false
      → apply_all json_valid 0 ops (clone_projection c.projection) ≡ ok q
      → Shows (commit_all json_valid ops c) q
  unfolding commit_all snapshot
  commit_all-Shows c [] q h a = rw (step-running json_valid c (commit []) h) (
      unfold handle apply_commit apply_all in
      (
        (_, refl),
        SameEntries-refl _ _ (
            sym (clone_projection_idem c.projection)
            ∙ ap clone_projection (same_result _ _ q refl a)),
      ))
  commit_all-Shows c (op ∷ ops) q h a = elim (commit_outcome json_valid c op ops h) [
    | inl (e, fails, after) ↦ absurd (cc)
    | inr (inl (next, works, same, after)) ↦ rw after (
      (_, refl),
      subst (λ n. SameEntries (clone_projection c.projection) (clone_projection n))
          (same_result _ next q works a) (SameEntries-clone c.projection next same),
    )
    | inr (inr (next, works, p, r, after)) ↦ (
      (_, ap answered after),
      SameEntries-refl _ _ (ap clone_projection (p ∙ same_result _ next q works a)),
    )
  ]

  -- A snapshot of a running coordinator, and a commit with nothing in between.
  pub snapshot_then_commit-commit :
      (plan : Projection → Result _ (List Operation)) (c : Coordinator) (between : List Command)
      → c.stopped ≡ false
      → snapshot_then_commit json_valid plan between c
        ≡ commit_result json_valid
            (plan (clone_projection c.projection))
            (serve json_valid between c)
  unfolding snapshot_then_commit
  snapshot_then_commit-commit plan c between h =
      rw (step-running json_valid c take_snapshot h) (unfold handle snapshot in refl)

  HasStableTree-clone : (p : Projection) → HasStableTree p → HasStableTree (clone_projection p)
  unfolding clone_projection
  HasStableTree-clone p h = record {
    hosts = h.hosts;
    sessions = h.sessions;
    windows = h.windows;
    panes = h.panes;
  }

  -- What a report of hosts leaves alone.
  abbrev pub SameOthers : Projection → Projection → Type 0
  SameOthers p q =
      ((k : Text) → get k p.tool_events ≡ get k q.tool_events)
      × ((k : Text) → get k p.activity ≡ get k q.activity)
      × ((k : Text) → get k p.health ≡ get k q.health)
      × ((k : Text) → get k p.metadata ≡ get k q.metadata)

  SameTree-shown :
      (after : Projection) (q n next : Projection)
      → SameEntries after (clone_projection q)
      → SameTree q n
      → n ≡ next
      → SameTree after next
  unfolding clone_projection
  SameTree-shown after q n next s t e = subst (SameTree after) e (record {
    hosts = λ k. s.hosts k ∙ t.hosts k;
    sessions = λ k. s.sessions k ∙ t.sessions k;
    windows = λ k. s.windows k ∙ t.windows k;
    panes = λ k. s.panes k ∙ t.panes k;
  })

  SameOthers-shown :
      (after q p : Projection)
      → SameEntries after (clone_projection q)
      → SameRest q (clone_projection p)
      → SameOthers after (clone_projection p)
  unfolding clone_projection
  SameOthers-shown after q p s rest =
      let idem = clone_projection_idem p in
      (
        λ k. s.tool_events k ∙ ap (get k) rest.tool_events,
        λ k.
            s.activity k
            ∙ (ap (λ m. get k (map_values clone_activity m)) rest.activity
                ∙ ap (λ (x : Projection). get k x.activity) idem),
        λ k.
            s.health k
            ∙ (ap (λ m. get k (map_values clone_health m)) rest.health
                ∙ ap (λ (x : Projection). get k x.health) idem),
        λ k. s.metadata k ∙ ap (get k) rest.metadata,
      )

  -- Discovery's report `hosts` has identifiers and asks for the tree of `next`, the coordinator runs, no key
  -- of the tables of its tree is white space, and nobody else commits between the snapshot and the commit.
  -- Then the commit is taken, and a snapshot shows just the hosts, sessions, windows and panes of the report,
  -- and the tool events, activity, health and metadata that a snapshot showed before.
  pub replace_hosts_shows_report :
      (c : Coordinator) (hosts : List HostSnapshot) (next : Projection)
      → c.stopped ≡ false
      → HasStableTree c.projection
      → desired hosts new_projection ≡ ok next
      → let after = replace_hosts json_valid hosts [] c in
        ((r : CommitResult) × (after.1 ≡ answered (committed r)))
        × SameTree (snapshot after.0).state next
        × SameOthers (snapshot after.0).state (snapshot c).state
  unfolding replace_hosts serve
  replace_hosts_shows_report c hosts next h stable d =
      let p = clone_projection c.projection in
      let r : reconcile_hosts p hosts ≡ ok (differences p next) =
        unfold reconcile_hosts in rw d refl in
      let (n, q, dn, applied, tree, rest, again) =
        reconcile_hosts_complete json_valid p hosts (differences p next)
          (HasStableTree-clone c.projection stable) r in
      let shows = commit_all-Shows c (differences p next) q h applied in
      rw (snapshot_then_commit-commit _ c [] h, r)
        (
          shows.0,
          SameTree-shown _ q n next shows.1 tree (cc),
          unfold snapshot in SameOthers-shown _ q c.projection shows.1 rest,
        )
