-- ===== src/State/Adapters/Samples.antt =====
-- What a snapshot shows after the Hub has reported the activity of sessions.
use tmuxatlas.Activity as Bytes
use mathlib.Core.Option
use tmuxatlas.Common.{
  ℕ, ◌≡◌, refl, ap, subst, ◌∙◌, Bool, true, false, not, ◌&&◌, ◌||◌, Option, none, some, List, [],
  ◌∷◌, map, arith, Text, Text-discrete, Dict, get, has, text_key, inl, inr, Option-cases,
  Bool-cases, is_blank, put, get-put, holds, is_empty, Option-discrete, get-map_values, map_values,
}
use tmuxatlas.State.Adapters.Effects.{commit_all-Shows, snapshot_then_commit-commit}
use tmuxatlas.State.Adapters.{
  answered, host_or, activity_of, reported, keys_of, kept_keys, removal_of_activity,
  upsert_of_activity, activity_operations, replace_activity,
}
use tmuxatlas.State.Commit.{CommitResult}
use tmuxatlas.State.Coordinator.{Coordinator, committed, snapshot, serve}
use tmuxatlas.State.Projection.Apply.{apply_operation}
use tmuxatlas.State.Projection.Clone.{clone_projection, clone_activity}
use tmuxatlas.State.Projection.Validate.{validate}
use tmuxatlas.State.Projection.{Activity, Activity-discrete, Projection}
use tmuxatlas.State.Reconcile.Complete.{
  Table, IsTable, HasStableKeys, Takes-removals, Takes-upserts, Takes-append,
}
use tmuxatlas.State.Reconcile.Tables.{
  contains, contains-sort_keys, removed, get-removed, upserted, get-upserted, IsKeyed,
}
use tmuxatlas.State.Reconcile.{sort_keys, upserts}
use tmuxatlas.State.Values.{clone_value, clone_slice, made}

abbrev activity_table : Table Activity
activity_table = record {
  key = λ v. v.key;
  table = λ p. p.activity;
  with_table = λ m p. record p { activity = m };
  removal = removal_of_activity;
  upsert = upsert_of_activity;
}

contains-kept_keys :
    (q : Text → Bool) (k : Text) (ks : List Text)
    → contains k (kept_keys q ks) ≡ (contains k ks && q k)
unfolding contains kept_keys
contains-kept_keys q k [] = refl
contains-kept_keys q k (j ∷ ks) = elim (Text-discrete j k) [
  | yes e ↦ ground (arith, contains-kept_keys q k ks, ap q e)
  | no n ↦ ground (arith, contains-kept_keys q k ks)
]

contains-keys_of : {V : Type 0} (k : Text) (m : Dict Text V) → contains k (keys_of m) ≡ has k m
unfolding contains get
contains-keys_of k [] = refl
contains-keys_of k ((j, v) ∷ m) = ground (arith, contains-keys_of k m)

-- A sample under its own key, which a copy leaves as it is.
abbrev IsFixed : Text → Activity → Type 0
IsFixed k v = (v.key ≡ k) × (clone_activity v ≡ v)

abbrev AreFixed : Dict Text Activity → Type 0
AreFixed m = (k : Text) (v : Activity) → get k m ≡ some v → IsFixed k v

module _ (idle_number : Option ℕ → ℕ) (count_number : ℕ → ℕ) where
  slice_fixed : (xs : List ℕ) → clone_slice (clone_slice (made xs)) ≡ clone_slice (made xs)
  unfolding clone_slice
  slice_fixed [] = refl
  slice_fixed (x ∷ xs) = refl

  activity_of-IsFixed :
      (host : Text) (s : Bytes.Snapshot) (k : Text) (v : Activity)
      → activity_of idle_number count_number host s ≡ v
      → (activity_of idle_number count_number host s).key ≡ k
      → IsFixed k v
  unfolding activity_of clone_activity clone_value
  activity_of-IsFixed host s k v e f =
      subst (IsFixed k) e (f, ground (arith, slice_fixed s.sparkline))

  put-AreFixed :
      (host : Text) (s : Bytes.Snapshot) (m : Dict Text Activity)
      → AreFixed m
      → AreFixed (
          put
            (activity_of idle_number count_number host s).key
            (activity_of idle_number count_number host s)
            m)
  put-AreFixed host s m h k v e =
      elim (Text-discrete (activity_of idle_number count_number host s).key k) [
        | yes p ↦
            activity_of-IsFixed host s k v
              (ground (
                arith,
                get-put k (activity_of idle_number count_number host s).key
                    (activity_of idle_number count_number host s) m,
              ))
              p
        | no n ↦ h k v (
            ground (
              arith,
              get-put k (activity_of idle_number count_number host s).key
                  (activity_of idle_number count_number host s) m,
            ))
      ]

  reported-AreFixed :
      (local : Text) (samples : List (Option Bytes.Snapshot)) (m : Dict Text Activity)
      → AreFixed m
      → AreFixed (reported idle_number count_number local samples m)
  unfolding reported
  reported-AreFixed local [] m h = h
  reported-AreFixed local (none ∷ samples) m h = reported-AreFixed local samples m h
  reported-AreFixed local (some s ∷ samples) m h =
      elim (Bool-cases (is_empty (host_or s.host local) || is_empty s.session_name)) [
        | inl e ↦ rw e (reported-AreFixed local samples m h)
        | inr e ↦
            rw e (reported-AreFixed local samples _ (put-AreFixed (host_or s.host local) s m h))
      ]

-- The two loops over the keys make one table the other.
abbrev gone_keys : Dict Text Activity → Dict Text Activity → List Text
gone_keys current next = kept_keys (λ k. not (has k next)) (sort_keys (keys_of current))

abbrev new_keys : Dict Text Activity → Dict Text Activity → List Text
new_keys current next =
    kept_keys (λ k. not (holds (Option-discrete Activity-discrete (get k current) (get k next))))
      (sort_keys (keys_of next))

get-synced :
    (current next : Dict Text Activity)
    → IsKeyed activity_table.key next
    → (k : Text)
    → get k (
        upserted activity_table.key next
          (new_keys current next)
          (removed (gone_keys current next) current))
      ≡ get k next
get-synced current next h k = ground (
  arith,
  get-upserted activity_table.key k next (new_keys current next)
      (removed (gone_keys current next) current) h,
  get-removed k (gone_keys current next) current,
  contains-kept_keys (λ j. not (has j next)) k (sort_keys (keys_of current)),
  contains-kept_keys
      (λ j. not (holds (Option-discrete Activity-discrete (get j current) (get j next)))) k
      (sort_keys (keys_of next)),
  contains-sort_keys k (keys_of current),
  contains-sort_keys k (keys_of next),
  contains-keys_of k current,
  contains-keys_of k next,
)

fixed_entry :
    (m : Dict Text Activity) (k : Text) → AreFixed m → Option.map clone_activity (get k m) ≡ get k m
fixed_entry m k h = elim (Option-cases (get k m)) [
  | inl e ↦ rw e refl
  | inr (v, e) ↦ rw e (ap some (h k v e).1)
]

stable_clone :
    (m : Dict Text Activity) → HasStableKeys m → HasStableKeys (map_values clone_activity m)
stable_clone m h k v e = elim (Option-cases (get k m)) [
  | inl f ↦ absurd (ground (arith, get-map_values clone_activity k m))
  | inr (w, f) ↦ h k w f
]

gone_stable :
    (next : Dict Text Activity) (p : Projection)
    → HasStableKeys p.activity
    → (k : Text) → contains k (gone_keys p.activity next) ≡ true
    → is_blank k ≡ false
gone_stable next p h k c = elim (Option-cases (get k p.activity)) [
  | inl e ↦ absurd (
      ground (
        arith,
        contains-kept_keys (λ j. not (has j next)) k (sort_keys (keys_of p.activity)),
        contains-sort_keys k (keys_of p.activity),
        contains-keys_of k p.activity,
      ))
  | inr (v, e) ↦ h k v e
]

module _ (json_valid : Text → Bool) where
  activity_table-IsTable : IsTable json_valid activity_table
  unfolding validate apply_operation
  activity_table-IsTable = record {
    table-with = λ m p. refl;
    with-with = λ m n p. refl;
    with_same = λ p. refl;
    removal_valid = λ k h. ground arith;
    removal_applies = λ k p. refl;
    upsert_valid = λ v. refl;
    upsert_applies = λ v p. refl;
  }

  -- The coordinator runs, no key of its activity is white space, and nobody else commits between the snapshot
  -- and the commit. Then the commit is taken, and a snapshot shows just the activity of the samples.
  pub replace_activity_shows_samples :
      (idle_number : Option ℕ → ℕ) (count_number : ℕ → ℕ) (samples : List (Option Bytes.Snapshot))
      (local : Text) (c : Coordinator)
      → c.stopped ≡ false
      → HasStableKeys c.projection.activity
      → let after = replace_activity json_valid idle_number count_number samples local [] c in
        ((r : CommitResult) × (after.1 ≡ answered (committed r)))
        × ((k : Text)
            → get k (snapshot after.0).state.activity
              ≡ get k (reported idle_number count_number local samples []))
  unfolding replace_activity activity_operations serve
  replace_activity_shows_samples idle_number count_number samples local c h stable =
      let next = reported idle_number count_number local samples [] in
      let p = clone_projection c.projection in
      let fixed : AreFixed next =
        reported-AreFixed idle_number count_number local samples []
          (λ k v e. absurd (unfold get in cc)) in
      let gone = gone_keys p.activity next in
      let new = new_keys p.activity next in
      let q = record p {
        activity = upserted activity_table.key next new (removed gone p.activity);
      } in
      let shows = commit_all-Shows json_valid c (activity_operations p.activity next) q h (
        Takes-append json_valid (map removal_of_activity gone) (upserts upsert_of_activity next new)
          p _ q
          (Takes-removals json_valid activity_table activity_table-IsTable gone p (
            gone_stable next p
              (unfold clone_projection in stable_clone c.projection.activity stable)))
          (Takes-upserts json_valid activity_table activity_table-IsTable next new
            (record p { activity = removed gone p.activity }))
          0) in
      rw (snapshot_then_commit-commit json_valid _ c [] h) (
        shows.0,
        λ k.
            unfold snapshot clone_projection in
            shows.1.activity k
            ∙ (get-map_values clone_activity k q.activity
                ∙ (ap (Option.map clone_activity)
                      (get-synced p.activity next (λ j v e. (fixed j v e).0) k)
                    ∙ fixed_entry next k fixed)),
      )
