-- ===== src/State/Reconcile/Complete.antt =====
-- The operations of ReconcileHosts take the state to what discovery reports.
pub mod Lenses
pub mod Keyed
pub mod Whole
use tmuxatlas.Common.{
  ℕ, suc, ◌≡◌, refl, sym, ap, ◌∙◌, subst, Bool, true, false, Option, none, some, List, [], ◌∷◌,
  ◌++◌, map, arith, Text, Text-discrete, holds, Dict, get, put, remove, has, text_key, ok, Result,
  is_blank, Option-cases, inl, inr,
}
use tmuxatlas.State.Projection.{Projection, Operation}
use tmuxatlas.State.Projection.Validate.{Error, validate}
use tmuxatlas.State.Projection.Apply.{apply_operation}
use tmuxatlas.State.Commit.{apply_all}
use tmuxatlas.State.Commit.Effects.{apply_all-cons}
use tmuxatlas.State.Reconcile.{sort_keys, remove_keys, upsert_keys, upserts, upsert_at, map_diff}
use tmuxatlas.State.Reconcile.Tables.{
  contains, contains-sort_keys, contains-remove_keys, removed, put_if, upserted, patched,
}

-- One of the tables of a projection, and the two kinds of operation on it.
pub record Table (V : Type 0) : Type 0 where
  pub key : V → Text
  pub table : Projection → Dict Text V
  pub with_table : Dict Text V → Projection → Projection
  pub removal : Text → Operation
  pub upsert : V → Operation

pub record IsTable {V : Type 0} (json_valid : Text → Bool) (t : Table V) : Type 0 where
  pub table-with : (m : Dict Text V) (p : Projection) → t.table (t.with_table m p) ≡ m
  pub with-with :
      (m n : Dict Text V) (p : Projection) → t.with_table m (t.with_table n p) ≡ t.with_table m p
  pub with_same : (p : Projection) → t.with_table (t.table p) p ≡ p
  pub removal_valid : (k : Text) → is_blank k ≡ false → validate json_valid (t.removal k) ≡ ok tt
  pub removal_applies :
      (k : Text) (p : Projection)
      → apply_operation (t.removal k) p ≡ ok (t.with_table (remove k (t.table p)) p)
  pub upsert_valid : (v : V) → validate json_valid (t.upsert v) ≡ ok tt
  pub upsert_applies :
      (v : V) (p : Projection)
      → apply_operation (t.upsert v) p ≡ ok (t.with_table (put (t.key v) v (t.table p)) p)

-- No key is white space, which the removal of its entry would be refused for.
abbrev pub HasStableKeys : {V : Type 0} → Dict Text V → Type 0
HasStableKeys m = (k : Text) (v : _) → get k m ≡ some v → is_blank k ≡ false

module _ (json_valid : Text → Bool) where
  -- A list of operations that takes one state to another, wherever it stands in a commit.
  abbrev pub Takes : List Operation → Projection → Projection → Type 0
  Takes ops p q = (i : ℕ) → apply_all json_valid i ops p ≡ ok q

  pub Takes-cons :
      (op : Operation) (ops : List Operation) (p q r : Projection)
      → validate json_valid op ≡ ok tt
      → apply_operation op p ≡ ok q
      → Takes ops q r
      → Takes (op ∷ ops) p r
  unfolding apply_all
  Takes-cons op ops p q r v a h i = rw (v, a) (h (suc i))

  append_at :
      (i : ℕ) (ops more : List Operation) (p q r : Projection)
      → apply_all json_valid i ops p ≡ ok q
      → Takes more q r
      → apply_all json_valid i (ops ++ more) p ≡ ok r
  unfolding apply_all
  append_at i [] more p q r h g = subst (λ s. apply_all json_valid i more s ≡ ok r) (cc) (g i)
  append_at i (op ∷ ops) more p q r h g =
      let (s, v, a, rest) = apply_all-cons json_valid i op ops p q h in
      rw (v, a) (append_at (suc i) ops more s q r rest g)

  pub Takes-append :
      (ops more : List Operation) (p q r : Projection)
      → Takes ops p q
      → Takes more q r
      → Takes (ops ++ more) p r
  Takes-append ops more p q r h g i = append_at i ops more p q r (h i) g

  module _ {V : Type 0} (t : Table V) (laws : IsTable json_valid t) where
    pub Takes-removals :
        (ks : List Text) (p : Projection)
        → ((k : Text) → contains k ks ≡ true → is_blank k ≡ false)
        → Takes (map t.removal ks) p (t.with_table (removed ks (t.table p)) p)
    unfolding removed apply_all
    Takes-removals [] p h = λ i. ap ok (sym (laws.with_same p))
    Takes-removals (k ∷ ks) p h =
        Takes-cons (t.removal k) (map t.removal ks) p (t.with_table (remove k (t.table p)) p) _
          (laws.removal_valid k (h k (unfold contains in ground arith))) (laws.removal_applies k p)
          (subst (Takes (map t.removal ks) (t.with_table (remove k (t.table p)) p))
            (rw (laws.table-with (remove k (t.table p)) p)
              (laws.with-with (removed ks (remove k (t.table p))) (remove k (t.table p)) p))
            (Takes-removals ks (t.with_table (remove k (t.table p)) p)
              (λ j c. h j (unfold contains in ground arith))))

    pub Takes-upserts :
        (next : Dict Text V) (ks : List Text) (p : Projection)
        → Takes (upserts t.upsert next ks) p (t.with_table (upserted t.key next ks (t.table p)) p)
    unfolding upserted upserts apply_all
    Takes-upserts next [] p = λ i. ap ok (sym (laws.with_same p))
    Takes-upserts next (k ∷ ks) p = elim (Option-cases (get k next)) [
      | inl e ↦ rw e (Takes-upserts next ks p)
      | inr (v, e) ↦ rw e (
          Takes-cons (t.upsert v) (upserts t.upsert next ks) p
            (t.with_table (put (t.key v) v (t.table p)) p) _ (laws.upsert_valid v)
            (laws.upsert_applies v p)
            (subst (Takes (upserts t.upsert next ks) (t.with_table (put (t.key v) v (t.table p)) p))
              (rw (laws.table-with (put (t.key v) v (t.table p)) p) (
                laws.with-with (upserted t.key next ks (put (t.key v) v (t.table p)))
                  (put (t.key v) v (t.table p)) p))
              (Takes-upserts next ks (t.with_table (put (t.key v) v (t.table p)) p))))
    ]

    removals_stable :
        (current next : Dict Text V)
        → HasStableKeys current
        → (k : Text) → contains k (sort_keys (remove_keys current next)) ≡ true
        → is_blank k ≡ false
    removals_stable current next h k c = elim (Option-cases (get k current)) [
      | inl e ↦ absurd (
          ground (
            arith,
            contains-sort_keys k (remove_keys current next),
            contains-remove_keys k current next,
          ))
      | inr (v, e) ↦ h k v e
    ]

    -- The difference of a table and another one takes any state with the first to the patched one.
    pub Takes-map_diff :
        (d : Discrete V) (next : Dict Text V) (p : Projection)
        → HasStableKeys (t.table p)
        → Takes
            (map_diff d (t.table p) next t.removal t.upsert)
            p
            (t.with_table (patched t.key d (t.table p) next) p)
    unfolding map_diff
    Takes-map_diff d next p h =
        let ks = sort_keys (remove_keys (t.table p) next) in
        let us = sort_keys (upsert_keys d (t.table p) next next) in
        let q = t.with_table (removed ks (t.table p)) p in
        Takes-append (map t.removal ks) (upserts t.upsert next us) p q _
          (Takes-removals ks p (removals_stable (t.table p) next h))
          (subst (Takes (upserts t.upsert next us) q)
            (rw (laws.table-with (removed ks (t.table p)) p) (
              laws.with-with (upserted t.key next us (removed ks (t.table p)))
                (removed ks (t.table p)) p))
            (Takes-upserts next us q))
