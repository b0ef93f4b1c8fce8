-- ===== src/State/Reconcile/Tables.antt =====
-- The difference of two tables, removed and put one entry at a time, turns one into the other.
use tmuxatlas.Common.{
  ◌≡◌, refl, Bool, false, not, ◌&&◌, ◌||◌, Option, none, some, List, [], ◌∷◌, arith, Text,
  Text-discrete, if◌then◌else◌, Dict, get, put, remove, has, text_key, holds, Option-discrete,
  get-put, get-remove, inl, inr, Option-cases,
}
use tmuxatlas.State.Reconcile.{insert_key, sort_keys, remove_keys, upsert_keys}

unfoldable pub contains : Text → List Text → Bool
contains k [] = false
contains k (j ∷ ks) = holds (Text-discrete j k) || contains k ks

contains-insert_key :
    (k j : Text) (ks : List Text)
    → contains k (insert_key j ks) ≡ (holds (Text-discrete j k) || contains k ks)
unfolding contains insert_key
contains-insert_key k j [] = refl
contains-insert_key k j (i ∷ ks) = ground (arith, contains-insert_key k j ks)

pub contains-sort_keys : (k : Text) (ks : List Text) → contains k (sort_keys ks) ≡ contains k ks
unfolding contains sort_keys
contains-sort_keys k [] = refl
contains-sort_keys k (j ∷ ks) =
    ground (arith, contains-insert_key k j (sort_keys ks), contains-sort_keys k ks)

module _ {V : Type 0} where
  pub contains-remove_keys :
      (k : Text) (current next : Dict Text V)
      → contains k (remove_keys current next) ≡ (has k current && not (has k next))
  unfolding contains remove_keys get
  contains-remove_keys k [] next = refl
  contains-remove_keys k ((j, v) ∷ current) next =
      ground (arith, contains-remove_keys k current next)

  pub contains-upsert_keys :
      (d : Discrete V) (k : Text) (current next entries : Dict Text V)
      → contains k (upsert_keys d current next entries)
        ≡ (has k entries && not (holds (Option-discrete d (get k current) (get k next))))
  unfolding contains upsert_keys get
  contains-upsert_keys d k current next [] = refl
  contains-upsert_keys d k current next ((j, v) ∷ entries) =
      ground (arith, contains-upsert_keys d k current next entries)

  unfoldable pub removed : List Text → Dict Text V → Dict Text V
  removed [] m = m
  removed (k ∷ ks) m = removed ks (remove k m)

  pub get-removed :
      (k : Text) (ks : List Text) (m : Dict Text V)
      → get k (removed ks m) ≡ (if contains k ks then none else get k m)
  unfolding removed contains
  get-removed k [] m = refl
  get-removed k (j ∷ ks) m = ground (arith, get-removed k ks (remove j m), get-remove k j m)

module _ {V : Type 0} (key : V → Text) where
  -- Each value stands under its own key.
  abbrev pub IsKeyed : Dict Text V → Type 0
  IsKeyed m = (k : Text) (v : V) → get k m ≡ some v → key v ≡ k

  abbrev pub put_if : Option V → Dict Text V → Dict Text V
  put_if none m = m
  put_if (some v) m = put (key v) v m

  unfoldable pub upserted : Dict Text V → List Text → Dict Text V → Dict Text V
  upserted next [] m = m
  upserted next (k ∷ ks) m = upserted next ks (put_if (get k next) m)

  abbrev pub or_else : Option V → Option V → Option V
  or_else none o = o
  or_else (some v) o = some v

  get-put_if :
      (k j : Text) (next m : Dict Text V)
      → IsKeyed next
      → get k (put_if (get j next) m)
        ≡ (if holds (Text-discrete j k) then or_else (get k next) (get k m) else get k m)
  get-put_if k j next m h = elim (Option-cases (get j next)) [
    | inl e ↦ ground (arith, e)
    | inr (v, e) ↦ ground (arith, h j v e, get-put k (key v) v m)
  ]

  pub get-upserted :
      (k : Text) (next : Dict Text V) (ks : List Text) (m : Dict Text V)
      → IsKeyed next
      → get k (upserted next ks m)
        ≡ (if contains k ks then or_else (get k next) (get k m) else get k m)
  unfolding upserted contains
  get-upserted k next [] m h = refl
  get-upserted k next (j ∷ ks) m h =
      ground (arith, get-upserted k next ks (put_if (get j next) m) h, get-put_if k j next m h)

  -- What the difference makes of `current`.
  abbrev pub patched : Discrete V → Dict Text V → Dict Text V → Dict Text V
  patched d current next =
      upserted next (sort_keys (upsert_keys d current next next))
        (removed (sort_keys (remove_keys current next)) current)

  pub get-patched :
      (d : Discrete V) (current next : Dict Text V)
      → IsKeyed next
      → (k : Text) → get k (patched d current next) ≡ get k next
  get-patched d current next h k = ground (
    arith,
    get-upserted k next (sort_keys (upsert_keys d current next next))
        (removed (sort_keys (remove_keys current next)) current) h,
    get-removed k (sort_keys (remove_keys current next)) current,
    contains-sort_keys k (upsert_keys d current next next),
    contains-sort_keys k (remove_keys current next),
    contains-upsert_keys d k current next next,
    contains-remove_keys k current next,
  )
