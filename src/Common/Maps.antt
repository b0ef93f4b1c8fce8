-- ===== src/Common/Maps.antt =====
-- Go's `map[K]V` as a list of its entries. The order of the entries stands for the order in which
-- one `range` visits them, which Go leaves open. `put` keeps one entry for a key.
use Prim.Native.Nat.{ℕ, suc, ◌≤◌, ◌<◌}
use mathlib.Core.Path.{◌≡◌}
use mathlib.Core.Bool.{Bool}
use mathlib.Core.Logic.{ite}
use mathlib.Core.List.{List, [], ◌∷◌}
use mathlib.Core.Option.{Option, none, some}
use native.Mathlib.Omega.{arith}
unfoldable use native.Mathlib.Decide.{ℕ_discrete}
use tmuxatlas.Common.Lists.{length, All}
use mathlib.Core.Option
use mathlib.Core.Path.{refl, ap}
use mathlib.Core.Logic.{inl, inr, ◌≢◌}
use mathlib.Core.Bool.{true, false, ◌&&◌}
use tmuxatlas.Common.Tests.{Bool-cases, holds, Option-cases, if◌then◌else◌, is_some}

abbrev pub Option-discrete {ℓ} : {A : Type ℓ} → Discrete A → Discrete (Option A)
Option-discrete d none none = yes refl
Option-discrete d none (some b) = no (λ e. cc)
Option-discrete d (some a) none = no (λ e. cc)
Option-discrete d (some a) (some b) = elim (d a b) [
  | yes p ↦ yes (ap some p)
  | no n ↦ no (λ e. n (cc))
]

-- A type of keys: Go's `==` on it.
pub record Key {ℓ} (K : Type ℓ) : Type ℓ where
  pub eq? : Discrete K

instance abbrev pub ℕ_key : Key ℕ
ℕ_key = record { eq? = ℕ_discrete }

abbrev pub Dict {ℓ} : Type ℓ → Type ℓ → Type ℓ
Dict K V = List (K × V)

module _ {ℓ} {K V : Type ℓ} where
  -- A copy of a map, each value copied by `f`.
  unfoldable pub map_values : (V → V) → Dict K V → Dict K V
  map_values f [] = []
  map_values f ((j, v) ∷ m) = (j, f v) ∷ map_values f m

  pub map_values_fix :
      (f : V → V) (m : Dict K V)
      → ((v : V) → f (f v) ≡ f v)
      → map_values f (map_values f m) ≡ map_values f m
  unfolding map_values
  map_values_fix f [] h = refl
  map_values_fix f ((j, v) ∷ m) h = cc (h v, map_values_fix f m h)

module _ {ℓ} {K V : Type ℓ} ⦃e : Key K⦄ where
  -- v, ok := m[k]
  unfoldable pub get : K → Dict K V → Option V
  get k [] = none
  get k ((j, v) ∷ m) = ite (e.eq? j k) (some v) (get k m)

  -- delete(m, k)
  unfoldable pub remove : K → Dict K V → Dict K V
  remove k [] = []
  remove k ((j, v) ∷ m) = let rest = remove k m in ite (e.eq? j k) rest ((j, v) ∷ rest)

  -- m[k] = v
  unfoldable pub put : K → V → Dict K V → Dict K V
  unfolding remove
  put k v m = (k, v) ∷ remove k m

  -- _, ok := m[k]
  abbrev pub has : K → Dict K V → Bool
  has k m = is_some (get k m)

  pub get-remove : (j k : K) (m : Dict K V) → get j (remove k m) ≡ ite (e.eq? k j) none (get j m)
  unfolding get remove
  get-remove j k [] = ground arith
  get-remove j k ((i, v) ∷ m) = ground (arith, get-remove j k m)

  pub get-put :
      (j k : K) (v : V) (m : Dict K V) → get j (put k v m) ≡ ite (e.eq? k j) (some v) (get j m)
  unfolding get put
  get-put j k v m = ground (arith, get-remove j k m)

  pub get-put_self : (k : K) (v : V) (m : Dict K V) → get k (put k v m) ≡ some v
  get-put_self k v m = ground (arith, get-put k k v m)

  pub get-put_ne : (j k : K) (v : V) (m : Dict K V) → k ≢ j → get j (put k v m) ≡ get j m
  get-put_ne j k v m h = ground (arith, get-put j k v m)

  pub get-remove_self : (k : K) (m : Dict K V) → get k (remove k m) ≡ none
  get-remove_self k m = ground (arith, get-remove k k m)

  pub get-remove_ne : (j k : K) (m : Dict K V) → k ≢ j → get j (remove k m) ≡ get j m
  get-remove_ne j k m h = ground (arith, get-remove j k m)

  pub length-remove-le : (k : K) (m : Dict K V) → length (remove k m) ≤ length m
  unfolding remove
  length-remove-le k [] = omega arith
  length-remove-le k ((j, v) ∷ m) = ground (arith, length-remove-le k m)

  pub length-put-le : (k : K) (v : V) (m : Dict K V) → length (put k v m) ≤ suc (length m)
  unfolding put
  length-put-le k v m = omega (arith, length-remove-le k m)

  -- Removing a key that is there makes the map smaller.
  pub length-remove-lt :
      (k : K) (v : V) (m : Dict K V) → get k m ≡ some v → length (remove k m) < length m
  unfolding get remove
  length-remove-lt k v [] h = absurd (ground arith)
  length-remove-lt k v ((j, w) ∷ m) h = ground (arith, length-remove-le k m, length-remove-lt k v m)

  pub length-put-le_of_get :
      (k : K) (v w : V) (m : Dict K V) → get k m ≡ some w → length (put k v m) ≤ length m
  unfolding put
  length-put-le_of_get k v w m h = omega (arith, length-remove-lt k w m h)

  -- Entries that fail a test are dropped: a loop of `delete`s under `range`.
  unfoldable pub keep : (K → V → Bool) → Dict K V → Dict K V
  keep p [] = []
  keep p ((j, v) ∷ m) = let rest = keep p m in if p j v then (j, v) ∷ rest else rest

  pub length-keep-le : (p : K → V → Bool) (m : Dict K V) → length (keep p m) ≤ length m
  unfolding keep
  length-keep-le p [] = omega arith
  length-keep-le p ((j, v) ∷ m) = ground (arith, length-keep-le p m)

  -- An entry that passes is kept, and a key that is not there is not there after.
  pub get-keep-some :
      (p : K → V → Bool) (k : K) (v : V) (m : Dict K V)
      → get k m ≡ some v
      → p k v ≡ true
      → get k (keep p m) ≡ some v
  unfolding get keep
  get-keep-some p k v [] h e = absurd (ground arith)
  get-keep-some p k v ((j, w) ∷ m) h e = grind (arith, get-keep-some p k v m)

  pub get-keep-none :
      (p : K → V → Bool) (k : K) (m : Dict K V) → get k m ≡ none → get k (keep p m) ≡ none
  unfolding get keep
  get-keep-none p k [] h = refl
  get-keep-none p k ((j, w) ∷ m) h = ground (arith, get-keep-none p k m)

  -- What holds of every entry holds of those that are left, or added.
  pub All-remove {κ} : (P : K × V → Type κ) (k : K) (m : Dict K V) → All P m → All P (remove k m)
  unfolding remove
  All-remove P k [] h = tt
  All-remove P k ((j, v) ∷ m) h =
      elim (e.eq? j k) as (λ d. All P (ite d (remove k m) ((j, v) ∷ remove k m))) [
        | yes p ↦ All-remove P k m h.1
        | no n ↦ (h.0, All-remove P k m h.1)
      ]

  pub All-put {κ} :
      (P : K × V → Type κ) (k : K) (v : V) (m : Dict K V) → P (k, v) → All P m → All P (put k v m)
  unfolding put
  All-put P k v m p h = (p, All-remove P k m h)

  pub All-keep {κ} :
      (P : K × V → Type κ) (p : K → V → Bool) (m : Dict K V) → All P m → All P (keep p m)
  unfolding keep
  All-keep P p [] h = tt
  All-keep P p ((j, v) ∷ m) h = elim (Bool-cases (p j v)) [
    | inl e ↦ rw e (h.0, All-keep P p m h.1)
    | inr e ↦ rw e (All-keep P p m h.1)
  ]

  -- One entry for a key.
  abbrev pub Unique : Dict K V → Type ℓ
  Unique [] = Unit
  Unique ((k, v) ∷ m) = (get k m ≡ none) × Unique m

  pub remove-Unique : (k : K) (m : Dict K V) → Unique m → Unique (remove k m)
  unfolding remove
  remove-Unique k [] u = tt
  remove-Unique k ((j, v) ∷ m) u = ground (arith, get-remove j k m, remove-Unique k m u.1)

  pub put-Unique : (k : K) (v : V) (m : Dict K V) → Unique m → Unique (put k v m)
  unfolding put
  put-Unique k v m u = (rw (get-remove k k m) (ground arith), remove-Unique k m u)

  pub keep-Unique : (p : K → V → Bool) (m : Dict K V) → Unique m → Unique (keep p m)
  unfolding keep
  keep-Unique p [] u = tt
  keep-Unique p ((j, q) ∷ m) u = ground (arith, keep-Unique p m u.1, get-keep-none p j m u.0)

  pub get-keep-dropped :
      (p : K → V → Bool) (k : K) (v : V) (m : Dict K V)
      → Unique m
      → get k m ≡ some v
      → p k v ≡ false
      → get k (keep p m) ≡ none
  unfolding get keep
  get-keep-dropped p k v [] u h f = refl
  get-keep-dropped p k v ((j, w) ∷ m) u h f = elim (e.eq? j k) [
    | yes q ↦
        ground (arith, get-keep-none p j m u.0, ap (λ i. get i (keep p m)) q, ap (λ i. p i w) q)
    | no n ↦ ground (arith, get-keep-dropped p k v m u.1)
  ]

  -- reflect.DeepEqual of two maps: each key of either has equal values, or none, in both.
  agree_on : Discrete V → Dict K V → Dict K V → Dict K V → Bool
  agree_on d [] m n = true
  agree_on d ((j, v) ∷ keys) m n =
      holds (Option-discrete d (get j m) (get j n)) && agree_on d keys m n

  unfoldable pub dict_equal : Discrete V → Dict K V → Dict K V → Bool
  unfolding agree_on
  dict_equal d m n = agree_on d m m n && agree_on d n m n

  agree_on_sound :
      (d : Discrete V) (k : K) (keys m n : Dict K V) (v : V)
      → agree_on d keys m n ≡ true
      → get k keys ≡ some v
      → get k m ≡ get k n
  unfolding agree_on get
  agree_on_sound d k [] m n v h e = absurd (ground arith)
  agree_on_sound d k ((j, w) ∷ keys) m n v h e = ground (arith, agree_on_sound d k keys m n v)

  agree_on_complete :
      (d : Discrete V) (keys m n : Dict K V)
      → ((k : K) → get k m ≡ get k n)
      → agree_on d keys m n ≡ true
  unfolding agree_on
  agree_on_complete d [] m n h = refl
  agree_on_complete d ((j, w) ∷ keys) m n h = ground (arith, h j, agree_on_complete d keys m n h)

  pub dict_equal_sound :
      (d : Discrete V) (m n : Dict K V) → dict_equal d m n ≡ true → (k : K) → get k m ≡ get k n
  unfolding dict_equal
  dict_equal_sound d m n h k = elim (Option-cases (get k m)) [
    | inr (v, e) ↦ agree_on_sound d k m m n v (ground arith) e
    | inl e ↦ elim (Option-cases (get k n)) [
      | inl f ↦ cc
      | inr (v, f) ↦ agree_on_sound d k n m n v (ground arith) f
    ]
  ]

  pub dict_equal_complete :
      (d : Discrete V) (m n : Dict K V) → ((k : K) → get k m ≡ get k n) → dict_equal d m n ≡ true
  unfolding dict_equal
  dict_equal_complete d m n h =
      ground (arith, agree_on_complete d m m n h, agree_on_complete d n m n h)

  pub map_values-remove :
      (f : V → V) (k : K) (m : Dict K V) → map_values f (remove k m) ≡ remove k (map_values f m)
  unfolding map_values remove
  map_values-remove f k [] = refl
  map_values-remove f k ((j, v) ∷ m) = ground (arith, map_values-remove f k m)

  pub map_values-put :
      (f : V → V) (k : K) (v : V) (m : Dict K V)
      → map_values f (put k v m) ≡ put k (f v) (map_values f m)
  unfolding map_values put
  map_values-put f k v m = cc (map_values-remove f k m)

  pub get-map_values :
      (f : V → V) (k : K) (m : Dict K V) → get k (map_values f m) ≡ Option.map f (get k m)
  unfolding map_values get
  get-map_values f k [] = refl
  get-map_values f k ((j, v) ∷ m) = ground (arith, get-map_values f k m)

pub ruleset dict_laws = (get-remove, get-put)
