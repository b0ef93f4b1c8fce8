-- ===== src/Activity/Ring.antt =====
-- The ring holds the sums of the latest buckets.
use Prim.Native.Nat.{◌/◌, ◌%◌, max}
use tmuxatlas.Common.{
  ℕ, zero, suc, ◌+◌, ◌-◌, ◌*◌, ◌≤◌, ◌<◌, ◌≡◌, ◌≢◌, refl, List, [], ◌∷◌, arith, ltb, ◌==◌,
  if◌then◌else◌, get_or, set, replicate, length, All, Bool-cases, inl, inr, length-set,
  get_or-set_self, get_or-set_ne,
}
use tmuxatlas.Activity.{
  bucket_duration, bucket_count, add64, SessionActivity, truncate, clear_buckets, capped, advance,
  record_bytes, new_session_activity,
}

-- What was recorded: the number of the bucket and the bytes, the latest first.
abbrev pub Log : Type 0
Log = List (ℕ × ℕ)

-- The bytes that a log has for a bucket.
unfoldable pub recorded : ℕ → Log → ℕ
recorded b [] = 0
recorded b ((c, n) ∷ log) = if c == b then add64 (recorded b log) n else recorded b log

-- Whether no entry of a log is later than a bucket.
abbrev pub UpTo : ℕ → Log → Type 0
UpTo h log = All (λ e. e.0 ≤ h) log

-- The ring with the bucket `h` at its head, and with the sum of each of the latest twenty.
abbrev pub IsRing : ℕ → Log → SessionActivity → Type 0
IsRing h log sa =
    (length sa.buckets ≡ bucket_count)
    × (sa.head_idx < bucket_count)
    × ((j b : ℕ)
        → j < bucket_count
        → b + j ≡ h
        → get_or sa.buckets ((sa.head_idx + bucket_count - j) % bucket_count) 0 ≡ recorded b log)

recorded-new : (b h : ℕ) (log : Log) → UpTo h log → h < b → recorded b log ≡ 0
unfolding recorded
recorded-new b h [] u l = refl
recorded-new b h ((c, n) ∷ log) u l = ground (arith, recorded-new b h log u.1 l)

-- The slot of a bucket `j` before the head, as the head moves on by one.
slot-head : (i : ℕ) → i < bucket_count → (i + bucket_count - 0) % bucket_count ≡ i
slot-head i l = omega arith

slot-next :
    (i j : ℕ)
    → i < bucket_count
    → suc j < bucket_count
    → ((i + 1) % bucket_count + bucket_count - suc j) % bucket_count
      ≡ (i + bucket_count - j) % bucket_count
slot-next i j l k = omega arith

slot-other :
    (i j : ℕ)
    → i < bucket_count
    → suc j < bucket_count
    → (i + 1) % bucket_count ≢ (i + bucket_count - j) % bucket_count
slot-other i j l k = omega arith

-- Each bucket's slot, where the ring `sa` is moved on by one.
cleared-slots :
    (h : ℕ) (log : Log) (sa : SessionActivity) (j b : ℕ)
    → UpTo h log
    → IsRing h log sa
    → j < bucket_count
    → b + j ≡ suc h
    → get_or
        (set sa.buckets ((sa.head_idx + 1) % bucket_count) 0)
        (((sa.head_idx + 1) % bucket_count + bucket_count - j) % bucket_count)
        0
      ≡ recorded b log
cleared-slots h log sa zero b u (len, pos, slots) l e =
    let head = slot-head ((sa.head_idx + 1) % bucket_count) (omega arith) in
    let fresh = recorded-new b h log u (omega arith) in
    let hit = get_or-set_self sa.buckets ((sa.head_idx + 1) % bucket_count) 0 0 (omega arith) in
    rw (head, fresh) hit
cleared-slots h log sa (suc j) b u (len, pos, slots) l e =
    let miss =
      get_or-set_ne sa.buckets ((sa.head_idx + 1) % bucket_count)
        ((sa.head_idx + bucket_count - j) % bucket_count) 0 0 (slot-other sa.head_idx j pos l) in
    rw (slot-next sa.head_idx j pos l, miss) (slots j b (omega arith) (omega arith))

abbrev cleared_one : SessionActivity → SessionActivity
cleared_one sa = record sa {
  head_idx = (sa.head_idx + 1) % bucket_count;
  buckets = set sa.buckets ((sa.head_idx + 1) % bucket_count) 0;
}

clear_one-IsRing :
    (h : ℕ) (log : Log) (sa : SessionActivity)
    → UpTo h log
    → IsRing h log sa
    → IsRing (suc h) log (cleared_one sa)
clear_one-IsRing h log sa u r = (
  rw (length-set sa.buckets ((sa.head_idx + 1) % bucket_count) 0) r.0,
  omega arith,
  λ j b l e. cleared-slots h log sa j b u r l e,
)

UpTo-suc : (h : ℕ) (log : Log) → UpTo h log → UpTo (suc h) log
UpTo-suc h [] u = tt
UpTo-suc h (e ∷ log) u = (omega arith, UpTo-suc h log u.1)

clear_buckets-IsRing :
    (steps h later : ℕ) (log : Log) (sa : SessionActivity)
    → UpTo h log
    → h + steps ≡ later
    → IsRing h log sa
    → IsRing later log (clear_buckets steps sa)
unfolding clear_buckets
clear_buckets-IsRing zero h later log sa u l r = (r.0, r.1, λ j b k e. r.2 j b k (omega arith))
clear_buckets-IsRing (suc steps) h later log sa u l r =
    clear_buckets-IsRing steps (suc h) later log (cleared_one sa) (UpTo-suc h log u) (omega arith)
      (clear_one-IsRing h log sa u r)

-- A ring that has moved past every entry by twenty holds zeros only, wherever its head stands.
IsRing-far :
    (h later : ℕ) (log : Log) (sa : SessionActivity)
    → UpTo h log
    → h + bucket_count ≤ later
    → IsRing (h + bucket_count) log sa
    → IsRing later log sa
IsRing-far h later log sa u l r = (
  r.0,
  r.1,
  λ j b k e.
      let zeros = r.2 j (h + bucket_count - j) k (omega arith) in
      let old = recorded-new (h + bucket_count - j) h log u (omega arith) in
      let fresh = recorded-new b h log u (omega arith) in omega arith,
)

-- The ring with `h` at its head, whose time is that of the head.
abbrev pub IsAt : ℕ → Log → SessionActivity → Type 0
IsAt h log sa = (sa.head_time ≡ bucket_duration * h) × IsRing h log sa

capped-IsRing :
    (h later : ℕ) (log : Log) (sa : SessionActivity)
    → UpTo h log
    → h < later
    → IsRing h log sa
    → IsRing later log (clear_buckets (capped (later - h)) sa)
capped-IsRing h later log sa u l ring = elim (Bool-cases (ltb bucket_count (later - h))) [
  | inl e ↦ rw e (
      IsRing-far h later log (clear_buckets bucket_count sa) u (ground arith)
        (clear_buckets-IsRing bucket_count h (h + bucket_count) log sa u refl ring))
  | inr e ↦ rw e (clear_buckets-IsRing (later - h) h later log sa u (omega arith) ring)
]

pub advance-IsAt :
    (h now : ℕ) (log : Log) (sa : SessionActivity)
    → UpTo h log
    → IsAt h log sa
    → IsAt (max h (now / bucket_duration)) log (advance now sa)
unfolding advance
advance-IsAt h now log sa u (time, ring) = elim (Bool-cases (ltb sa.head_time (truncate now))) [
  | inr e ↦ let same : max h (now / bucket_duration) ≡ h = ground arith in rw (e, same) (time, ring)
  | inl e ↦
      let later : h < now / bucket_duration = ground arith in
      let moves : max h (now / bucket_duration) ≡ now / bucket_duration = ground arith in
      let steps : (truncate now - sa.head_time) / bucket_duration ≡ now / bucket_duration - h =
        omega arith in
      rw (e, moves, steps)
        (omega arith, capped-IsRing h (now / bucket_duration) log sa u later ring)
]

-- The bucket that a record at a time goes to, and the log with it.
abbrev pub logged : ℕ → ℕ → ℕ → Log → Log
logged h now n log = (max h (now / bucket_duration), n) ∷ log

pub UpTo-max : (h k : ℕ) (log : Log) → UpTo h log → UpTo (max h k) log
UpTo-max h k [] u = tt
UpTo-max h k (e ∷ log) u = (omega arith, UpTo-max h k log u.1)

slot-apart :
    (i j : ℕ)
    → i < bucket_count
    → suc j < bucket_count
    → i ≢ (i + bucket_count - suc j) % bucket_count
slot-apart i j l k = omega arith

write-slots :
    (h n : ℕ) (log : Log) (sa : SessionActivity) (j b : ℕ)
    → IsRing h log sa
    → j < bucket_count
    → b + j ≡ h
    → get_or
        (set sa.buckets sa.head_idx (add64 (get_or sa.buckets sa.head_idx 0) n))
        ((sa.head_idx + bucket_count - j) % bucket_count)
        0
      ≡ recorded b ((h, n) ∷ log)
unfolding recorded
write-slots h n log sa zero b (len, pos, slots) l e =
    let head = slot-head sa.head_idx pos in
    let hit =
      get_or-set_self sa.buckets sa.head_idx (add64 (get_or sa.buckets sa.head_idx 0) n) 0
        (omega arith) in
    let old : get_or sa.buckets sa.head_idx 0 ≡ recorded b log = cc (head, slots 0 b l e) in
    rw (head, hit, old) (ground arith)
write-slots h n log sa (suc j) b (len, pos, slots) l e =
    let miss =
      get_or-set_ne sa.buckets sa.head_idx ((sa.head_idx + bucket_count - suc j) % bucket_count)
        (add64 (get_or sa.buckets sa.head_idx 0) n) 0 (slot-apart sa.head_idx j pos l) in
    rw miss (ground (arith, slots (suc j) b l e))

pub record_bytes-IsAt :
    (h now n : ℕ) (log : Log) (sa : SessionActivity)
    → UpTo h log
    → IsAt h log sa
    → IsAt (max h (now / bucket_duration)) (logged h now n log) (record_bytes now n sa)
unfolding record_bytes
record_bytes-IsAt h now n log sa u at =
    let stamped = record sa { last_active = now; total_bytes = add64 sa.total_bytes n } in
    let moved = advance now stamped in
    let (time, ring) = advance-IsAt h now log stamped u at in
    (
      time,
      (
        rw
            (length-set moved.buckets moved.head_idx
              (add64 (get_or moved.buckets moved.head_idx 0) n))
            ring.0,
        ring.1,
        λ j b l e. write-slots (max h (now / bucket_duration)) n log moved j b ring l e,
      ),
    )

get_or-replicate : (n i a : ℕ) → get_or (replicate n a) i a ≡ a
get_or-replicate zero i a = refl
get_or-replicate (suc n) zero a = refl
get_or-replicate (suc n) (suc i) a = get_or-replicate n i a

pub new_session_activity-IsAt :
    (now : ℕ) → IsAt (now / bucket_duration) [] (new_session_activity now)
unfolding recorded
new_session_activity-IsAt now = (
  omega arith,
  (
    refl,
    omega arith,
    λ j b l e. get_or-replicate bucket_count ((0 + bucket_count - j) % bucket_count) 0,
  ),
)
