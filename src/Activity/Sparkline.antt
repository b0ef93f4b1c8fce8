-- ===== src/Activity/Sparkline.antt =====
-- A session's sparkline shows the sums of its latest twenty buckets.
use Prim.Native.Nat.{◌/◌, ◌%◌, max}
use tmuxatlas.Common.{
  ℕ, zero, suc, ◌+◌, ◌-◌, ◌<◌, ◌≡◌, refl, List, [], ◌∷◌, arith, get_or, length, Text,
}
use tmuxatlas.Activity.{
  bucket_duration, bucket_count, SessionActivity, advance, record_bytes, snapshot, sparkline_from,
  new_session_activity,
}
use tmuxatlas.Activity.Ring.{
  Log, recorded, UpTo, UpTo-max, IsAt, logged, advance-IsAt, record_bytes-IsAt,
  new_session_activity-IsAt,
}

-- The calls on one session.
pub data Call : Type 0 where
  records : ℕ → ℕ → Call
  reads : ℕ → Call

unfoldable pub call : Call → SessionActivity → SessionActivity
call (records now n) sa = record_bytes now n sa
call (reads now) sa = (snapshot [] now sa).0

unfoldable pub calls : List Call → SessionActivity → SessionActivity
unfolding call
calls [] sa = sa
calls (c ∷ cs) sa = calls cs (call c sa)

-- The latest bucket and the log, without the ring.
unfoldable pub logs : List Call → ℕ × Log → ℕ × Log
logs [] (h, log) = (h, log)
logs (records now n ∷ cs) (h, log) = logs cs (max h (now / bucket_duration), logged h now n log)
logs (reads now ∷ cs) (h, log) = logs cs (max h (now / bucket_duration), log)

calls-IsAt :
    (cs : List Call) (h : ℕ) (log : Log) (sa : SessionActivity)
    → UpTo h log
    → IsAt h log sa
    → UpTo (logs cs (h, log)).0 (logs cs (h, log)).1
      × IsAt (logs cs (h, log)).0 (logs cs (h, log)).1 (calls cs sa)
unfolding calls call logs snapshot
calls-IsAt [] h log sa u at = (u, at)
calls-IsAt (records now n ∷ cs) h log sa u at =
    calls-IsAt cs (max h (now / bucket_duration)) (logged h now n log) (record_bytes now n sa)
      (omega arith, UpTo-max h (now / bucket_duration) log u)
      (record_bytes-IsAt h now n log sa u at)
calls-IsAt (reads now ∷ cs) h log sa u at =
    calls-IsAt cs (max h (now / bucket_duration)) log (advance now sa)
      (UpTo-max h (now / bucket_duration) log u) (advance-IsAt h now log sa u at)

get_or-sparkline_from :
    (left i k : ℕ) (sa : SessionActivity)
    → k < left
    → get_or (sparkline_from left i sa) k 0
      ≡ get_or sa.buckets ((sa.head_idx + 1 + (i + k)) % bucket_count) 0
unfolding sparkline_from
get_or-sparkline_from zero i k sa l = absurd (omega arith)
get_or-sparkline_from (suc left) i zero sa l = let same : i + 0 ≡ i = omega arith in rw same refl
get_or-sparkline_from (suc left) i (suc k) sa l =
    let same : i + suc k ≡ suc i + k = omega arith in
    rw same (get_or-sparkline_from left (suc i) k sa (omega arith))

length-sparkline_from :
    (left i : ℕ) (sa : SessionActivity) → length (sparkline_from left i sa) ≡ left
unfolding sparkline_from
length-sparkline_from zero i sa = refl
length-sparkline_from (suc left) i sa = omega (arith, length-sparkline_from left (suc i) sa)

slot-from_oldest :
    (i k : ℕ)
    → k < bucket_count
    → (i + 1 + (0 + k)) % bucket_count ≡ (i + bucket_count - (19 - k)) % bucket_count
slot-from_oldest i k l = omega arith

-- A session first seen at `start`, after any calls of Record and Get on it with clock readings in any
-- order, read at `now`: the snapshot has twenty entries, and the entry at `i` is the sum modulo 2 ^ 64 of
-- the bytes of the bucket of 15 seconds that lies `19 - i` buckets before the latest one seen, where a
-- record counts for the latest bucket seen when it was made.
pub sparkline_sums :
    (session : Text) (start : ℕ) (cs : List Call) (now i b : ℕ)
    → i < bucket_count
    → b + 19 ≡ max (logs cs (start / bucket_duration, [])).0 (now / bucket_duration) + i
    → let s = (snapshot session now (calls cs (new_session_activity start))).1 in
      (length s.sparkline ≡ bucket_count)
      × (get_or s.sparkline i 0 ≡ recorded b (logs cs (start / bucket_duration, [])).1)
unfolding snapshot
sparkline_sums session start cs now i b l e =
    let (u, at) =
      calls-IsAt cs (start / bucket_duration) [] (new_session_activity start) tt
        (new_session_activity-IsAt start) in
    let sa = calls cs (new_session_activity start) in
    let (_, ring) =
      advance-IsAt (logs cs (start / bucket_duration, [])).0 now
        (logs cs (start / bucket_duration, [])).1 sa u at in
    (
      length-sparkline_from bucket_count 0 (advance now sa),
      rw (get_or-sparkline_from bucket_count 0 i (advance now sa) l) (
          rw (slot-from_oldest (advance now sa).head_idx i l)
            (ring.2 (19 - i) b (omega arith) (omega arith))),
    )
