-- ===== src/Kafka/Settled/Completing.antt =====
-- kafka/consumer.go: a result that is applied marks no offset that is not safe.
use Prim.Native.String.{String}
use text.Mathlib.Text.{◌==◌ as str_eq}
use go_guard_lib.Prelude.{
  ℕ, ◌+◌, ◌-◌, ◌≡◌, refl, Bool, true, false, ◌&&◌, not, Option, none, some, List, [], ◌∷◌, arith,
  Bool-cases, Option-cases, inl, inr, ◌||◌, ◌==◌,
}
use go_guard_lib.Kafka.{
  TopicPartition, Partition, Task, Finished, Consumer, Counter, add, unstorable, Outcome,
}
use go_guard_lib.Kafka.Maps.{get, put}
use go_guard_lib.Kafka.Committing.{mark_done}
use go_guard_lib.Kafka.Queueing.{
  key_of, queue_of, released, next_of, drop_queued, less_inflight, count_dropped, queues_left,
}
use go_guard_lib.Kafka.Completing.{
  Meanwhile, rewind, settle, then_settle, note_failure, note_in, cleared, pass, fail_back,
  is_unstorable, is_safe, counter_of, complete, skip_or_stop, complete_in, complete_for, has_failed,
  is_err, is_full_link, is_fatal_link, lowest,
}
use go_guard_lib.Kafka.Settled.{Fact, PartOk, IsSettled, put-PartsOk, get-PartsOk}
use go_guard_lib.Kafka.Settled.Committing.{mark_done-IsSettled}

next_of-IsSettled :
    (fact : Fact) (t : Task) (o : Option (List Task)) (c : Consumer)
    → IsSettled fact c
    → IsSettled fact (next_of (key_of t) o c)
next_of-IsSettled fact t none c is = is
next_of-IsSettled fact t (some []) c is = is
next_of-IsSettled fact t (some (t' ∷ q)) c is = is

released-IsSettled :
    (fact : Fact) (t : Task) (c : Consumer) → IsSettled fact c → IsSettled fact (released t c)
unfolding released
released-IsSettled fact t c is =
    elim (Bool-cases (str_eq t.input.order_key "" || not c.cfg.pooled)) [
      | inl e ↦ rw (e) is
      | inr n ↦ rw (n) (next_of-IsSettled fact t (queue_of (key_of t) c.key_queues) c is)
    ]

-- A partition of the map is as it should be, and so is a copy with the same frontier and the same
-- completed offsets.
less_inflight-IsSettled :
    (fact : Fact) (tp : TopicPartition) (n : ℕ) (o : Option Partition) (c : Consumer)
    → get tp c.parts ≡ o
    → IsSettled fact c
    → IsSettled fact (less_inflight tp n o c)
less_inflight-IsSettled fact tp n none c e is = is
less_inflight-IsSettled fact tp n (some p) c e is = (
  put-PartsOk fact tp (record p { inflight = p.inflight - n }) c.parts is.0
      (get-PartsOk fact tp c.parts p is.0 e),
  is.1,
  is.2,
  is.3,
)

pub drop_queued-IsSettled :
    (fact : Fact) (tp : TopicPartition) (only : Option String) (c : Consumer)
    → IsSettled fact c
    → IsSettled fact (drop_queued tp only c)
unfolding drop_queued
drop_queued-IsSettled fact tp only c is =
    let n = count_dropped tp only c.key_queues in
    less_inflight-IsSettled fact tp n (get tp c.parts)
      (record c { inflight = c.inflight - n; key_queues = queues_left tp only c.key_queues }) refl
      is

rewind-IsSettled :
    (fact : Fact) (w : Meanwhile) (tp : TopicPartition) (p : Partition) (c : Consumer)
    → IsSettled fact c
    → PartOk fact tp p
    → IsSettled fact (rewind w tp p c).0
unfolding rewind
rewind-IsSettled fact w tp p c is ok = elim (Option-cases w.seek) [
  | inl n ↦ rw (n) (
    put-PartsOk fact tp
        (record p {
          next = p.frontier;
          failed_at = none;
          failures = p.failures + 1;
          retry_at = w.now + c.cfg.backoff (p.failures + 1);
        })
        c.parts is.0 ok,
    is.1,
    is.2,
    is.3,
  )
  | inr (e, n) ↦ rw (n) is
]

settle-IsSettled :
    (fact : Fact) (w : Meanwhile) (tp : TopicPartition) (c : Consumer)
    → IsSettled fact c
    → IsSettled fact (settle w tp c).0
unfolding settle
settle-IsSettled fact w tp c is = elim (Option-cases (get tp c.parts)) [
  | inl n ↦ rw (n) is
  | inr (p, n) ↦ elim (Bool-cases (has_failed p.failed_at && (p.inflight == 0) && not c.stopping)) [
    | inl t ↦ rw (n, t) (rewind-IsSettled fact w tp p c is (get-PartsOk fact tp c.parts p is.0 n))
    | inr f ↦ rw (n, f) is
  ]
]

then_settle-IsSettled :
    (fact : Fact) (w : Meanwhile) (tp : TopicPartition) (r : Outcome)
    → IsSettled fact r.0
    → IsSettled fact (then_settle w tp r).0
then_settle-IsSettled fact w tp (c, some e) is = is
then_settle-IsSettled fact w tp (c, none) is = settle-IsSettled fact w tp c is

note_failure-IsSettled :
    (fact : Fact) (w : Meanwhile) (p : Partition) (r : Finished) (c : Consumer)
    → IsSettled fact c
    → PartOk fact r.task.m.tp p
    → IsSettled fact (note_failure w p r c).0
unfolding note_failure
note_failure-IsSettled fact w p r c is ok =
    let p' = record p { failed_at = lowest p.failed_at r.task.m.offset } in
    let put_ok = put-PartsOk fact r.task.m.tp p' c.parts is.0 ok in
    elim (Bool-cases (is_err is_fatal_link r.err)) [
      | inl t ↦ rw (t) is
      | inr n ↦ elim (Bool-cases (w.ended || c.stopping)) [
        | inl t ↦ rw (n, t) is
        | inr n' ↦ elim (Bool-cases (is_err is_full_link r.err)) [
          | inl t ↦ rw (n, n', t) (put_ok, is.1, is.2, is.3)
          | inr f ↦ rw (n, n', f) (put_ok, is.1, is.2, is.3)
        ]
      ]
    ]

cleared-IsSettled :
    (fact : Fact) (r : Finished) (c : Consumer) → IsSettled fact c → IsSettled fact (cleared r c)
cleared-IsSettled fact r c is = elim (Bool-cases (str_eq r.task.input.order_key "")) [
  | inl t ↦ rw (t) is
  | inr n ↦ rw (n) (drop_queued-IsSettled fact r.task.m.tp (some r.task.input.order_key) c is)
]

note_in-IsSettled :
    (fact : Fact) (w : Meanwhile) (r : Finished) (o : Option Partition) (c : Consumer)
    → get r.task.m.tp c.parts ≡ o
    → IsSettled fact c
    → IsSettled fact (note_in w r o c).0
note_in-IsSettled fact w r none c e is = is
note_in-IsSettled fact w r (some p) c e is =
    note_failure-IsSettled fact w p r c is (get-PartsOk fact r.task.m.tp c.parts p is.0 e)

fail_back-IsSettled :
    (fact : Fact) (w : Meanwhile) (r : Finished) (c : Consumer)
    → IsSettled fact c
    → IsSettled fact (fail_back w r c).0
unfolding fail_back
fail_back-IsSettled fact w r c is =
    let c' = cleared r c in
    let tp = r.task.m.tp in
    then_settle-IsSettled fact w tp (note_in w r (get tp c'.parts) c')
      (note_in-IsSettled fact w r (get tp c'.parts) c' refl (cleared-IsSettled fact r c is))

pass-IsSettled :
    (fact : Fact) (k : Counter) (w : Meanwhile) (p : Partition) (r : Finished) (c : Consumer)
    → IsSettled fact c
    → PartOk fact r.task.m.tp p
    → fact r.task.m.tp r.task.m.offset ≡ true
    → IsSettled fact (pass k w p r c).0
unfolding pass
pass-IsSettled fact k w p r c is ok new =
    let tp = r.task.m.tp in
    let marked = mark_done tp r.task.m.offset p (add k c) in
    settle-IsSettled fact w tp (released r.task marked) (
      released-IsSettled fact r.task marked
        (mark_done-IsSettled fact tp r.task.m.offset p (add k c) is ok new))

-- A result lets its message's offset be marked: it is safe, or never to be stored and skipped.
abbrev pub passes : Bool → Finished → Bool
passes skips r = is_safe r.res || (skips && is_unstorable r)

skip_or_stop-IsSettled :
    (fact : Fact) (skips : Bool) (w : Meanwhile) (r : Finished) (p : Partition) (c : Consumer)
    → IsSettled fact c
    → PartOk fact r.task.m.tp p
    → (skips ≡ true → fact r.task.m.tp r.task.m.offset ≡ true)
    → IsSettled fact (skip_or_stop skips w r p c).0
skip_or_stop-IsSettled fact true w r p c is ok true_if =
    pass-IsSettled fact unstorable w p r c is ok (true_if refl)
skip_or_stop-IsSettled fact false w r p c is ok true_if = is

complete_in-IsSettled :
    (fact : Fact) (w : Meanwhile) (r : Finished) (p : Partition) (c : Consumer)
    → IsSettled fact c
    → PartOk fact r.task.m.tp p
    → (passes c.cfg.skips r ≡ true → fact r.task.m.tp r.task.m.offset ≡ true)
    → IsSettled fact (complete_in w r p c).0
complete_in-IsSettled fact w r p c is ok true_if = elim (Bool-cases (is_unstorable r)) [
  | inl t ↦
      rw (t) (
        skip_or_stop-IsSettled fact c.cfg.skips w r p c is ok (λ s. true_if (ground (arith, t, s))))
  | inr n ↦ elim (Bool-cases (is_safe r.res)) [
    | inl s ↦
        rw (n, s)
          (pass-IsSettled fact (counter_of r.res) w p r c is ok (true_if (ground (arith, s))))
    | inr s ↦ rw (n, s) (fail_back-IsSettled fact w r c is)
  ]
]

complete_for-IsSettled :
    (fact : Fact) (w : Meanwhile) (r : Finished) (o : Option Partition) (c : Consumer)
    → get r.task.m.tp c.parts ≡ o
    → IsSettled fact c
    → (passes c.cfg.skips r ≡ true → fact r.task.m.tp r.task.m.offset ≡ true)
    → IsSettled fact (complete_for w r o c).0
complete_for-IsSettled fact w r none c e is true_if = is
complete_for-IsSettled fact w r (some p) c e is true_if =
    let p' = record p { inflight = p.inflight - 1 } in
    let c' = record c { parts = put r.task.m.tp p' c.parts } in
    let ok = get-PartsOk fact r.task.m.tp c.parts p is.0 e in
    elim (Bool-cases (p.gen == r.task.gen)) [
      | inl t ↦ rw (t) (
          complete_in-IsSettled fact w r p' c'
            (put-PartsOk fact r.task.m.tp p' c.parts is.0 ok, is.1, is.2, is.3) ok true_if)
      | inr n ↦ rw (n) is
    ]

-- If the message of a result that is safe or skipped is so in fact, then applying it keeps everything
-- committed safe.
pub complete-IsSettled :
    (fact : Fact) (w : Meanwhile) (r : Finished) (c : Consumer)
    → IsSettled fact c
    → (passes c.cfg.skips r ≡ true → fact r.task.m.tp r.task.m.offset ≡ true)
    → IsSettled fact (complete w r c).0
unfolding complete
complete-IsSettled fact w r c is true_if =
    complete_for-IsSettled fact w r (get r.task.m.tp c.parts)
      (record c { inflight = c.inflight - 1 }) refl is true_if
