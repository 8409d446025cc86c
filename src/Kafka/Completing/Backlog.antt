-- ===== src/Kafka/Completing/Backlog.antt =====
-- kafka/consumer.go: applying a result adds nothing to the backlog.
use Prim.Native.String.{String}
use text.Mathlib.Text.{◌==◌ as str_eq}
use go_guard_lib.Prelude.{
  ℕ, ◌+◌, ◌-◌, ◌≤◌, ◌≡◌, refl, Bool, true, false, ◌&&◌, ◌||◌, not, ◌==◌, Option, none, some, List,
  [], ◌∷◌, length, arith, Bool-cases, Option-cases, inl, inr,
}
use go_guard_lib.Kafka.{
  TopicPartition, Partition, Task, Finished, Consumer, Counter, add, unstorable, Outcome,
}
use go_guard_lib.Kafka.Maps.{get, put}
use go_guard_lib.Kafka.Committing.{mark, mark_done, has_moved, set_safe}
use go_guard_lib.Kafka.Queueing.{
  key_of, queue_of, released, next_of, drop_queued, less_inflight, count_dropped, queues_left,
}
use go_guard_lib.Kafka.Completing.{
  Meanwhile, without_tp, rewind, rewind_drained, settle, then_settle, note_failure, note_in,
  cleared, pass, fail_back, is_unstorable, is_safe, counter_of, complete, skip_or_stop, complete_in,
  complete_for, has_failed, is_err, is_full_link, is_fatal_link,
}

-- How long the backlog is.
abbrev pub held : Consumer → ℕ
held c = length c.backlog

set_safe-held :
    (tp : TopicPartition) (f : Option ℕ) (c : Consumer) → held (set_safe tp f c) ≡ held c
set_safe-held tp none c = refl
set_safe-held tp (some f) c = refl

mark_done-held :
    (tp : TopicPartition) (o : ℕ) (p : Partition) (c : Consumer)
    → held (mark_done tp o p c) ≡ held c
unfolding mark_done
mark_done-held tp o p c =
    let p' = mark p.frontier o p in
    elim (Bool-cases (has_moved p.frontier p'.frontier)) [
      | inl t ↦ rw (t) (
          set_safe-held tp p'.frontier (record c {
            since_commit = c.since_commit + 1;
            parts = put tp (record p' { failures = 0 }) c.parts;
          }))
      | inr n ↦ rw (n) refl
    ]

next_of-held :
    (t : Task) (o : Option (List Task)) (c : Consumer) → held (next_of (key_of t) o c) ≡ held c
next_of-held t none c = refl
next_of-held t (some []) c = refl
next_of-held t (some (x ∷ q)) c = refl

released-held : (t : Task) (c : Consumer) → held (released t c) ≡ held c
unfolding released
released-held t c = elim (Bool-cases (str_eq t.input.order_key "" || not c.cfg.pooled)) [
  | inl e ↦ rw (e) refl
  | inr n ↦ rw (n) (next_of-held t (queue_of (key_of t) c.key_queues) c)
]

less_inflight-held :
    (tp : TopicPartition) (n : ℕ) (o : Option Partition) (c : Consumer)
    → held (less_inflight tp n o c) ≡ held c
less_inflight-held tp n none c = refl
less_inflight-held tp n (some p) c = refl

drop_queued-held :
    (tp : TopicPartition) (only : Option String) (c : Consumer)
    → held (drop_queued tp only c) ≡ held c
unfolding drop_queued
drop_queued-held tp only c =
    let n = count_dropped tp only c.key_queues in
    less_inflight-held tp n (get tp c.parts)
      (record c { inflight = c.inflight - n; key_queues = queues_left tp only c.key_queues })

length-without_tp : (tp : TopicPartition) (ts : List Task) → length (without_tp tp ts) ≤ length ts
length-without_tp tp [] = omega arith
length-without_tp tp (t ∷ ts) = ground (arith, length-without_tp tp ts)

rewind-held :
    (w : Meanwhile) (tp : TopicPartition) (p : Partition) (c : Consumer)
    → held (rewind w tp p c).0 ≤ held c
unfolding rewind
rewind-held w tp p c = elim (Option-cases w.seek) [
  | inl n ↦ rw (n) (length-without_tp tp c.backlog)
  | inr (e, n) ↦ rw (n) (length-without_tp tp c.backlog)
]

rewind_drained-held :
    (w : Meanwhile) (tp : TopicPartition) (o : Option Partition) (c : Consumer)
    → held (rewind_drained w tp o c).0 ≤ held c
rewind_drained-held w tp none c = omega arith
rewind_drained-held w tp (some p) c =
    elim (Bool-cases (has_failed p.failed_at && (p.inflight == 0) && not c.stopping)) [
      | inl t ↦ rw (t) (rewind-held w tp p c)
      | inr n ↦ rw (n) (omega arith)
    ]

settle-held : (w : Meanwhile) (tp : TopicPartition) (c : Consumer) → held (settle w tp c).0 ≤ held c
unfolding settle
settle-held w tp c = rewind_drained-held w tp (get tp c.parts) c

then_settle-held :
    (w : Meanwhile) (tp : TopicPartition) (r : Outcome) → held (then_settle w tp r).0 ≤ held r.0
then_settle-held w tp (c, some e) = omega arith
then_settle-held w tp (c, none) = settle-held w tp c

note_failure-held :
    (w : Meanwhile) (p : Partition) (r : Finished) (c : Consumer)
    → held (note_failure w p r c).0 ≡ held c
unfolding note_failure
note_failure-held w p r c = elim (Bool-cases (is_err is_fatal_link r.err)) [
  | inl t ↦ rw (t) refl
  | inr n ↦ elim (Bool-cases (w.ended || c.stopping)) [
    | inl t ↦ rw (n, t) refl
    | inr n' ↦ elim (Bool-cases (is_err is_full_link r.err)) [
      | inl t ↦ rw (n, n', t) refl
      | inr f ↦ rw (n, n', f) refl
    ]
  ]
]

note_in-held :
    (w : Meanwhile) (r : Finished) (o : Option Partition) (c : Consumer)
    → held (note_in w r o c).0 ≡ held c
note_in-held w r none c = refl
note_in-held w r (some p) c = note_failure-held w p r c

cleared-held : (r : Finished) (c : Consumer) → held (cleared r c) ≡ held c
cleared-held r c = elim (Bool-cases (str_eq r.task.input.order_key "")) [
  | inl t ↦ rw (t) refl
  | inr n ↦ rw (n) (drop_queued-held r.task.m.tp (some r.task.input.order_key) c)
]

fail_back-held : (w : Meanwhile) (r : Finished) (c : Consumer) → held (fail_back w r c).0 ≤ held c
unfolding fail_back
fail_back-held w r c =
    let tp = r.task.m.tp in
    let c' = cleared r c in
    let noted = note_in w r (get tp c'.parts) c' in
    omega
      (arith, then_settle-held w tp noted, note_in-held w r (get tp c'.parts) c', cleared-held r c)

pass-held :
    (k : Counter) (w : Meanwhile) (p : Partition) (r : Finished) (c : Consumer)
    → held (pass k w p r c).0 ≤ held c
unfolding pass
pass-held k w p r c =
    let tp = r.task.m.tp in
    let marked = mark_done tp r.task.m.offset p (add k c) in
    omega (
      arith,
      settle-held w tp (released r.task marked),
      released-held r.task marked,
      mark_done-held tp r.task.m.offset p (add k c),
    )

skip_or_stop-held :
    (skips : Bool) (w : Meanwhile) (r : Finished) (p : Partition) (c : Consumer)
    → held (skip_or_stop skips w r p c).0 ≤ held c
skip_or_stop-held true w r p c = pass-held unstorable w p r c
skip_or_stop-held false w r p c = omega arith

complete_in-held :
    (w : Meanwhile) (r : Finished) (p : Partition) (c : Consumer)
    → held (complete_in w r p c).0 ≤ held c
complete_in-held w r p c = elim (Bool-cases (is_unstorable r)) [
  | inl t ↦ rw (t) (skip_or_stop-held c.cfg.skips w r p c)
  | inr n ↦ elim (Bool-cases (is_safe r.res)) [
    | inl t ↦ rw (n, t) (pass-held (counter_of r.res) w p r c)
    | inr f ↦ rw (n, f) (fail_back-held w r c)
  ]
]

complete_for-held :
    (w : Meanwhile) (r : Finished) (o : Option Partition) (c : Consumer)
    → held (complete_for w r o c).0 ≤ held c
complete_for-held w r none c = omega arith
complete_for-held w r (some p) c =
    let p' = record p { inflight = p.inflight - 1 } in
    elim (Bool-cases (p.gen == r.task.gen)) [
      | inl t ↦ rw (t) (complete_in-held w r p' (record c { parts = put r.task.m.tp p' c.parts }))
      | inr n ↦ rw (n) (omega arith)
    ]

pub complete-held : (w : Meanwhile) (r : Finished) (c : Consumer) → held (complete w r c).0 ≤ held c
unfolding complete
complete-held w r c =
    complete_for-held w r (get r.task.m.tp c.parts) (record c { inflight = c.inflight - 1 })
