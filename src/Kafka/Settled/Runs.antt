-- ===== src/Kafka/Settled/Runs.antt =====
-- kafka/consumer.go: what a consumer does, one call at a time, and that it commits no offset past a
-- message that is not safe.
use Prim.Native.String.{String}
use text.Mathlib.Text.{◌==◌ as str_eq}
use go_guard_lib.Prelude.{
  ◌/◌, ℕ, ◌+◌, ◌<◌, ◌≡◌, Bool, true, false, ◌&&◌, not, leb, Option, none, List, [], ◌∷◌, length,
  arith, Bool-cases, inl, inr,
}
use go_guard_lib.Errors.{Err}
use go_guard_lib.Kafka.{TopicPartition, Partition, Consumer, add, rebalances}
use go_guard_lib.Kafka.Maps.{put, del}
use go_guard_lib.Kafka.Committing.{commit_partitions}
use go_guard_lib.Kafka.Queueing.{drop_queued}
use go_guard_lib.Kafka.Rebalancing.{
  new_partition, assign_all, on_assigned, revoke_all, on_revoked, update_throttle, reconcile,
  reconcile_all, reconciled_part, set_paused, reason_of,
}
use go_guard_lib.Kafka.Calls.{
  Options, initial, Call, accepting, dispatching, applying, committing, finishing, stopping,
  assigning, revoking, throttling, reconciling, Calls, none_made, and_then,
}
use go_guard_lib.Kafka.Settled.{
  Fact, PartOk, PartsOk, IsSettled, put-PartsOk, del-PartsOk, del-OffsetsOk, is_among,
  is_among-OffsetsOk,
}
use go_guard_lib.Kafka.Settled.Committing.{
  maybe_commit-IsSettled, final_commit-IsSettled, commit_partitions-IsSettled,
}
use go_guard_lib.Kafka.Settled.Completing.{passes, complete-IsSettled, drop_queued-IsSettled}
use go_guard_lib.Kafka.Settled.Accepting.{
  Begins, accept-IsSettled, outcome_of, dispatch_one-IsSettled,
}

assign_all-IsSettled :
    (fact : Fact) (tps : List TopicPartition) (c : Consumer)
    → IsSettled fact c
    → IsSettled fact (assign_all tps c)
unfolding assign_all
assign_all-IsSettled fact [] c is = is
assign_all-IsSettled fact (tp ∷ tps) c is =
    let p = new_partition (c.gen + 1) in
    let ok : PartOk fact tp p = (λ o e. ground (arith, e), λ o e. ground (arith, e)) in
    assign_all-IsSettled fact tps
      (record c { gen = c.gen + 1; parts = put tp p c.parts; committed = del tp c.committed })
      (put-PartsOk fact tp p c.parts is.0 ok, is.1, del-OffsetsOk fact tp c.committed is.2, is.3)

revoke_all-IsSettled :
    (fact : Fact) (tps : List TopicPartition) (c : Consumer)
    → IsSettled fact c
    → IsSettled fact (revoke_all tps c)
unfolding revoke_all
revoke_all-IsSettled fact [] c is = is
revoke_all-IsSettled fact (tp ∷ tps) c is =
    let c' = record c {
      parts = del tp c.parts;
      safe = del tp c.safe;
      committed = del tp c.committed;
    } in
    let ok = del-PartsOk fact tp c.parts is.0 in
    revoke_all-IsSettled fact tps (drop_queued tp none c') (
      drop_queued-IsSettled fact tp none c'
        (ok, del-OffsetsOk fact tp c.safe is.1, del-OffsetsOk fact tp c.committed is.2, is.3))

on_revoked-IsSettled :
    (fact : Fact) (answer : Option Err) (tps : List TopicPartition) (c : Consumer)
    → IsSettled fact c
    → IsSettled fact (on_revoked answer tps c)
unfolding on_revoked
on_revoked-IsSettled fact answer tps c is =
    revoke_all-IsSettled fact tps (commit_partitions answer tps c)
      (commit_partitions-IsSettled fact answer tps c is)

update_throttle-IsSettled :
    (fact : Fact) (c : Consumer) → IsSettled fact c → IsSettled fact (update_throttle c)
unfolding update_throttle
update_throttle-IsSettled fact c is =
    let held = c.inflight + length c.backlog in
    elim (Bool-cases (leb c.cfg.max_in_flight held)) [
      | inl t ↦ rw (t) is
      | inr n ↦ elim (Bool-cases (leb held (c.cfg.max_in_flight / 2))) [
        | inl t ↦ rw (n, t) is
        | inr f ↦ rw (n, f) is
      ]
    ]

set_paused-PartOk :
    (fact : Fact) (tp : TopicPartition) (b : Bool) (reason : String) (p : Partition)
    → PartOk fact tp p
    → PartOk fact tp (set_paused b reason p)
set_paused-PartOk fact tp true reason p ok = ok
set_paused-PartOk fact tp false reason p ok = ok

reconciled_part-PartOk :
    (fact : Fact) (tp : TopicPartition) (paused resumed : Bool) (reason : String) (p : Partition)
    → PartOk fact tp p
    → PartOk fact tp (reconciled_part paused resumed reason p)
reconciled_part-PartOk fact tp paused resumed reason p ok =
    let want = not (str_eq reason "") in
    elim (Bool-cases (want && not p.paused)) [
      | inl t ↦
          rw (t) (set_paused-PartOk fact tp paused reason (record p { pause_reason = reason }) ok)
      | inr n ↦ elim (Bool-cases (not want && p.paused && resumed)) [
        | inl t ↦ rw (n, t) ok
        | inr f ↦ rw (n, f) ok
      ]
    ]

reconcile_all-PartsOk :
    (refusing : String → Bool) (now : ℕ) (throttled paused resumed : Bool)
    (m : List (TopicPartition × Partition)) (fact : Fact)
    → PartsOk fact m
    → PartsOk fact (reconcile_all refusing now throttled paused resumed m)
unfolding reconcile_all
reconcile_all-PartsOk refusing now throttled paused resumed [] fact ok = tt
reconcile_all-PartsOk refusing now throttled paused resumed ((tp, p) ∷ m) fact ok = (
  reconciled_part-PartOk fact tp paused resumed (reason_of refusing now throttled tp p) p ok.0,
  reconcile_all-PartsOk refusing now throttled paused resumed m fact ok.1,
)

-- What a call relies on: the client begins an assignment where everything before is safe, and a
-- message that passes is safe, or is skipped.
abbrev pub Relies : Fact → {c d : Consumer} → Call c d → Type 0
Relies fact (accepting ts seek m c) = Begins fact m c
Relies fact (dispatching w t rest c e) =
    passes c.cfg.skips (outcome_of w t) ≡ true → fact t.m.tp t.m.offset ≡ true
Relies fact (applying w r c) = passes c.cfg.skips r ≡ true → fact r.task.m.tp r.task.m.offset ≡ true
Relies fact (committing answer force now c) = Unit
Relies fact (finishing t ts c) = Unit
Relies fact (stopping c) = Unit
Relies fact (assigning tps c) = Unit
Relies fact (revoking answer tps c) = Unit
Relies fact (throttling c) = Unit
Relies fact (reconciling refusing now paused resumed c) = Unit

call-IsSettled :
    (fact : Fact) {c d : Consumer} (call : Call c d)
    → Relies fact call
    → IsSettled fact c
    → IsSettled fact d
unfolding on_assigned reconcile
call-IsSettled fact (accepting ts seek m c) rel is = accept-IsSettled fact ts seek m c is rel
call-IsSettled fact (dispatching w t rest c e) rel is =
    dispatch_one-IsSettled fact w t (record c { backlog = rest }) is rel
call-IsSettled fact (applying w r c) rel is = complete-IsSettled fact w r c is rel
call-IsSettled fact (committing answer force now c) rel is =
    maybe_commit-IsSettled fact answer force now c is
call-IsSettled fact (finishing t ts c) rel is = final_commit-IsSettled fact t ts c is
call-IsSettled fact (stopping c) rel is = is
call-IsSettled fact (assigning tps c) rel is = assign_all-IsSettled fact tps (add rebalances c) is
call-IsSettled fact (revoking answer tps c) rel is = on_revoked-IsSettled fact answer tps c is
call-IsSettled fact (throttling c) rel is = update_throttle-IsSettled fact c is
call-IsSettled fact (reconciling refusing now paused resumed c) rel is = (
  reconcile_all-PartsOk refusing now c.throttled paused resumed c.parts fact is.0,
  is.1,
  is.2,
  is.3,
)

abbrev pub AllRely : Fact → {c d : Consumer} → Calls c d → Type 0
AllRely fact (none_made c) = Unit
AllRely fact (and_then calls call) = AllRely fact calls × Relies fact call

calls-IsSettled :
    (fact : Fact) {c d : Consumer} (calls : Calls c d)
    → AllRely fact calls
    → IsSettled fact c
    → IsSettled fact d
calls-IsSettled fact (none_made c) rely is = is
calls-IsSettled fact (and_then calls call) rely is =
    call-IsSettled fact call rely.1 (calls-IsSettled fact calls rely.0 is)

-- Whatever the order of the calls and of the results, and whatever the client answers: where each
-- message that passes is safe or skipped, and each assignment begins where everything before is so, no
-- offset that the client was ever given to commit, by the commits of a revocation and of the end too,
-- is past a message that is neither.
pub committed-safe :
    (fact : Fact) (o : Options) (c : Consumer) (calls : Calls (initial o) c) (tp : TopicPartition)
    (f offset : ℕ)
    → AllRely fact calls
    → is_among tp f c.sent ≡ true
    → offset < f
    → fact tp offset ≡ true
unfolding initial
committed-safe fact o c calls tp f offset rely at below =
    let is = calls-IsSettled fact calls rely (tt, tt, tt, tt) in
    is_among-OffsetsOk fact tp f c.sent is.3 at offset below
