-- ===== src/Kafka/Completing.antt =====
-- kafka/consumer.go: what becomes of a message when its result is applied.
pub mod Backlog
use text.Mathlib.Text.{◌==◌ as str_eq}
use go_guard_lib.Prelude.{
  ℕ, ◌+◌, ◌-◌, Bool, true, false, ◌&&◌, ◌||◌, not, if◌then◌else◌, ltb, ◌==◌, Option, none, some,
  List, [], ◌∷◌,
}
use go_guard_lib.Errors.{
  Err, plain, wrapped, any_link, store_err, invalid_record, full, closed, store_failed, corrupt,
}
use go_guard_lib.Pipeline.Execute.{Result, failed, done, deferred, parked}
use go_guard_lib.Kafka.{
  TopicPartition, tp_eq, Partition, Task, Finished, Consumer, Counter, add, done_count,
  deferred_count, parked_count, retried, backpressure, unstorable, Outcome,
}
use go_guard_lib.Kafka.Maps.{get, put}
use go_guard_lib.Kafka.Committing.{mark_done}
use go_guard_lib.Kafka.Queueing.{key_of, released, drop_queued, drop_queue}

abbrev is_invalid_link : Err → Bool
is_invalid_link (store_err invalid_record) = true
is_invalid_link _ = false

abbrev pub is_full_link : Err → Bool
is_full_link (store_err full) = true
is_full_link _ = false

abbrev pub is_fatal_link : Err → Bool
is_fatal_link (store_err store_failed) = true
is_fatal_link (store_err closed) = true
is_fatal_link (store_err corrupt) = true
is_fatal_link _ = false

-- `errors.Is` of the result's error and one of the store's errors.
abbrev pub is_err : (Err → Bool) → Option Err → Bool
is_err p none = false
is_err p (some e) = any_link p e

-- The error itself, where there is one.
abbrev pub cause : Option Err → Err
cause none = plain 104
cause (some e) = e

abbrev pub is_invalid : Option Err → Bool
is_invalid e = is_err is_invalid_link e

-- The message is done, or durable in the store.
abbrev pub is_safe : Result → Bool
is_safe done = true
is_safe deferred = true
is_safe parked = true
is_safe failed = false

abbrev pub without_tp : TopicPartition → List Task → List Task
without_tp tp [] = []
without_tp tp (t ∷ ts) = if tp_eq t.m.tp tp then without_tp tp ts else t ∷ without_tp tp ts

-- What the world gives while a result is applied: the client's answer to a seek, the clock, and whether
-- the context has ended.
pub record Meanwhile : Type 0 where
  pub seek : Option Err
  pub now : ℕ
  pub ended : Bool

-- `rewind`: back to the first unfinished message.
unfoldable pub rewind : Meanwhile → TopicPartition → Partition → Consumer → Outcome
unfolding put tp_eq
rewind w tp p c =
    let c' = record c { backlog = without_tp tp c.backlog } in
    let p' = record p {
      next = p.frontier;
      failed_at = none;
      failures = p.failures + 1;
      retry_at = w.now + c.cfg.backoff (p.failures + 1);
    } in
    elim w.seek [
      | some e ↦ (c', some (wrapped 41 e))
      | none ↦ (record c' { parts = put tp p' c'.parts }, none)
    ]

abbrev pub has_failed : Option ℕ → Bool
has_failed none = false
has_failed (some o) = true

abbrev pub rewind_drained : Meanwhile → TopicPartition → Option Partition → Consumer → Outcome
rewind_drained w tp none c = (c, none)
rewind_drained w tp (some p) c =
    if has_failed p.failed_at && (p.inflight == 0) && not c.stopping
    then rewind w tp p c
    else (c, none)

-- The test at the end of `complete`.
unfoldable pub settle : Meanwhile → TopicPartition → Consumer → Outcome
unfolding get rewind
settle w tp c = rewind_drained w tp (get tp c.parts) c

abbrev pub lowest : Option ℕ → ℕ → Option ℕ
lowest none o = some o
lowest (some f) o = if ltb o f then some o else some f

-- `noteFailure` of the partition's result. The store's failing for good ends the run.
unfoldable pub note_failure : Meanwhile → Partition → Finished → Consumer → Outcome
unfolding any_link put
note_failure w p r c =
    let c' = if is_err is_full_link r.err then add backpressure c else c in
    let p' = record p { failed_at = lowest p.failed_at r.task.m.offset } in
    if is_err is_fatal_link r.err
    then (c, some (wrapped 42 (cause r.err)))
    else (if w.ended || c.stopping
        then (c, none)
        else (add retried (record c' { parts = put r.task.m.tp p' c.parts }), none))

abbrev pub counter_of : Result → Counter
counter_of done = done_count
counter_of deferred = deferred_count
counter_of parked = parked_count
counter_of failed = parked_count

abbrev pub then_settle : Meanwhile → TopicPartition → Outcome → Outcome
then_settle w tp (c, some e) = (c, some e)
then_settle w tp (c, none) = settle w tp c

-- The message is safe, or it is skipped: its offset is marked.
unfoldable pub pass : Counter → Meanwhile → Partition → Finished → Consumer → Outcome
unfolding mark_done released settle
pass k w p r c =
    let tp = r.task.m.tp in settle w tp (released r.task (mark_done tp r.task.m.offset p (add k c)))

abbrev pub note_in : Meanwhile → Finished → Option Partition → Consumer → Outcome
note_in w r none c = (c, none)
note_in w r (some p) c = note_failure w p r c

-- Later messages with the key never start.
abbrev pub cleared : Finished → Consumer → Consumer
cleared r c =
    let c' = drop_queued r.task.m.tp (some r.task.input.order_key) c in
    if str_eq r.task.input.order_key ""
    then c
    else record c' { key_queues = drop_queue (key_of r.task) c'.key_queues }

-- The message is neither done nor stored.
unfoldable pub fail_back : Meanwhile → Finished → Consumer → Outcome
unfolding drop_queued drop_queue note_failure settle get
fail_back w r c =
    let tp = r.task.m.tp in
    let c' = cleared r c in then_settle w tp (note_in w r (get tp c'.parts) c')

abbrev pub is_unstorable : Finished → Bool
is_unstorable r = not (is_safe r.res) && is_invalid r.err

-- The store will never accept the message: it is skipped, or the run ends.
abbrev pub skip_or_stop : Bool → Meanwhile → Finished → Partition → Consumer → Outcome
skip_or_stop true w r p c = pass unstorable w p r c
skip_or_stop false w r p c = (c, some (wrapped 43 (cause r.err)))

-- The partition, with one running message less, has the result's generation.
abbrev pub complete_in : Meanwhile → Finished → Partition → Consumer → Outcome
complete_in w r p c =
    if is_unstorable r
    then skip_or_stop c.cfg.skips w r p c
    else (if is_safe r.res then pass (counter_of r.res) w p r c else fail_back w r c)

abbrev pub complete_for : Meanwhile → Finished → Option Partition → Consumer → Outcome
complete_for w r none c = (c, none)
complete_for w r (some p) c =
    let p' = record p { inflight = p.inflight - 1 } in
    if p.gen == r.task.gen
    then complete_in w r p' (record c { parts = put r.task.m.tp p' c.parts })
    else (c, none)

unfoldable pub complete : Meanwhile → Finished → Consumer → Outcome
unfolding get put pass fail_back any_link
complete w r c = complete_for w r (get r.task.m.tp c.parts) (record c { inflight = c.inflight - 1 })
