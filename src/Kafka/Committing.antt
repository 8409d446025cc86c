-- ===== src/Kafka/Committing.antt =====
-- kafka/consumer.go: the commit point of a partition, and the commits.
pub mod Frontier
use Prim.Native.String.{String}
use go_guard_lib.Prelude.{
  ℕ, zero, suc, ◌+◌, ◌-◌, Bool, true, false, ◌&&◌, ◌||◌, not, if◌then◌else◌, ltb, leb, ◌==◌, Option,
  none, some, List, [], ◌∷◌, ◌++◌, length,
}
use go_guard_lib.Errors.{Err, plain, wrapped}
use go_guard_lib.Kafka.{
  TopicPartition, tp_eq, Partition, Consumer, add, commits, commit_errors, Outcome,
}
use go_guard_lib.Kafka.Maps.{get, put}

-- Sets of offsets.
abbrev pub has : ℕ → List ℕ → Bool
has n [] = false
has n (x ∷ xs) = (x == n) || has n xs

abbrev pub without : ℕ → List ℕ → List ℕ
without n [] = []
without n (x ∷ xs) = if x == n then without n xs else x ∷ without n xs

-- The loop of `markDone`: the frontier moves over the completed offsets that are now contiguous. Each
-- turn takes one of them, so there are no more turns than those.
unfoldable pub slide : ℕ → ℕ → List ℕ → ℕ × List ℕ
slide zero f done = (f, done)
slide (suc n) f done =
    let rest = slide n (f + 1) (without f done) in if has f done then rest else (f, done)

abbrev pub advance_to : ℕ × List ℕ → Partition → Partition
advance_to (f, done) p = record p { frontier = some f; completed = done }

-- The partition when the offset is marked.
abbrev pub mark : Option ℕ → ℕ → Partition → Partition
mark none offset p = record p { completed = offset ∷ p.completed }
mark (some f) offset p = advance_to (slide (suc (length p.completed)) f (offset ∷ p.completed)) p

abbrev pub has_moved : Option ℕ → Option ℕ → Bool
has_moved (some f) (some f') = ltb f f'
has_moved (some f) none = false
has_moved none _ = false

abbrev pub set_safe : TopicPartition → Option ℕ → Consumer → Consumer
set_safe tp none c = c
set_safe tp (some f) c = record c { safe = put tp f c.safe }

-- The partition is the one the consumer has for `tp`.
unfoldable pub mark_done : TopicPartition → ℕ → Partition → Consumer → Consumer
unfolding slide put
mark_done tp offset p c =
    let p' = mark p.frontier offset p in
    let c' = record c { since_commit = c.since_commit + 1 } in
    if has_moved p.frontier p'.frontier
    then set_safe tp p'.frontier (record c' { parts = put tp (record p' { failures = 0 }) c.parts })
    else record c' { parts = put tp p' c.parts }

abbrev pub Offsets : Type 0
Offsets = List (TopicPartition × ℕ)

abbrev pub exceeds : ℕ → Option ℕ → Bool
exceeds off none = true
exceeds off (some last) = ltb last off

abbrev pub is_wanted : Option (List TopicPartition) → TopicPartition → Bool
is_wanted none tp = true
is_wanted (some []) tp = false
is_wanted (some (x ∷ xs)) tp = tp_eq x tp || is_wanted (some xs) tp

-- The loop of `pending` over the safe offsets.
unfoldable pub pending_of : Option (List TopicPartition) → Offsets → Offsets → Offsets
unfolding get
pending_of only committed [] = []
pending_of only committed ((tp, off) ∷ safe) =
    let rest = pending_of only committed safe in
    if is_wanted only tp && exceeds off (get tp committed) then (tp, off) ∷ rest else rest

abbrev pub pending : Option (List TopicPartition) → Consumer → Offsets
pending only c = pending_of only c.committed c.safe

unfoldable pub put_all : Offsets → Offsets → Offsets
unfolding put
put_all [] m = m
put_all ((tp, off) ∷ offs) m = put_all offs (put tp off m)

-- The client's answer to the commit is given.
unfoldable pub commit_offsets : Option Err → Offsets → Consumer → Outcome
unfolding put_all
commit_offsets answer [] c = (c, none)
commit_offsets (some e) (o ∷ offs) c =
    (add commit_errors (record c { sent = o ∷ offs ++ c.sent }), some (wrapped 40 e))
commit_offsets none (o ∷ offs) c = (
  add commits (record c { sent = o ∷ offs ++ c.sent; committed = put_all (o ∷ offs) c.committed }),
  none,
)

abbrev pub committed_at : ℕ → Outcome → Outcome
committed_at now (c, some e) = (c, some e)
committed_at now (c, none) = (record c { since_commit = 0; last_commit = now }, none)

unfoldable pub commit : Option Err → ℕ → Consumer → Outcome
unfolding commit_offsets pending_of
commit answer now c = committed_at now (commit_offsets answer (pending none c) c)

-- `now` is the time when the interval is tested and when the commit is noted.
unfoldable pub maybe_commit : Option Err → Bool → ℕ → Consumer → Consumer
unfolding commit
maybe_commit answer force now c =
    if c.since_commit == 0
    then c
    else (if force
          || leb c.cfg.commit_batch c.since_commit
          || leb c.cfg.commit_interval (now - c.last_commit)
        then (commit answer now c).0
        else c)

unfoldable pub commit_partitions : Option Err → List TopicPartition → Consumer → Consumer
unfolding commit_offsets pending_of
commit_partitions answer parts c = (commit_offsets answer (pending (some parts) c) c).0

-- One try of `finalCommit`: the client's answer to the commit, the time, whether the deadline has then
-- passed, and the error of the poll that follows.
pub record Try : Type 0 where
  pub answer : Option Err
  pub now : ℕ
  pub is_late : Bool
  pub poll : Option Err

abbrev pub tried_again : Outcome → Try → Outcome → Outcome
tried_again (c, none) t rest = (c, none)
tried_again (c, some e) t rest =
    if t.is_late then (c, some e) else elim t.poll [ some x ↦ (c, some e) | none ↦ rest ]

-- The deadline has passed by the last try. The error of a poll is joined to the commit's. What a poll
-- gives is ignored; a rebalance that happens in it is not followed here.
unfoldable pub final_commit : Try → List Try → Consumer → Outcome
unfolding commit
final_commit t [] c = commit t.answer t.now c
final_commit t (t' ∷ ts) c =
    let tried = commit t.answer t.now c in
    let rest = final_commit t' ts tried.0 in tried_again tried t rest
