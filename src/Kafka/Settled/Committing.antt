-- ===== src/Kafka/Settled/Committing.antt =====
-- kafka/consumer.go: marking an offset that is safe, and committing, keep every committed offset safe.
use go_guard_lib.Prelude.{
  ℕ, suc, ◌+◌, ◌-◌, ◌≡◌, refl, sym, subst, Bool, true, ◌&&◌, ltb, leb, Option, none, some, List, [],
  ◌∷◌, length, arith, Bool-cases, Option-cases, inl, inr, ◌||◌, ◌==◌,
}
use go_guard_lib.Errors.{Err}
use go_guard_lib.Kafka.{TopicPartition, Partition, Consumer, Outcome}
use go_guard_lib.Kafka.Maps.{get, put}
use go_guard_lib.Kafka.Committing.{
  has, mark, mark_done, has_moved, set_safe, is_wanted, exceeds, committed_at, pending_of, pending,
  put_all, commit_offsets, commit, maybe_commit, commit_partitions,
}
use go_guard_lib.Kafka.Committing.Frontier.{slide-takes}
use go_guard_lib.Kafka.Committing.{Try, tried_again, final_commit}
use go_guard_lib.Kafka.Settled.{
  Fact, is_before, PartOk, OffsetsOk, IsSettled, put-PartsOk, put-OffsetsOk, append-OffsetsOk,
}

fact-cons :
    (fact : Fact) (tp : TopicPartition) (offset o : ℕ) (xs : List ℕ)
    → fact tp offset ≡ true
    → ((x : ℕ) → has x xs ≡ true → fact tp x ≡ true)
    → has o (offset ∷ xs) ≡ true
    → fact tp o ≡ true
fact-cons fact tp offset o xs new ok e = elim (Bool-cases (offset == o)) [
  | inl t ↦ let same : offset ≡ o = ground (arith, t) in subst (λ x. fact tp x ≡ true) same new
  | inr n ↦ ok o (ground (arith, n, e))
]

mark-PartOk :
    (fact : Fact) (tp : TopicPartition) (p : Partition) (offset : ℕ)
    → PartOk fact tp p
    → fact tp offset ≡ true
    → (fr : Option ℕ) → p.frontier ≡ fr
    → PartOk fact tp (mark fr offset p)
mark-PartOk fact tp p offset ok new none at =
    (ok.0, λ o e. fact-cons fact tp offset o p.completed new ok.1 e)
mark-PartOk fact tp p offset ok new (some f) at =
    let n = suc (length p.completed) in
    let done : List ℕ = offset ∷ p.completed in
    let was : (o : ℕ) → has o done ≡ true → fact tp o ≡ true =
      λ o e. fact-cons fact tp offset o p.completed new ok.1 e in
    let below : (o : ℕ) → ltb o f ≡ true → fact tp o ≡ true =
      λ o e. ok.0 o (subst (λ x. is_before o x ≡ true) (sym at) e) in
    (
      λ o e. elim (Bool-cases (ltb o f)) [
        | inl t ↦ below o t
        | inr t ↦ was o (ground (arith, t, e, slide-takes n f done o))
      ],
      λ o e. was o (ground (arith, e, slide-takes n f done o)),
    )

set_safe-IsSettled :
    (fact : Fact) (tp : TopicPartition) (fr : Option ℕ) (c : Consumer)
    → IsSettled fact c
    → ((o : ℕ) → is_before o fr ≡ true → fact tp o ≡ true)
    → IsSettled fact (set_safe tp fr c)
set_safe-IsSettled fact tp none c is ok = is
set_safe-IsSettled fact tp (some f) c is ok =
    (is.0, put-OffsetsOk fact tp f c.safe is.1 (λ o e. ok o (ground (arith, e))), is.2, is.3)

-- Marking an offset that is safe keeps everything that is committed safe.
pub mark_done-IsSettled :
    (fact : Fact) (tp : TopicPartition) (offset : ℕ) (p : Partition) (c : Consumer)
    → IsSettled fact c
    → PartOk fact tp p
    → fact tp offset ≡ true
    → IsSettled fact (mark_done tp offset p c)
unfolding mark_done
mark_done-IsSettled fact tp offset p c is ok new =
    let p' = mark p.frontier offset p in
    let ok' : PartOk fact tp p' = mark-PartOk fact tp p offset ok new p.frontier refl in
    elim (Bool-cases (has_moved p.frontier p'.frontier)) [
      | inl t ↦ rw (t) (
          set_safe-IsSettled fact tp p'.frontier
            (record c {
              since_commit = c.since_commit + 1;
              parts = put tp (record p' { failures = 0 }) c.parts;
            })
            (put-PartsOk fact tp (record p' { failures = 0 }) c.parts is.0 ok', is.1, is.2, is.3)
            ok'.0)
      | inr n ↦ rw (n) (put-PartsOk fact tp p' c.parts is.0 ok', is.1, is.2, is.3)
    ]

put_all-OffsetsOk :
    (fact : Fact) (offs m : List (TopicPartition × ℕ))
    → OffsetsOk fact offs
    → OffsetsOk fact m
    → OffsetsOk fact (put_all offs m)
unfolding put_all
put_all-OffsetsOk fact [] m all ok = ok
put_all-OffsetsOk fact ((tp, f) ∷ offs) m all ok =
    put_all-OffsetsOk fact offs (put tp f m) all.1 (put-OffsetsOk fact tp f m ok all.0)

pending_of-OffsetsOk :
    (fact : Fact) (only : Option (List TopicPartition)) (committed safe : List (TopicPartition × ℕ))
    → OffsetsOk fact safe
    → OffsetsOk fact (pending_of only committed safe)
unfolding pending_of
pending_of-OffsetsOk fact only committed [] ok = tt
pending_of-OffsetsOk fact only committed ((tp, f) ∷ safe) ok =
    elim (Bool-cases (is_wanted only tp && exceeds f (get tp committed))) [
      | inl t ↦ rw (t) (ok.0, pending_of-OffsetsOk fact only committed safe ok.1)
      | inr n ↦ rw (n) (pending_of-OffsetsOk fact only committed safe ok.1)
    ]

commit_offsets-IsSettled :
    (fact : Fact) (answer : Option Err) (offs : List (TopicPartition × ℕ)) (c : Consumer)
    → IsSettled fact c
    → OffsetsOk fact offs
    → IsSettled fact (commit_offsets answer offs c).0
unfolding commit_offsets
commit_offsets-IsSettled fact answer [] c is ok = is
commit_offsets-IsSettled fact (some e) (o ∷ offs) c is ok =
    (is.0, is.1, is.2, append-OffsetsOk fact (o ∷ offs) c.sent ok is.3)
commit_offsets-IsSettled fact none (o ∷ offs) c is ok = (
  is.0,
  is.1,
  put_all-OffsetsOk fact (o ∷ offs) c.committed ok is.2,
  append-OffsetsOk fact (o ∷ offs) c.sent ok is.3,
)

pub commit_partitions-IsSettled :
    (fact : Fact) (answer : Option Err) (tps : List TopicPartition) (c : Consumer)
    → IsSettled fact c
    → IsSettled fact (commit_partitions answer tps c)
unfolding commit_partitions
commit_partitions-IsSettled fact answer tps c is =
    let only : Option (List TopicPartition) = some tps in
    commit_offsets-IsSettled fact answer (pending only c) c is
      (pending_of-OffsetsOk fact only c.committed c.safe is.1)

committed_at-IsSettled :
    (fact : Fact) (now : ℕ) (r : Outcome)
    → IsSettled fact r.0
    → IsSettled fact (committed_at now r).0
committed_at-IsSettled fact now (c, some e) is = is
committed_at-IsSettled fact now (c, none) is = is

pub commit-IsSettled :
    (fact : Fact) (answer : Option Err) (now : ℕ) (c : Consumer)
    → IsSettled fact c
    → IsSettled fact (commit answer now c).0
unfolding commit
commit-IsSettled fact answer now c is =
    committed_at-IsSettled fact now (commit_offsets answer (pending none c) c) (
      commit_offsets-IsSettled fact answer (pending none c) c is
        (pending_of-OffsetsOk fact none c.committed c.safe is.1))

pub maybe_commit-IsSettled :
    (fact : Fact) (answer : Option Err) (force : Bool) (now : ℕ) (c : Consumer)
    → IsSettled fact c
    → IsSettled fact (maybe_commit answer force now c)
unfolding maybe_commit
maybe_commit-IsSettled fact answer force now c is = elim (Bool-cases (c.since_commit == 0)) [
  | inl t ↦ rw (t) is
  | inr n ↦
      elim (Bool-cases (
        force
        || leb c.cfg.commit_batch c.since_commit
        || leb c.cfg.commit_interval (now - c.last_commit))) [
          | inl t ↦ rw (n, t) (commit-IsSettled fact answer now c is)
          | inr n' ↦ rw (n, n') is
        ]
]

tried_again-IsSettled :
    (fact : Fact) (tried : Outcome) (t : Try) (rest : Outcome)
    → IsSettled fact tried.0
    → IsSettled fact rest.0
    → IsSettled fact (tried_again tried t rest).0
tried_again-IsSettled fact (c, none) t rest is more = is
tried_again-IsSettled fact (c, some e) t rest is more = elim (Bool-cases t.is_late) [
  | inl late ↦ rw (late) is
  | inr early ↦ elim (Option-cases t.poll) [
    | inl n ↦ rw (early, n) more
    | inr (x, n) ↦ rw (early, n) is
  ]
]

pub final_commit-IsSettled :
    (fact : Fact) (t : Try) (ts : List Try) (c : Consumer)
    → IsSettled fact c
    → IsSettled fact (final_commit t ts c).0
unfolding final_commit
final_commit-IsSettled fact t [] c is = commit-IsSettled fact t.answer t.now c is
final_commit-IsSettled fact t (t' ∷ ts) c is =
    let tried = commit t.answer t.now c in
    let is' = commit-IsSettled fact t.answer t.now c is in
    tried_again-IsSettled fact tried t (final_commit t' ts tried.0) is'
      (final_commit-IsSettled fact t' ts tried.0 is')
