-- ===== src/Kafka/Settled.antt =====
-- kafka/consumer.go: that no offset is committed past a message that is not safe. `fact` says of each
-- offset of a partition whether its message is done, durable in the store, or skipped on purpose.
pub mod Committing
pub mod Completing
pub mod Accepting
pub mod Runs
use go_guard_lib.Prelude.{
  ℕ, suc, ◌+◌, ◌-◌, ◌<◌, ◌≡◌, refl, sym, ap, ◌∙◌, subst, Bool, true, false, ◌&&◌, not, ltb, leb,
  Option, none, some, List, [], ◌∷◌, ◌++◌, length, arith, Bool-cases, Option-cases, inl, inr,
  if◌then◌else◌, ◌||◌, ◌==◌,
}
use go_guard_lib.Errors.{Err}
use go_guard_lib.Kafka.{TopicPartition, tp_eq, Partition, Consumer, Outcome}
use go_guard_lib.Kafka.Maps.{get, put, del, get-put, get-del, tp_eq-path}
use go_guard_lib.Kafka.Committing.{
  has, slide, mark, mark_done, has_moved, set_safe, is_wanted, exceeds, committed_at, pending_of,
  pending, put_all, commit_offsets, commit, maybe_commit, commit_partitions,
}
use go_guard_lib.Kafka.Committing.Frontier.{slide-takes}

abbrev pub Fact : Type 0
Fact = TopicPartition → ℕ → Bool

abbrev pub is_before : ℕ → Option ℕ → Bool
is_before o none = false
is_before o (some f) = ltb o f

abbrev pub PartOk : Fact → TopicPartition → Partition → Type 0
PartOk fact tp p =
    ((o : ℕ) → is_before o p.frontier ≡ true → fact tp o ≡ true)
    × ((o : ℕ) → has o p.completed ≡ true → fact tp o ≡ true)

abbrev pub PartsOk : Fact → List (TopicPartition × Partition) → Type 0
PartsOk fact [] = Unit
PartsOk fact ((tp, p) ∷ m) = PartOk fact tp p × PartsOk fact m

abbrev pub OffsetsOk : Fact → List (TopicPartition × ℕ) → Type 0
OffsetsOk fact [] = Unit
OffsetsOk fact ((tp, f) ∷ m) = ((o : ℕ) → o < f → fact tp o ≡ true) × OffsetsOk fact m

-- Everything below a frontier, an offset to commit, a committed offset or one that the client was ever
-- given to commit is safe.
abbrev pub IsSettled : Fact → Consumer → Type 0
IsSettled fact c =
    PartsOk fact c.parts
    × OffsetsOk fact c.safe
    × OffsetsOk fact c.committed
    × OffsetsOk fact c.sent

some-path : {A : Type 0} (x y : A) → some x ≡ some y → x ≡ y
some-path x y e = ap (λ o. elim o [ none ↦ x | some z ↦ z ]) e

pub put-PartsOk :
    (fact : Fact) (k : TopicPartition) (p : Partition) (m : List (TopicPartition × Partition))
    → PartsOk fact m
    → PartOk fact k p
    → PartsOk fact (put k p m)
unfolding put
put-PartsOk fact k p [] ok new = (new, tt)
put-PartsOk fact k p ((tp, q) ∷ m) ok new = elim (Bool-cases (tp_eq tp k)) [
  | inl t ↦ rw (t) (new, ok.1)
  | inr n ↦ rw (n) (ok.0, put-PartsOk fact k p m ok.1 new)
]

pub del-PartsOk :
    (fact : Fact) (k : TopicPartition) (m : List (TopicPartition × Partition))
    → PartsOk fact m
    → PartsOk fact (del k m)
unfolding del
del-PartsOk fact k [] ok = tt
del-PartsOk fact k ((tp, q) ∷ m) ok = elim (Bool-cases (tp_eq tp k)) [
  | inl t ↦ rw (t) (del-PartsOk fact k m ok.1)
  | inr n ↦ rw (n) (ok.0, del-PartsOk fact k m ok.1)
]

-- A partition that is looked up is one of them.
pub get-PartsOk :
    (fact : Fact) (k : TopicPartition) (m : List (TopicPartition × Partition)) (p : Partition)
    → PartsOk fact m
    → get k m ≡ some p
    → PartOk fact k p
unfolding get
get-PartsOk fact k [] p ok e = ground (arith, e)
get-PartsOk fact k ((tp, q) ∷ m) p ok e = elim (Bool-cases (tp_eq tp k)) [
  | inl t ↦
      let at : some q ≡ some p = sym (rw (t) refl) ∙ e in
      subst (λ x. PartOk fact x p) (tp_eq-path tp k t)
        (subst (PartOk fact tp) (some-path q p at) ok.0)
  | inr n ↦ get-PartsOk fact k m p ok.1 (sym (rw (n) refl) ∙ e)
]

pub append-OffsetsOk :
    (fact : Fact) (xs ys : List (TopicPartition × ℕ))
    → OffsetsOk fact xs
    → OffsetsOk fact ys
    → OffsetsOk fact (xs ++ ys)
append-OffsetsOk fact [] ys x y = y
append-OffsetsOk fact ((tp, f) ∷ xs) ys x y = (x.0, append-OffsetsOk fact xs ys x.1 y)

-- Whether the offset of the partition is one of them.
abbrev pub is_among : TopicPartition → ℕ → List (TopicPartition × ℕ) → Bool
is_among tp f [] = false
is_among tp f ((k, g) ∷ m) = (tp_eq k tp && (g == f)) || is_among tp f m

pub is_among-OffsetsOk :
    (fact : Fact) (tp : TopicPartition) (f : ℕ) (m : List (TopicPartition × ℕ))
    → OffsetsOk fact m
    → is_among tp f m ≡ true
    → (o : ℕ) → o < f
    → fact tp o ≡ true
is_among-OffsetsOk fact tp f [] ok e o below = ground (arith, e)
is_among-OffsetsOk fact tp f ((k, g) ∷ m) ok e o below =
    elim (Bool-cases (tp_eq k tp && (g == f))) [
      | inl t ↦
          let same_part : tp_eq k tp ≡ true = ground (arith, t) in
          let at : o < g = ground (arith, t, below) in
          subst (λ x. fact x o ≡ true) (tp_eq-path k tp same_part) (ok.0 o at)
      | inr n ↦ is_among-OffsetsOk fact tp f m ok.1 (ground (arith, n, e)) o below
    ]

pub put-OffsetsOk :
    (fact : Fact) (k : TopicPartition) (f : ℕ) (m : List (TopicPartition × ℕ))
    → OffsetsOk fact m
    → ((o : ℕ) → o < f → fact k o ≡ true)
    → OffsetsOk fact (put k f m)
unfolding put
put-OffsetsOk fact k f [] ok new = (new, tt)
put-OffsetsOk fact k f ((tp, g) ∷ m) ok new = elim (Bool-cases (tp_eq tp k)) [
  | inl t ↦ rw (t) (new, ok.1)
  | inr n ↦ rw (n) (ok.0, put-OffsetsOk fact k f m ok.1 new)
]

pub del-OffsetsOk :
    (fact : Fact) (k : TopicPartition) (m : List (TopicPartition × ℕ))
    → OffsetsOk fact m
    → OffsetsOk fact (del k m)
unfolding del
del-OffsetsOk fact k [] ok = tt
del-OffsetsOk fact k ((tp, g) ∷ m) ok = elim (Bool-cases (tp_eq tp k)) [
  | inl t ↦ rw (t) (del-OffsetsOk fact k m ok.1)
  | inr n ↦ rw (n) (ok.0, del-OffsetsOk fact k m ok.1)
]

-- An offset that is looked up is one of them.
pub get-OffsetsOk :
    (fact : Fact) (k : TopicPartition) (m : List (TopicPartition × ℕ)) (f : ℕ)
    → OffsetsOk fact m
    → get k m ≡ some f
    → (o : ℕ) → o < f
    → fact k o ≡ true
unfolding get
get-OffsetsOk fact k [] f ok e = ground (arith, e)
get-OffsetsOk fact k ((tp, g) ∷ m) f ok e = elim (Bool-cases (tp_eq tp k)) [
  | inl t ↦
      let at : some g ≡ some f = sym (rw (t) refl) ∙ e in
      subst (λ x. (o : ℕ) → o < f → fact x o ≡ true) (tp_eq-path tp k t)
        (subst (λ y. (o : ℕ) → o < y → fact tp o ≡ true) (some-path g f at) ok.0)
  | inr n ↦ get-OffsetsOk fact k m f ok.1 (sym (rw (n) refl) ∙ e)
]
