-- ===== src/Kafka/Committing/Frontier.antt =====
-- kafka/consumer.go: the frontier of a partition against the offsets that have been marked.
use go_guard_lib.Prelude.{
  ℕ, zero, suc, ◌+◌, ◌≤◌, ◌<◌, ◌≡◌, refl, sym, subst, true, false, ◌&&◌, ◌||◌, not, ltb, leb, ◌==◌,
  Option, none, some, List, [], ◌∷◌, length, arith, Bool-cases, inl, inr,
}
use go_guard_lib.Kafka.{Partition}
use go_guard_lib.Kafka.Committing.{has, without, slide, mark}

has-without : (n o : ℕ) (xs : List ℕ) → has o (without n xs) ≡ (has o xs && not (o == n))
has-without n o [] = refl
has-without n o (x ∷ xs) = ground (arith, has-without n o xs)

length-without : (n : ℕ) (xs : List ℕ) → length (without n xs) ≤ length xs
length-without n [] = omega arith
length-without n (x ∷ xs) = ground (arith, length-without n xs)

length-without-has : (n : ℕ) (xs : List ℕ) → has n xs ≡ true → length (without n xs) < length xs
length-without-has n [] e = ground (arith, e)
length-without-has n (x ∷ xs) e = ground (arith, e, length-without n xs, length-without-has n xs)

has-empty : (n : ℕ) (xs : List ℕ) → length xs ≤ 0 → has n xs ≡ false
has-empty n [] e = refl
has-empty n (x ∷ xs) e = ground (arith, e)

-- With as many turns as there are offsets, the loop ends where no offset is left to take.
pub slide-stops :
    (n f : ℕ) (done : List ℕ) → length done ≤ n → has (slide n f done).0 (slide n f done).1 ≡ false
unfolding slide
slide-stops zero f done e = has-empty f done e
slide-stops (suc n) f done e = elim (Bool-cases (has f done)) [
  | inl t ↦
      ground (arith, t, slide-stops n (f + 1) (without f done), length-without-has f done t, e)
  | inr t ↦ ground (arith, t)
]

has-same : (f o : ℕ) (done : List ℕ) → has f done ≡ true → ((o == f) && not (has o done)) ≡ false
has-same f o done t = elim (Bool-cases (o == f)) [
  | inl e ↦
      let same : f ≡ o = ground (arith, e) in
      let at : has o done ≡ true = subst (λ x. has x done ≡ true) same t in ground (arith, e, at)
  | inr n ↦ ground (arith, n)
]

-- It takes just the offsets that the frontier moves over, and all of them are there.
pub slide-takes :
    (n f : ℕ) (done : List ℕ) (o : ℕ)
    → let f' = (slide n f done).0 in
      (f ≤ f')
      × (has o (slide n f done).1 ≡ (has o done && not (leb f o && ltb o f')))
      × ((leb f o && ltb o f' && not (has o done)) ≡ false)
unfolding slide
slide-takes zero f done o = ground arith
slide-takes (suc n) f done o = elim (Bool-cases (has f done)) [
  | inl t ↦ ground (
    arith,
    t,
    has-same f o done t,
    has-without f o done,
    slide-takes n (f + 1) (without f done) o,
  )
  | inr t ↦ ground (arith, t)
]

-- The partition after the offsets have been marked, the first of the list first.
abbrev pub mark_all : List ℕ → Partition → Partition
mark_all [] p = p
mark_all (o ∷ os) p = mark_all os (mark p.frontier o p)

-- What holds of a partition of which `os` were marked since its frontier was `start`.
pub record Marked (start : ℕ) (os : List ℕ) (p : Partition) : Type 0 where
  pub at : ℕ
  pub frontier : p.frontier ≡ some at
  pub from : start ≤ at
  pub covered : (o : ℕ) → (leb start o && ltb o at && not (has o os)) ≡ false
  pub kept : (o : ℕ) → at ≤ o → has o p.completed ≡ has o os
  pub stopped : has at p.completed ≡ false

pub mark-Marked :
    (start : ℕ) (os : List ℕ) (p : Partition) (o : ℕ)
    → Marked start os p
    → Marked start (o ∷ os) (mark p.frontier o p)
mark-Marked start os p o m =
    let n = suc (length p.completed) in
    let done : List ℕ = o ∷ p.completed in
    subst (λ fr. Marked start (o ∷ os) (mark fr o p)) (sym m.frontier)
      (record {
        at = (slide n m.at done).0;
        frontier = refl;
        from = ground (arith, m.from, slide-takes n m.at done o);
        covered = λ x. ground (arith, m.from, m.covered x, m.kept x, slide-takes n m.at done x);
        kept = λ x e. ground (arith, e, m.from, m.kept x, slide-takes n m.at done x);
        stopped = slide-stops n m.at done (omega arith);
      })

abbrev onto : List ℕ → List ℕ → List ℕ
onto [] ys = ys
onto (x ∷ xs) ys = onto xs (x ∷ ys)

has-onto : (o : ℕ) (xs ys : List ℕ) → has o (onto xs ys) ≡ (has o xs || has o ys)
has-onto o [] ys = refl
has-onto o (x ∷ xs) ys = ground (arith, has-onto o xs (x ∷ ys))

mark_all-Marked :
    (start : ℕ) (os before : List ℕ) (p : Partition)
    → Marked start before p
    → Marked start (onto os before) (mark_all os p)
mark_all-Marked start [] before p m = m
mark_all-Marked start (o ∷ os) before p m =
    mark_all-Marked start os (o ∷ before) (mark p.frontier o p) (mark-Marked start before p o m)

abbrev pub offset_or : ℕ → Option ℕ → ℕ
offset_or d none = d
offset_or d (some f) = f

-- Whatever the order in which offsets are marked, the frontier of a partition that begins at `start` is
-- then the first offset from there that was not marked.
pub mark_all-frontier :
    (start : ℕ) (os : List ℕ) (p : Partition) (o : ℕ)
    → p.frontier ≡ some start
    → p.completed ≡ []
    → let f = offset_or start (mark_all os p).frontier in
      (has f os ≡ false) × (start ≤ f) × ((leb start o && ltb o f && not (has o os)) ≡ false)
mark_all-frontier start os p o at empty =
    let m₀ : Marked start [] p = record {
      at = start;
      frontier = at;
      from = omega arith;
      covered = λ x. ground arith;
      kept = λ x e. rw (empty) refl;
      stopped = rw (empty) refl;
    } in
    let m = mark_all-Marked start os [] p m₀ in
    let frontier : offset_or start (mark_all os p).frontier ≡ m.at = rw (m.frontier) refl in
    subst
      (λ f. (has f os ≡ false) × (start ≤ f) × ((leb start o && ltb o f && not (has o os)) ≡ false))
      (sym frontier)
      (
        ground (arith, m.stopped, m.kept m.at (omega arith), has-onto m.at os []),
        m.from,
        ground (arith, m.covered o, has-onto o os []),
      )
