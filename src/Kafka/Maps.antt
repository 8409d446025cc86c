-- ===== src/Kafka/Maps.antt =====
-- kafka/consumer.go: its maps from partitions, as association lists.
use text.Mathlib.TextEquality.{eq_iff}
use text.Mathlib.TextPositions.{eq_refl}
use go_guard_lib.Prelude.{
  true, false, if◌then◌else◌, Option, none, some, List, [], ◌∷◌, ◌≡◌, refl, ap, sym, ◌∙◌, arith,
  Bool-cases, inl, inr,
}
use go_guard_lib.Kafka.{TopicPartition, tp_eq}

module _ {A : Type 0} where
  -- `m[tp]`.
  unfoldable pub get : TopicPartition → List (TopicPartition × A) → Option A
  get tp [] = none
  get tp ((k, v) ∷ m) = if tp_eq k tp then some v else get tp m

  -- `m[tp] = v`.
  unfoldable pub put : TopicPartition → A → List (TopicPartition × A) → List (TopicPartition × A)
  put tp v [] = (tp, v) ∷ []
  put tp v ((k, w) ∷ m) = if tp_eq k tp then (tp, v) ∷ m else (k, w) ∷ put tp v m

  -- `delete(m, tp)`.
  unfoldable pub del : TopicPartition → List (TopicPartition × A) → List (TopicPartition × A)
  del tp [] = []
  del tp ((k, v) ∷ m) = if tp_eq k tp then del tp m else (k, v) ∷ del tp m

pub tp_eq_refl : (a : TopicPartition) → tp_eq a a ≡ true
unfolding tp_eq
tp_eq_refl a = ground (arith, eq_refl a.topic)

pub tp_eq-path : (a b : TopicPartition) → tp_eq a b ≡ true → a ≡ b
unfolding tp_eq
tp_eq-path a b e = ground (arith, e, eq_iff a.topic b.topic)

differs : (a b c : TopicPartition) → tp_eq a b ≡ false → tp_eq a c ≡ true → tp_eq b c ≡ false
differs a b c n t = elim (Bool-cases (tp_eq b c)) [
  | inl e ↦
      let same : a ≡ b = tp_eq-path a c t ∙ sym (tp_eq-path b c e) in
      let eq : tp_eq a b ≡ true = ap (λ x. tp_eq x b) same ∙ tp_eq_refl b in ground (arith, eq, n)
  | inr f ↦ f
]

module _ {A : Type 0} where
  pub get-put :
      (tp k : TopicPartition) (v : A) (m : List (TopicPartition × A))
      → get tp (put k v m) ≡ (if tp_eq k tp then some v else get tp m)
  unfolding get put
  get-put tp k v [] = ground arith
  get-put tp k v ((k', w) ∷ m) = elim (Bool-cases (tp_eq k' k)) [
    | inl e ↦
        let same : tp_eq k' tp ≡ tp_eq k tp = ap (λ x. tp_eq x tp) (tp_eq-path k' k e) in
        elim (Bool-cases (tp_eq k tp)) [
          | inl t ↦ rw (e, same, t) refl
          | inr f ↦ rw (e, same, f) refl
        ]
    | inr n ↦ elim (Bool-cases (tp_eq k' tp)) [
      | inl t ↦ let other : tp_eq k tp ≡ false = differs k' k tp n t in rw (n, t, other) refl
      | inr f ↦ rw (n, f) (get-put tp k v m)
    ]
  ]

  pub get-del :
      (tp k : TopicPartition) (m : List (TopicPartition × A))
      → get tp (del k m) ≡ (if tp_eq k tp then none else get tp m)
  unfolding get del
  get-del tp k [] = ground arith
  get-del tp k ((k', w) ∷ m) = elim (Bool-cases (tp_eq k' k)) [
    | inl e ↦
        let same : tp_eq k' tp ≡ tp_eq k tp = ap (λ x. tp_eq x tp) (tp_eq-path k' k e) in
        elim (Bool-cases (tp_eq k tp)) [
          | inl t ↦ rw (e, same, t) (get-del tp k m ∙ rw (t) refl)
          | inr f ↦ rw (e, same, f) (get-del tp k m ∙ rw (f) refl)
        ]
    | inr n ↦ elim (Bool-cases (tp_eq k' tp)) [
      | inl t ↦ let other : tp_eq k tp ≡ false = differs k' k tp n t in rw (n, t, other) refl
      | inr f ↦ rw (n, f) (get-del tp k m)
    ]
  ]
