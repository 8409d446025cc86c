-- ===== src/Dlq/Redriver/Busy/Sets.antt =====
-- dlq/redrive.go: the IDs of the records that are busy, each once.
use Prim.Native.String.{String}
use text.Mathlib.Text.{◌==◌ as str_eq}
use text.Mathlib.TextEquality.{eq_iff}
use go_guard_lib.Prelude.{
  suc, ◌≡◌, refl, ap, sym, ◌∙◌, ◌||◌, ◌++◌, subst, Bool, true, false, ◌&&◌, not, List, [], ◌∷◌,
  length, mem_str, arith, Bool-cases, inl, inr,
}
use go_guard_lib.Dlq.Machine.Leasing.{Lease}
use go_guard_lib.Dlq.Redriver.{remove_str}

-- No name is there twice.
abbrev pub is_set : List String → Bool
is_set [] = true
is_set (x ∷ xs) = not (mem_str x xs) && is_set xs

abbrev pub ids : List Lease → List String
ids [] = []
ids (l ∷ ls) = l.leased_record.id ∷ ids ls

mem_str-remove :
    (x y : String) (xs : List String) → mem_str x xs ≡ false → mem_str x (remove_str y xs) ≡ false
mem_str-remove x y [] e = refl
mem_str-remove x y (z ∷ xs) e = ground (arith, e, mem_str-remove x y xs)

remove_str-absent : (x : String) (xs : List String) → mem_str x xs ≡ false → remove_str x xs ≡ xs
remove_str-absent x [] e = refl
remove_str-absent x (z ∷ xs) e =
    let other : str_eq z x ≡ false = ground (arith, e) in
    let rest : mem_str x xs ≡ false = ground (arith, e) in
    rw (other) (ap (λ ys. z ∷ ys) (remove_str-absent x xs rest))

-- A name that is there once is removed once.
pub remove_str-is_set :
    (x : String) (xs : List String)
    → is_set xs ≡ true
    → mem_str x xs ≡ true
    → (is_set (remove_str x xs) ≡ true) × (suc (length (remove_str x xs)) ≡ length xs)
remove_str-is_set x [] e m = ground (arith, m)
remove_str-is_set x (z ∷ xs) e m = elim (Bool-cases (str_eq z x)) [
  | inl t ↦
      let same : z ≡ x = (eq_iff z x).0 t in
      let absent : mem_str x xs ≡ false =
        subst (λ y. mem_str y xs ≡ false) same (ground (arith, e)) in
      let gone = remove_str-absent x xs absent in rw (t, gone) (ground (arith, e), refl)
  | inr n ↦
      let later = remove_str-is_set x xs (ground (arith, e)) (ground (arith, n, m)) in
      let first : mem_str z (remove_str x xs) ≡ false = mem_str-remove z x xs (ground (arith, e)) in
      rw (n) (ground (arith, first, later.0), omega (arith, later.1))
]

eq_comm : (x y : String) → str_eq x y ≡ str_eq y x
eq_comm x y = elim (Bool-cases (str_eq x y)) [
  | inl t ↦ t ∙ sym ((eq_iff y x).1 (sym ((eq_iff x y).0 t)))
  | inr n ↦ elim (Bool-cases (str_eq y x)) [
    | inl t ↦ let other = (eq_iff x y).1 (sym ((eq_iff y x).0 t)) in ground (arith, n, other)
    | inr f ↦ n ∙ sym f
  ]
]

pub mem_str-remove_str :
    (x y : String) (xs : List String)
    → mem_str x (remove_str y xs) ≡ (mem_str x xs && not (str_eq y x))
mem_str-remove_str x y [] = refl
mem_str-remove_str x y (z ∷ xs) = elim (Bool-cases (str_eq z y)) [
  | inl t ↦
      let same : z ≡ y = (eq_iff z y).0 t in
      let here : str_eq z x ≡ str_eq y x = ap (λ w. str_eq w x) same in
      ground (arith, t, here, mem_str-remove_str x y xs)
  | inr n ↦ elim (Bool-cases (str_eq z x)) [
    | inl t ↦
        let same : z ≡ x = (eq_iff z x).0 t in
        let other : str_eq y x ≡ false = eq_comm y x ∙ subst (λ w. str_eq w y ≡ false) same n in
        ground (arith, t, n, other)
    | inr f ↦ ground (arith, n, f, mem_str-remove_str x y xs)
  ]
]

-- The leases without one of them.
pub mem_str-split :
    (x : String) (xs ys : List Lease) (l : Lease)
    → mem_str x (ids (xs ++ l ∷ ys)) ≡ (str_eq l.leased_record.id x || mem_str x (ids (xs ++ ys)))
mem_str-split x [] ys l = refl
mem_str-split x (z ∷ xs) ys l = ground (arith, mem_str-split x xs ys l)

pub is_set-split :
    (xs ys : List Lease) (l : Lease)
    → is_set (ids (xs ++ l ∷ ys)) ≡ true
    → (is_set (ids (xs ++ ys)) ≡ true) × (mem_str l.leased_record.id (ids (xs ++ ys)) ≡ false)
is_set-split [] ys l e = (ground (arith, e), ground (arith, e))
is_set-split (z ∷ xs) ys l e =
    let id = l.leased_record.id in
    let at = mem_str-split z.leased_record.id xs ys l in
    let rest = is_set-split xs ys l (ground (arith, e)) in
    let apart : str_eq id z.leased_record.id ≡ false = ground (arith, e, at) in
    let apart' : str_eq z.leased_record.id id ≡ false = eq_comm z.leased_record.id id ∙ apart in
    (ground (arith, e, at, rest.0), ground (arith, apart', rest.1))
