-- ===== src/Dlq/Groups/Laws.antt =====
-- dlq/machine.go: what the group index says of each dependency after a change.
use Prim.Native.String.{String}
use text.Mathlib.Text.{◌==◌ as str_eq}
use text.Mathlib.TextEquality.{eq_iff}
use go_guard_lib.Prelude.{
  ℕ, true, false, if◌then◌else◌, none, List, [], ◌∷◌, ◌≡◌, refl, arith, Bool-cases, inl, inr,
}
use go_guard_lib.Dlq.Ordered.{remove_elem, is_within}
use go_guard_lib.Dlq.Ordered.Reference.{
  Ascending, Absent, insert_sorted, insert_ordered-sorted, insert_sorted-Ascending,
  remove_elem-Ascending, new_hint_within, forget_hint_within,
}
use go_guard_lib.Dlq.Groups.{Group, find_group, group_items, add_item, drop_item, set_wake}

-- Every group is in Seq order, its hint is one of its items, and no later group has its dependency.
pub data IsTidy : List Group → Type 0 where
  none_left : IsTidy []
  one_more :
      {g : Group} {gs : List Group}
      → Ascending g.items
      → is_within g.hint g.items ≡ true
      → find_group g.dep gs ≡ none
      → IsTidy gs
      → IsTidy (g ∷ gs)

pub group_items-add :
    (s : ℕ) (d e : String) (gs : List Group)
    → IsTidy gs
    → group_items e (add_item s d gs)
      ≡ (if str_eq d e then insert_sorted s (group_items e gs) else group_items e gs)
unfolding find_group add_item
group_items-add s d e [] none_left =
    ground (arith, insert_ordered-sorted [] s none tt refl, eq_iff d e)
group_items-add s d e (g ∷ gs) (one_more a w u t) = ground (
  arith,
  eq_iff d e,
  eq_iff g.dep d,
  eq_iff g.dep e,
  insert_ordered-sorted g.items s g.hint a w,
  group_items-add s d e gs t,
)

find-add :
    (s : ℕ) (d e : String) (gs : List Group)
    → str_eq d e ≡ false
    → find_group e gs ≡ none
    → find_group e (add_item s d gs) ≡ none
unfolding find_group add_item
find-add s d e [] h n = ground arith
find-add s d e (g ∷ gs) h n =
    ground (arith, eq_iff g.dep d, eq_iff g.dep e, eq_iff d e, find-add s d e gs)

find-drop :
    (s : ℕ) (d e : String) (gs : List Group)
    → find_group e gs ≡ none
    → find_group e (drop_item s d gs) ≡ none
unfolding find_group drop_item
find-drop s d e [] n = refl
find-drop s d e (g ∷ gs) n = ground (arith, find-drop s d e gs)

pub add-IsTidy :
    (s : ℕ) (d : String) (gs : List Group)
    → IsTidy gs
    → Absent s (group_items d gs)
    → IsTidy (add_item s d gs)
unfolding find_group add_item
add-IsTidy s d [] none_left a =
    one_more (rw (insert_ordered-sorted [] s none tt refl) (insert_sorted-Ascending s [] tt tt))
      (new_hint_within [] s none tt refl) refl none_left
add-IsTidy s d (g ∷ gs) (one_more v w u t) a = elim (Bool-cases (str_eq g.dep d)) [
  | inl e ↦
      let a' : Absent s g.items = (rw (e, find_group) at a) in
      rw (e, add_item)
        (one_more
          (rw (insert_ordered-sorted g.items s g.hint v w) (insert_sorted-Ascending s g.items a' v))
          (new_hint_within g.items s g.hint v w) u t)
  | inr e ↦
      let a' : Absent s (group_items d gs) = (rw (e, find_group) at a) in
      rw (e, add_item)
        (one_more v w (find-add s d g.dep gs (ground (arith, eq_iff g.dep d, eq_iff d g.dep)) u)
          (add-IsTidy s d gs t a'))
]

pub drop-IsTidy : (s : ℕ) (d : String) (gs : List Group) → IsTidy gs → IsTidy (drop_item s d gs)
unfolding drop_item
drop-IsTidy s d [] none_left = none_left
drop-IsTidy s d (g ∷ gs) (one_more v w u t) = grind (
  arith,
  one_more,
  remove_elem-Ascending s g.items v,
  forget_hint_within g.hint s g.items w,
  w,
  find-drop s d g.dep gs u,
  drop-IsTidy s d gs t,
)

pub group_items-drop :
    (s : ℕ) (d e : String) (gs : List Group)
    → IsTidy gs
    → group_items e (drop_item s d gs)
      ≡ (if str_eq d e then remove_elem s (group_items e gs) else group_items e gs)
unfolding find_group drop_item remove_elem
group_items-drop s d e [] none_left = ground arith
group_items-drop s d e (g ∷ gs) (one_more v w u t) =
    ground (arith, eq_iff d e, eq_iff g.dep d, eq_iff g.dep e, group_items-drop s d e gs t, u)

find-wake :
    (t : ℕ) (d e : String) (gs : List Group)
    → find_group e gs ≡ none
    → find_group e (set_wake t d gs) ≡ none
unfolding find_group set_wake
find-wake t d e [] n = refl
find-wake t d e (g ∷ gs) n = ground (arith, find-wake t d e gs)

pub wake-IsTidy : (t : ℕ) (d : String) (gs : List Group) → IsTidy gs → IsTidy (set_wake t d gs)
unfolding set_wake
wake-IsTidy t d [] none_left = none_left
wake-IsTidy t d (g ∷ gs) (one_more v h u w) =
    grind (arith, one_more v h u w, one_more, v, h, find-wake t d g.dep gs u, wake-IsTidy t d gs w)

-- Wake times are no part of what the index says.
pub group_items-wake :
    (t : ℕ) (d e : String) (gs : List Group) → group_items e (set_wake t d gs) ≡ group_items e gs
unfolding find_group set_wake
group_items-wake t d e [] = refl
group_items-wake t d e (g ∷ gs) = ground (arith, group_items-wake t d e gs)
