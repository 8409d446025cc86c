-- ===== src/Dlq/Groups.antt =====
-- dlq/machine.go: the groups of the queue index, one for each dependency that Pending and Leased
-- items wait on. A group's items are given by their Seqs.
pub mod Laws
use Prim.Native.String.{String}
use text.Mathlib.Text.{◌==◌ as str_eq}
use go_guard_lib.Prelude.{
  ℕ, Bool, true, false, if◌then◌else◌, ◌==◌, Option, none, some, List, [], ◌∷◌,
}
use go_guard_lib.Dlq.Ordered.{insert_ordered, new_hint, remove_elem, forget_hint}

-- `wake` is the earliest time at which a scan can find something to lease, 0 if that is unknown.
pub record Group : Type 0 where
  pub dep : String
  pub items : List ℕ
  pub hint : Option ℕ
  pub wake : ℕ

unfoldable pub find_group : String → List Group → Option Group
find_group d [] = none
find_group d (g ∷ gs) = if str_eq g.dep d then some g else find_group d gs

abbrev items_of : Option Group → List ℕ
items_of none = []
items_of (some g) = g.items

-- The items of a dependency's group; a missing group has none.
abbrev pub group_items : String → List Group → List ℕ
group_items d gs = items_of (find_group d gs)

-- `link`: the group is made if it is not there.
unfoldable pub add_item : ℕ → String → List Group → List Group
add_item s d [] =
    record { dep = d; items = insert_ordered [] s none; hint = new_hint [] s none; wake = 0 } ∷ []
add_item s d (g ∷ gs) =
    if str_eq g.dep d
    then record g {
      items = insert_ordered g.items s g.hint;
      hint = new_hint g.items s g.hint;
      wake = 0;
    }
      ∷ gs
    else g ∷ add_item s d gs

abbrev is_empty : List ℕ → Bool
is_empty [] = true
is_empty (x ∷ xs) = false

-- `unlink`: a group left empty is deleted.
unfoldable pub drop_item : ℕ → String → List Group → List Group
drop_item s d [] = []
drop_item s d (g ∷ gs) =
    let items = remove_elem s g.items in
    if str_eq g.dep d
    then (if is_empty items
        then gs
        else record g { items = items; hint = forget_hint g.hint s; wake = 0 } ∷ gs)
    else g ∷ drop_item s d gs

-- Sets the wake time of a dependency's group, 0 to have it scanned.
unfoldable pub set_wake : ℕ → String → List Group → List Group
set_wake t d [] = []
set_wake t d (g ∷ gs) = if str_eq g.dep d then record g { wake = t } ∷ gs else g ∷ set_wake t d gs
