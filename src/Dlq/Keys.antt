-- ===== src/Dlq/Keys.antt =====
-- dlq/machine.go: the map `byKey` from an OrderKey to its items, oldest first, given by their Seqs.
pub mod Laws
use Prim.Native.String.{String}
use text.Mathlib.Text.{◌==◌ as str_eq}
use go_guard_lib.Prelude.{
  ℕ, Bool, true, false, if◌then◌else◌, ◌==◌, Option, none, some, List, [], ◌∷◌, ◌++◌,
}
use go_guard_lib.Dlq.Ordered.{remove_elem}

pub record KeyEntry : Type 0 where
  pub key : String
  pub items : List ℕ

-- A missing key has no items.
unfoldable pub key_items : String → List KeyEntry → List ℕ
key_items k [] = []
key_items k (e ∷ es) = if str_eq e.key k then e.items else key_items k es

-- `append(m.byKey[k], it)`.
unfoldable pub append_key : ℕ → String → List KeyEntry → List KeyEntry
append_key s k [] = record { key = k; items = s ∷ [] } ∷ []
append_key s k (e ∷ es) =
    if str_eq e.key k then record e { items = e.items ++ s ∷ [] } ∷ es else e ∷ append_key s k es

abbrev is_empty : List ℕ → Bool
is_empty [] = true
is_empty (x ∷ xs) = false

-- A key left without items is deleted.
unfoldable pub drop_key : ℕ → String → List KeyEntry → List KeyEntry
drop_key s k [] = []
drop_key s k (e ∷ es) =
    let items = remove_elem s e.items in
    if str_eq e.key k
    then (if is_empty items then es else record e { items = items } ∷ es)
    else e ∷ drop_key s k es
