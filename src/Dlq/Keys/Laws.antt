-- ===== src/Dlq/Keys/Laws.antt =====
-- dlq/machine.go: what `byKey` says of each key after a change.
use Prim.Native.String.{String}
use text.Mathlib.Text.{◌==◌ as str_eq}
use text.Mathlib.TextEquality.{eq_iff}
use go_guard_lib.Prelude.{ℕ, if◌then◌else◌, List, [], ◌∷◌, ◌++◌, ◌≡◌, refl, arith}
use go_guard_lib.Dlq.Ordered.{remove_elem}
use go_guard_lib.Dlq.Keys.{KeyEntry, key_items, append_key, drop_key}

-- No later entry has an entry's key.
pub data IsTidy : List KeyEntry → Type 0 where
  none_left : IsTidy []
  one_more :
      {e : KeyEntry} {es : List KeyEntry} → key_items e.key es ≡ [] → IsTidy es → IsTidy (e ∷ es)

pub key_items-append :
    (s : ℕ) (k j : String) (es : List KeyEntry)
    → key_items j (append_key s k es)
      ≡ (if str_eq k j then key_items j es ++ s ∷ [] else key_items j es)
unfolding key_items append_key
key_items-append s k j [] = ground (arith, eq_iff k j)
key_items-append s k j (e ∷ es) =
    ground (arith, eq_iff k j, eq_iff e.key k, eq_iff e.key j, key_items-append s k j es)

pub append-IsTidy :
    (s : ℕ) (k : String) (es : List KeyEntry) → IsTidy es → IsTidy (append_key s k es)
unfolding append_key key_items
append-IsTidy s k [] none_left = one_more refl none_left
append-IsTidy s k (e ∷ es) (one_more u t) = grind (
  arith,
  one_more,
  t,
  u,
  eq_iff e.key k,
  eq_iff k e.key,
  key_items-append s k e.key es,
  append-IsTidy s k es t,
)

pub key_items-drop :
    (s : ℕ) (k j : String) (es : List KeyEntry)
    → IsTidy es
    → key_items j (drop_key s k es)
      ≡ (if str_eq k j then remove_elem s (key_items j es) else key_items j es)
unfolding key_items drop_key remove_elem
key_items-drop s k j [] none_left = ground arith
key_items-drop s k j (e ∷ es) (one_more u t) =
    ground (arith, u, eq_iff k j, eq_iff e.key k, eq_iff e.key j, key_items-drop s k j es t)

pub drop-IsTidy : (s : ℕ) (k : String) (es : List KeyEntry) → IsTidy es → IsTidy (drop_key s k es)
unfolding drop_key key_items
drop-IsTidy s k [] none_left = none_left
drop-IsTidy s k (e ∷ es) (one_more u t) = grind (
  arith,
  one_more,
  u,
  t,
  eq_iff e.key k,
  eq_iff k e.key,
  key_items-drop s k e.key es t,
  drop-IsTidy s k es t,
)
