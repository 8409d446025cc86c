-- ===== src/Dlq/Machine/Reading/Exact.antt =====
-- dlq/machine.go: what is read from the index is what the items say.
use Prim.Native.String.{String}
use text.Mathlib.Text.{◌==◌ as str_eq}
use go_guard_lib.Prelude.{◌≡◌, refl, Bool, false, ◌&&◌, ◌||◌, not, List, [], ◌∷◌, arith}
use go_guard_lib.Dlq.Machine.{MemItem, Machine}
use go_guard_lib.Dlq.Machine.View.{pick}
use go_guard_lib.Dlq.Machine.Index.{IsIndexed, has_key}
use go_guard_lib.Dlq.Machine.Reading.{has_order_key, is_empty}

-- Whether an item passes the test.
abbrev pub some_item : (MemItem → Bool) → List MemItem → Bool
some_item p [] = false
some_item p (x ∷ xs) = p x || some_item p xs

pick-empty : (p : MemItem → Bool) (xs : List MemItem) → is_empty (pick p xs) ≡ not (some_item p xs)
pick-empty p [] = refl
pick-empty p (x ∷ xs) = ground (arith, pick-empty p xs)

-- On a queue whose index is exact, `hasOrderKey` says whether some item has the key, if the key is
-- not empty.
pub has_order_key-some_item :
    (m : Machine) (k : String)
    → IsIndexed m
    → has_order_key m k ≡ (not (str_eq k "") && some_item (has_key k) m.items)
unfolding has_order_key
has_order_key-some_item m k v = ground (arith, v.keyed k, pick-empty (has_key k) m.items)
