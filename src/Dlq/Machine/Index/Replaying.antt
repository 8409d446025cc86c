-- ===== src/Dlq/Machine/Index/Replaying.antt =====
-- dlq/machine.go: replaying a log keeps the index exact.
use Prim.Native.String.{String}
use go_guard_lib.Prelude.{
  ℕ, ◌≡◌, ◌≢◌, ◌∙◌, Bool, true, not, Option, none, some, List, [], ◌∷◌, arith,
}
use go_guard_lib.Dlq.Record.{is_leased}
use go_guard_lib.Dlq.Ordered.Reference.{Above, Ascending}
use go_guard_lib.Dlq.Machine.{Machine, MemItem, find_id, find_seq}
use go_guard_lib.Dlq.Machine.View.{seqs, find-Above}
use go_guard_lib.Dlq.Machine.Index.Changing.{Holds}
use go_guard_lib.Dlq.Machine.Leasing.Merging.{All}

-- An item found by its ID is the machine's item of its Seq.
pub find_id-seq :
    (id : String) (it : MemItem) (xs : List MemItem)
    → Ascending (seqs xs)
    → find_id id xs ≡ some it
    → find_seq it.stored.seq xs ≡ some it
unfolding find_id find_seq
find_id-seq id it [] v e = cc
find_id-seq id it (x ∷ xs) v e =
    ground (arith, find_id-seq id it xs v.1, find-Above x.stored.seq it.stored.seq xs it v.0)

pub Above-Holds :
    (m m' : Machine) (n : ℕ) (its : List MemItem)
    → ((s : ℕ) → n ≢ s → find_seq s m'.items ≡ find_seq s m.items)
    → Above n (seqs its)
    → All (Holds m) its
    → All (Holds m') its
Above-Holds m m' n [] k a h = tt
Above-Holds m m' n (x ∷ xs) k a h =
    (k x.stored.seq (omega arith) ∙ h.0, Above-Holds m m' n xs k a.1 h.1)

abbrev is_free : Option MemItem → Bool
is_free none = true
is_free (some it) = not (is_leased it.stored.state)

-- Every one of these items is free in the machine.
abbrev AllFree : Machine → List ℕ → Type 0
AllFree m [] = Unit {0}
AllFree m (s ∷ ss) = (is_free (find_seq s m.items) ≡ true) × AllFree m ss
