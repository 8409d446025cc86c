-- ===== src/Dlq/Memory/Calls/Replays.antt =====
-- dlq/machine.go: what is read of a queue with a parked record, and the replay of a log on one with a
-- leased record.
use go_guard_lib.Prelude.{◌≡◌, [], ◌∷◌, ◌++◌}
use go_guard_lib.Errors.{live}
use go_guard_lib.Dlq.Machine.View.{seqs, pick}
use go_guard_lib.Dlq.Machine.Index.{in_park}
use go_guard_lib.Dlq.Machine.Reading.{parked_items}
use go_guard_lib.Dlq.Machine.Reading.Paging.{later, last_of, parked_items-later}
use go_guard_lib.Dlq.Memory.{MemoryStore, new_memory_store}
use go_guard_lib.Dlq.Memory.Calls.{c_lease, calls}
use go_guard_lib.Dlq.Memory.Calls.Examples.{
  tokens, options, two_appends, any_lease, one_parked, one_parked-IsIndexed,
}

parked_items-later_example :
    let page = seqs (parked_items one_parked.m 0 10) in
    let all = pick in_park one_parked.m.items in
    (later 0 all ≡ page ++ later (last_of 0 page) all)
    × (parked_items one_parked.m 0 10 ≡ [] → later 0 all ≡ [])
parked_items-later_example = parked_items-later one_parked.m 0 10 one_parked-IsIndexed

abbrev one_leased : MemoryStore
one_leased = calls tokens (new_memory_store options) (two_appends ++ c_lease live any_lease 10 ∷ [])
