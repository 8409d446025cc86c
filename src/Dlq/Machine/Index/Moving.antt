-- ===== src/Dlq/Machine/Index/Moving.antt =====
-- dlq/machine.go: `link`, `unlink` and `move` keep the index exact.
use Prim.Native.String.{String}
use text.Mathlib.Text.{◌==◌ as str_eq}
use text.Mathlib.TextEquality.{eq_iff}
use go_guard_lib.Prelude.{
  ℕ, ◌+◌, ◌-◌, ◌≡◌, sym, ◌∙◌, Bool, true, false, if◌then◌else◌, some, List, sum_by, arith,
}
use go_guard_lib.Dlq.Record.{State, pending, leased, parked, is_parked, is_pending, is_leased}
use go_guard_lib.Dlq.Ordered.Reference.{
  Ascending, Absent, insert_sorted, insert_ordered-sorted, new_hint_within, forget_hint_within,
}
use go_guard_lib.Dlq.Ordered.{is_within}
use go_guard_lib.Dlq.Groups.{group_items, set_wake}
use go_guard_lib.Dlq.Groups.Laws.{
  IsTidy, group_items-add, group_items-drop, group_items-wake, add-IsTidy, drop-IsTidy, wake-IsTidy,
}
use go_guard_lib.Dlq.Machine.{
  MemItem, Counts, Machine, find_seq, put, delete, count_up, count_down, link, unlink, move, moved,
}
use go_guard_lib.Dlq.Machine.View.{
  seqs, pick, put-delete, delete-Absent, seqs-delete, pick-put, pick-delete, pick-Ascending,
  pick-Absent, sum_by-put, sum_by-delete,
}
use go_guard_lib.Dlq.Machine.Index.{waits_on, in_park, one, IsIndex}

pub count_down_lem :
    (st : State) (c : Counts)
    → ((count_down st c).n_pending ≡ c.n_pending - one (is_pending st))
      × ((count_down st c).n_leased ≡ c.n_leased - one (is_leased st))
      × ((count_down st c).n_parked ≡ c.n_parked - one (is_parked st))
unfolding count_down
count_down_lem pending c = omega arith
count_down_lem leased c = omega arith
count_down_lem parked c = omega arith

pub count_up_lem :
    (st : State) (c : Counts)
    → ((count_up st c).n_pending ≡ c.n_pending + one (is_pending st))
      × ((count_up st c).n_leased ≡ c.n_leased + one (is_leased st))
      × ((count_up st c).n_parked ≡ c.n_parked + one (is_parked st))
unfolding count_up
count_up_lem pending c = omega arith
count_up_lem leased c = omega arith
count_up_lem parked c = omega arith

-- An item leaves the index.
module _ (m : Machine) (it : MemItem) (f : find_seq it.stored.seq m.items ≡ some it)
    (v : IsIndex m.items m.groups m.parked_list m.parked_hint m.counts) where
  unlink-grouped :
      (d : String)
      → group_items d (unlink m it).groups ≡ pick (waits_on d) (delete it.stored.seq m.items)
  unfolding unlink
  unlink-grouped d = ground (
    arith,
    v.grouped d,
    pick-delete (waits_on d) it.stored.seq it m.items f,
    group_items-drop it.stored.seq it.stored.blocked_on d m.groups v.tidy,
  )

  unlink-in_order : (unlink m it).parked_list ≡ pick in_park (delete it.stored.seq m.items)
  unfolding unlink
  unlink-in_order = ground (arith, v.in_order, pick-delete in_park it.stored.seq it m.items f)

  unlink-hinted : is_within (unlink m it).parked_hint (unlink m it).parked_list ≡ true
  unfolding unlink
  unlink-hinted =
      ground
        (arith, v.hinted, forget_hint_within m.parked_hint it.stored.seq m.parked_list v.hinted)

  unlink-IsTidy : IsTidy (unlink m it).groups
  unfolding unlink
  unlink-IsTidy =
      ground (arith, v.tidy, drop-IsTidy it.stored.seq it.stored.blocked_on m.groups v.tidy)

  unlink-counts : (unlink m it).counts ≡ count_down it.stored.state m.counts
  unfolding unlink
  unlink-counts = ground arith

  pub unlink-IsIndex :
      let m' = unlink m it in
      IsIndex (delete it.stored.seq m.items) m'.groups m'.parked_list m'.parked_hint m'.counts
  unlink-IsIndex =
      let down = count_down_lem it.stored.state m.counts in
      let gone = λ (g : MemItem → ℕ). sum_by-delete g it.stored.seq it m.items f in
      record {
        tidy = unlink-IsTidy;
        grouped = unlink-grouped;
        in_order = unlink-in_order;
        hinted = unlink-hinted;
        pendings =
            rw unlink-counts
              (omega (arith, down, v.pendings, gone (λ x. one (is_pending x.stored.state))));
        leases =
            rw unlink-counts
              (omega (arith, down, v.leases, gone (λ x. one (is_leased x.stored.state))));
        parkings =
            rw unlink-counts
              (omega (arith, down, v.parkings, gone (λ x. one (is_parked x.stored.state))));
      }

-- An item joins the index, where the new items are the old ones with it in its place.
module _ (m : Machine) (it : MemItem) (old new : List MemItem) (asc : Ascending (seqs old))
    (fresh : Absent it.stored.seq (seqs old))
    (grows : (p : MemItem → Bool)
      → pick p new ≡ (if p it then insert_sorted it.stored.seq (pick p old) else pick p old))
    (sums : (g : MemItem → ℕ) → sum_by g new ≡ sum_by g old + g it)
    (v : IsIndex old m.groups m.parked_list m.parked_hint m.counts) where
  link-grouped : (d : String) → group_items d (link m it).groups ≡ pick (waits_on d) new
  unfolding link
  link-grouped d = ground (
    arith,
    v.grouped d,
    grows (waits_on d),
    group_items-add it.stored.seq it.stored.blocked_on d m.groups v.tidy,
  )

  parked_asc : Ascending m.parked_list
  parked_asc = rw v.in_order (pick-Ascending in_park old asc)

  link-in_order : (link m it).parked_list ≡ pick in_park new
  unfolding link
  link-in_order = ground (
    arith,
    v.in_order,
    grows in_park,
    insert_ordered-sorted m.parked_list it.stored.seq m.parked_hint parked_asc v.hinted,
  )

  link-hinted : is_within (link m it).parked_hint (link m it).parked_list ≡ true
  unfolding link
  link-hinted = ground (
    arith,
    v.hinted,
    new_hint_within m.parked_list it.stored.seq m.parked_hint parked_asc v.hinted,
  )

  link-IsTidy : IsTidy (link m it).groups
  unfolding link
  link-IsTidy =
      ground (arith, v.tidy, add-IsTidy it.stored.seq it.stored.blocked_on m.groups v.tidy absent)
    where
      absent : Absent it.stored.seq (group_items it.stored.blocked_on m.groups)
      absent =
          rw (v.grouped it.stored.blocked_on)
            (pick-Absent (waits_on it.stored.blocked_on) it.stored.seq old fresh)

  link-counts : (link m it).counts ≡ count_up it.stored.state m.counts
  unfolding link
  link-counts = ground arith

  pub link-IsIndex :
      let m' = link m it in IsIndex new m'.groups m'.parked_list m'.parked_hint m'.counts
  link-IsIndex =
      let up = count_up_lem it.stored.state m.counts in
      record {
        tidy = link-IsTidy;
        grouped = link-grouped;
        in_order = link-in_order;
        hinted = link-hinted;
        pendings =
            rw link-counts
              (omega (arith, up, v.pendings, sums (λ x. one (is_pending x.stored.state))));
        leases =
            rw link-counts
              (omega (arith, up, v.leases, sums (λ x. one (is_leased x.stored.state))));
        parkings =
            rw link-counts
              (omega (arith, up, v.parkings, sums (λ x. one (is_parked x.stored.state))));
      }

module _ (m : Machine) (it : MemItem) (state : State) (dep : String)
    (asc : Ascending (seqs m.items)) (f : find_seq it.stored.seq m.items ≡ some it)
    (v : IsIndex m.items m.groups m.parked_list m.parked_hint m.counts) where
  it' : MemItem
  it' = moved it state dep

  -- The item leaves the index, changes and joins it again.
  relink-IsIndex :
      let m' = link (unlink (record m { items = put it' m.items }) it) it' in
      IsIndex (put it' m.items) m'.groups m'.parked_list m'.parked_hint m'.counts
  unfolding it' unlink
  relink-IsIndex =
      let s = it.stored.seq in
      link-IsIndex (unlink (record m { items = put it' m.items }) it) it' (delete s m.items)
        (put it' m.items) (seqs-delete s m.items asc) (delete-Absent s it m.items asc f)
        (λ p. put-delete p it it' m.items asc f)
        (λ g. omega (arith, sum_by-put g it it' m.items f, sum_by-delete g s it m.items f))
        (unlink-IsIndex m it f v)

  -- The item keeps its place in its group.
  stay-IsIndex :
      is_parked it.stored.state ≡ false
      → is_parked state ≡ false
      → str_eq it.stored.blocked_on dep ≡ true
      → IsIndex
          (put it' m.items)
          (set_wake 0 dep m.groups)
          m.parked_list
          m.parked_hint
          (count_up state (count_down it.stored.state m.counts))
  unfolding it'
  stay-IsIndex a b c =
      let up = count_up_lem state (count_down it.stored.state m.counts) in
      let down = count_down_lem it.stored.state m.counts in
      let change = λ (g : MemItem → ℕ). sum_by-put g it it' m.items f in
      let gone = λ (g : MemItem → ℕ). sum_by-delete g it.stored.seq it m.items f in
      record {
        tidy = wake-IsTidy 0 dep m.groups v.tidy;
        grouped = λ d.
            group_items-wake 0 dep d m.groups
            ∙ v.grouped d
            ∙ sym (
                ground (
                  arith,
                  pick-put (waits_on d) it it' m.items asc f,
                  eq_iff it.stored.blocked_on dep,
                ));
        hinted = v.hinted;
        in_order = v.in_order ∙ sym (ground (arith, pick-put in_park it it' m.items asc f));
        pendings = omega (
          arith,
          up,
          down,
          v.pendings,
          change (λ x. one (is_pending x.stored.state)),
          gone (λ x. one (is_pending x.stored.state)),
        );
        leases = omega (
          arith,
          up,
          down,
          v.leases,
          change (λ x. one (is_leased x.stored.state)),
          gone (λ x. one (is_leased x.stored.state)),
        );
        parkings = omega (
          arith,
          up,
          down,
          v.parkings,
          change (λ x. one (is_parked x.stored.state)),
          gone (λ x. one (is_parked x.stored.state)),
        );
      }

  pub move-IsIndex :
      let m' = (move m it state dep).0 in
      IsIndex m'.items m'.groups m'.parked_list m'.parked_hint m'.counts
  unfolding move it'
  move-IsIndex = ground (arith, relink-IsIndex, stay-IsIndex)
