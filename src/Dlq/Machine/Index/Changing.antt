-- ===== src/Dlq/Machine/Index/Changing.antt =====
-- dlq/machine.go: what changes an item of the store keeps the index exact.
use Prim.Native.String.{String}
use go_guard_lib.Prelude.{ℕ, ◌+◌, ◌-◌, ◌≡◌, refl, subst, Bool, some, arith}
use go_guard_lib.Dlq.Record.{size, State, Bytes, pending, parked, is_parked, is_pending, is_leased}
use go_guard_lib.Dlq.Machine.{MemItem, Machine, find_seq, put, put_item, link, unlink, move, moved}
use go_guard_lib.Dlq.Machine.Settling.{
  with_checkpoint, nacked, released, park_item, requeued, or_same, resize, set_checkpoint,
  apply_nack, apply_release, apply_park, apply_requeue,
}
use go_guard_lib.Dlq.Machine.View.{Within-put, seqs-put, pick-put, sum_by-put, find-put}
use go_guard_lib.Dlq.Machine.Index.{waits_on, has_key, in_park, one, item_size, IsIndexed}
use go_guard_lib.Dlq.Machine.Index.Moving.{move-IsIndex}

-- The machine's own item of this Seq.
abbrev pub Holds : Machine → MemItem → Type 0
Holds m it = find_seq it.stored.seq m.items ≡ some it

module _ (m : Machine) (it : MemItem) (st : State) (dep : String) where
  pub move-item : (move m it st dep).1 ≡ moved it st dep
  unfolding move
  move-item = ground arith

  pub move-items : (move m it st dep).0.items ≡ put (moved it st dep) m.items
  unfolding move link unlink
  move-items = ground arith

  move-by_key : (move m it st dep).0.by_key ≡ m.by_key
  unfolding move link unlink
  move-by_key = ground arith

  move-bytes : (move m it st dep).0.bytes ≡ m.bytes
  unfolding move link unlink
  move-bytes = ground arith

  move-seq : (move m it st dep).0.seq ≡ m.seq
  unfolding move link unlink
  move-seq = ground arith

  pub move-Holds : Holds m it → Holds (move m it st dep).0 (move m it st dep).1
  move-Holds f = rw (move-item, move-items) (find-put (moved it st dep) it m.items f)

  pub move-IsIndexed : IsIndexed m → Holds m it → IsIndexed (move m it st dep).0
  move-IsIndexed v f =
      let it' = moved it st dep in
      record {
        ascending = rw (move-items, seqs-put it' m.items) v.ascending;
        within = rw (move-items, move-seq) (Within-put m.seq it' m.items v.within);
        index = move-IsIndex m it st dep v.ascending f v.index;
        tidy_keys = rw move-by_key v.tidy_keys;
        keyed = λ k h.
            rw (move-items, move-by_key)
              (ground (arith, v.keyed k h, pick-put (has_key k) it it' m.items v.ascending f));
        sized =
            rw (move-items, move-bytes)
              (omega (arith, v.sized, sum_by-put item_size it it' m.items f));
      }

-- A change of an item that the index does not see, but for its size.
abbrev pub Alike : MemItem → MemItem → Type 0
Alike it it' =
    (it'.stored.seq ≡ it.stored.seq)
    × (it'.stored.state ≡ it.stored.state)
    × (it'.stored.blocked_on ≡ it.stored.blocked_on)
    × (it'.stored.order_key ≡ it.stored.order_key)

module _ (m : Machine) (it it' : MemItem) (v : IsIndexed m) (f : Holds m it)
    (same : Alike it it') where
  pub amend-IsIndexed :
      IsIndexed (record m { items = put it' m.items; bytes = m.bytes + it'.size - it.size })
  amend-IsIndexed =
      let f' : find_seq it'.stored.seq m.items ≡ some it = rw same.0 f in
      let count = λ (g : MemItem → ℕ). sum_by-put g it it' m.items f' in
      record {
        ascending = rw (seqs-put it' m.items) v.ascending;
        within = Within-put m.seq it' m.items v.within;
        index = record {
          tidy = v.index.tidy;
          grouped = λ d.
              ground (
                arith,
                same,
                v.index.grouped d,
                pick-put (waits_on d) it it' m.items v.ascending f',
              );
          hinted = v.index.hinted;
          in_order =
              ground
                (arith, same, v.index.in_order, pick-put in_park it it' m.items v.ascending f');
          pendings =
              ground (arith, same, v.index.pendings, count (λ x. one (is_pending x.stored.state)));
          leases =
              ground (arith, same, v.index.leases, count (λ x. one (is_leased x.stored.state)));
          parkings =
              ground (arith, same, v.index.parkings, count (λ x. one (is_parked x.stored.state)));
        };
        tidy_keys = v.tidy_keys;
        keyed = λ k h.
            ground (arith, same, v.keyed k h, pick-put (has_key k) it it' m.items v.ascending f');
        sized = omega (arith, v.sized, count item_size);
      }

  pub put_item-IsIndexed : it'.size ≡ it.size → IsIndexed (put_item m it')
  put_item-IsIndexed e =
      let w = amend-IsIndexed in
      record {
        ascending = w.ascending;
        within = w.within;
        index = w.index;
        tidy_keys = w.tidy_keys;
        keyed = w.keyed;
        sized = omega (arith, w.sized);
      }

  pub put_item-Holds : Holds (put_item m it') it'
  put_item-Holds =
      let f' : find_seq it'.stored.seq m.items ≡ some it = rw same.0 f in find-put it' it m.items f'

-- `resize` of an item whose content has changed.
pub resize-IsIndexed :
    (m : Machine) (it it' : MemItem)
    → IsIndexed m
    → Holds m it
    → Alike it it'
    → it'.size ≡ it.size
    → IsIndexed (resize m it')
unfolding resize
resize-IsIndexed m it it' v f same e =
    let n = size it'.stored + it'.body_n + it'.ckpt_n in
    rw e (amend-IsIndexed m it (record it' { size = n }) v f same)

pub set_checkpoint-IsIndexed :
    (m : Machine) (it : MemItem) (cp : Bytes)
    → IsIndexed m
    → Holds m it
    → IsIndexed (set_checkpoint m it cp)
unfolding set_checkpoint
set_checkpoint-IsIndexed m it cp v f =
    resize-IsIndexed m it (with_checkpoint it cp 0 0) v f (refl, refl, refl, refl) refl

-- What follows a move of an item: the moved item changes, with or without its size.
module _ (m : Machine) (it : MemItem) (st : State) (dep : String) (v : IsIndexed m)
    (f : Holds m it) where
  m' : Machine
  m' = (move m it st dep).0

  moved-Holds : Holds m' (moved it st dep)
  unfolding m'
  moved-Holds =
      subst (Holds (move m it st dep).0) (move-item m it st dep) (move-Holds m it st dep f)

  pub move-put :
      (it' : MemItem)
      → Alike (moved it st dep) it'
      → it'.size ≡ it.size
      → IsIndexed (put_item (move m it st dep).0 it')
        × Holds (put_item (move m it st dep).0 it') it'
  unfolding m'
  move-put it' same e =
      let w = move-IsIndexed m it st dep v f in
      (
        put_item-IsIndexed (move m it st dep).0 (moved it st dep) it' w moved-Holds same e,
        put_item-Holds (move m it st dep).0 (moved it st dep) it' w moved-Holds same,
      )

  pub move-resize :
      (it' : MemItem)
      → Alike (moved it st dep) it'
      → it'.size ≡ it.size
      → IsIndexed (resize (move m it st dep).0 it')
  unfolding m'
  move-resize it' same e =
      resize-IsIndexed (move m it st dep).0 (moved it st dep) it' (move-IsIndexed m it st dep v f)
        moved-Holds same e

module _ (m : Machine) (it : MemItem) (v : IsIndexed m) (f : Holds m it) where
  pub apply_nack-IsIndexed :
      (at next : ℕ) (err b : String) (r : Bool) → IsIndexed (apply_nack m it at next err b r)
  unfolding apply_nack
  apply_nack-IsIndexed at next err b r =
      let dep = or_same it.stored.blocked_on b in
      rw (move-item m it pending dep) (
        move-resize m it pending dep v f (nacked (moved it pending dep) at next err r)
          (refl, refl, refl, refl) refl)

  pub apply_release-IsIndexed : IsIndexed (apply_release m it)
  unfolding apply_release
  apply_release-IsIndexed =
      let dep = it.stored.blocked_on in
      rw (move-item m it pending dep)
        (move-put m it pending dep v f (released (moved it pending dep)) (refl, refl, refl, refl)
          refl).0

  pub apply_park-IsIndexed : (at : ℕ) (reason : String) → IsIndexed (apply_park m it at reason)
  unfolding apply_park
  apply_park-IsIndexed at reason =
      let dep = it.stored.blocked_on in
      rw (move-item m it parked dep) (
        move-resize m it parked dep v f (park_item (moved it parked dep) at reason)
          (refl, refl, refl, refl) refl)

  pub apply_requeue-IsIndexed :
      (replace : Bool) (cp : Bytes) → IsIndexed (apply_requeue m it replace cp)
  unfolding apply_requeue
  apply_requeue-IsIndexed replace cp =
      let dep = it.stored.blocked_on in
      let it' = requeued (moved it pending dep) in
      let (w, g) = move-put m it pending dep v f it' (refl, refl, refl, refl) refl in
      rw (move-item m it pending dep) (
        ground
          (arith, w, set_checkpoint-IsIndexed (put_item (move m it pending dep).0 it') it' cp w g))
