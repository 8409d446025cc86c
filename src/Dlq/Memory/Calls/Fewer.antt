-- ===== src/Dlq/Memory/Calls/Fewer.antt =====
-- dlq/machine.go: no operation but `insert` adds a record, and none changes the limits.
use Prim.Native.String.{String}
use go_guard_lib.Prelude.{
  ℕ, ◌+◌, ◌≤◌, ◌≡◌, refl, ◌∙◌, Bool, true, false, List, [], ◌∷◌, arith, length,
}
use go_guard_lib.Dlq.Record.{State, Bytes, size, pending, leased, parked}
use go_guard_lib.Dlq.Machine.{
  Machine, MemItem, put, put_item, delete, link, unlink, move, moved, remove,
}
use go_guard_lib.Dlq.Machine.Leasing.{leased_to, counted, grant_one, grant}
use go_guard_lib.Dlq.Machine.Settling.{
  with_checkpoint, nacked, released, park_item, requeued, or_same, set_checkpoint, resize,
  apply_nack, apply_release, apply_park, apply_requeue,
}

length-put : (y : MemItem) (xs : List MemItem) → length (put y xs) ≡ length xs
unfolding put
length-put y [] = refl
length-put y (x ∷ xs) = ground (arith, length-put y xs)

length-delete : (s : ℕ) (xs : List MemItem) → length (delete s xs) ≤ length xs
unfolding delete
length-delete s [] = omega arith
length-delete s (x ∷ xs) = ground (arith, length-delete s xs)

-- The limits stay, and no record is added.
abbrev pub NoMore : Machine → Machine → Type 0
NoMore m m' = (m'.lim ≡ m.lim) × (length m'.items ≤ length m.items)

module _ (m : Machine) (it : MemItem) where
  pub move-NoMore : (st : State) (dep : String) → NoMore m (move m it st dep).0
  unfolding move link unlink
  move-NoMore st dep = ground (arith, length-put (moved it st dep) m.items)

  pub resize-NoMore : NoMore m (resize m it)
  unfolding resize
  resize-NoMore =
      ground
        (arith, length-put (record it { size = size it.stored + it.body_n + it.ckpt_n }) m.items)

  pub put_item-NoMore : NoMore m (put_item m it)
  put_item-NoMore = ground (arith, length-put it m.items)

  pub remove-NoMore : NoMore m (remove m it)
  unfolding remove unlink
  remove-NoMore = ground (arith, length-delete it.stored.seq m.items)

NoMore-trans : (a b c : Machine) → NoMore a b → NoMore b c → NoMore a c
NoMore-trans a b c f g = (g.0 ∙ f.0, omega (arith, f.1, g.1))

pub set_checkpoint-NoMore :
    (m : Machine) (it : MemItem) (cp : Bytes) → NoMore m (set_checkpoint m it cp)
unfolding set_checkpoint
set_checkpoint-NoMore m it cp = resize-NoMore m (with_checkpoint it cp 0 0)

module _ (m : Machine) (it : MemItem) where
  move_then :
      (st : State) (dep : String)
      → (f : Machine → MemItem → Machine) → ((n : Machine) (x : MemItem) → NoMore n (f n x))
      → NoMore m (f (move m it st dep).0 (move m it st dep).1)
  move_then st dep f h =
      let r = move m it st dep in
      NoMore-trans m r.0 (f r.0 r.1) (move-NoMore m it st dep) (h r.0 r.1)

  pub nack-NoMore :
      (at next : ℕ) (err b : String) (r : Bool) → NoMore m (apply_nack m it at next err b r)
  unfolding apply_nack
  nack-NoMore at next err b r =
      move_then pending (or_same it.stored.blocked_on b) (λ n x. resize n (nacked x at next err r))
        λ n x. resize-NoMore n (nacked x at next err r)

  pub release-NoMore : NoMore m (apply_release m it)
  unfolding apply_release
  release-NoMore =
      move_then pending it.stored.blocked_on (λ n x. put_item n (released x))
        λ n x. put_item-NoMore n (released x)

  pub park-NoMore : (at : ℕ) (reason : String) → NoMore m (apply_park m it at reason)
  unfolding apply_park
  park-NoMore at reason =
      move_then parked it.stored.blocked_on (λ n x. resize n (park_item x at reason))
        λ n x. resize-NoMore n (park_item x at reason)

  pub requeue-NoMore : (replace : Bool) (cp : Bytes) → NoMore m (apply_requeue m it replace cp)
  unfolding apply_requeue
  requeue-NoMore true cp =
      move_then pending it.stored.blocked_on
        (λ n x. set_checkpoint (put_item n (requeued x)) (requeued x) cp)
        λ n x.
          NoMore-trans n (put_item n (requeued x))
            (set_checkpoint (put_item n (requeued x)) (requeued x) cp)
            (put_item-NoMore n (requeued x))
            (set_checkpoint-NoMore (put_item n (requeued x)) (requeued x) cp)
  requeue-NoMore false cp =
      move_then pending it.stored.blocked_on (λ n x. put_item n (requeued x))
        λ n x. put_item-NoMore n (requeued x)

  grant_one-NoMore : (token : String) (until : ℕ) → NoMore m (grant_one m it token until).0
  unfolding grant_one
  grant_one-NoMore token until =
      let it' = leased_to it token until in
      let r = move (put_item m it') it' leased it.stored.blocked_on in
      NoMore-trans m r.0 (put_item r.0 (counted r.1))
        (NoMore-trans m (put_item m it') r.0 (put_item-NoMore m it')
          (move-NoMore (put_item m it') it' leased it.stored.blocked_on))
        (put_item-NoMore r.0 (counted r.1))

pub grant-NoMore :
    (tokens : ℕ → String) (drawn : ℕ) (m : Machine) (its : List MemItem) (now ttl : ℕ)
    → NoMore m (grant tokens drawn m its now ttl).0
unfolding grant
grant-NoMore tokens drawn m [] now ttl = (refl, omega arith)
grant-NoMore tokens drawn m (it ∷ its) now ttl =
    let m' = (grant_one m it (tokens drawn) (now + ttl)).0 in
    NoMore-trans m m' (grant tokens (drawn + 1) m' its now ttl).0
      (grant_one-NoMore m it (tokens drawn) (now + ttl))
      (grant-NoMore tokens (drawn + 1) m' its now ttl)
