-- ===== src/Dlq/Redriver/Settles.antt =====
-- dlq/redrive.go: what a handler's result does to its record in the store.
use Prim.Native.String.{String, ◌++◌ as ◌+++◌}
use go_guard_lib.Prelude.{
  ℕ, ◌≡◌, refl, ◌⊎◌, inl, inr, Bool, true, ◌&&◌, not, leb, Option, none, some, Bool-cases,
}
use go_guard_lib.Errors.{Err, is_permanent, as_blocked, as_open, live, Blocked}
use go_guard_lib.Dlq.Machine.Leasing.{Lease}
use go_guard_lib.Dlq.Machine.Settling.{NackOptions}
use go_guard_lib.Dlq.Store.{Store}
use go_guard_lib.Dlq.Redriver.{
  Redriver, RedriveCounter, parked, blocked, retried, hold, block_options, retry_options, counted,
  uncounted, park, block, gave_up, retry_or_park, settle_other, settle_open, settle_failed, settle,
  named_or,
}

module _ {S : Type 0} (ops : Store S) where
  -- The store after the record is parked, for some reason.
  abbrev pub IsParked : S → Lease → ℕ → S → Type 0
  IsParked s l now s' =
      (reason : String) × (s' ≡ (ops.park s live l.leased_record.id l.token reason now).0)

  -- The store after the record goes back to the queue.
  abbrev pub IsNacked : S → Lease → ℕ → S → Type 0
  IsNacked s l now s' =
      (o : NackOptions) × (s' ≡ (ops.nack s live l.leased_record.id l.token o now).0)

  abbrev pub IsReleased : S → Lease → S → Type 0
  IsReleased s l s' = s' ≡ (ops.release s live l.leased_record.id l.token).0

  abbrev pub IsKept : S → Lease → ℕ → S → Type 0
  IsKept s l now s' = IsParked s l now s' ⊎ IsNacked s l now s' ⊎ IsReleased s l s'

  counted-store :
      (k : RedriveCounter) (f : Redriver → Redriver) (a : S × Option Err) (r : Redriver)
      → (counted ops k f a r).0 ≡ a.0
  counted-store k f (s, none) r = refl
  counted-store k f (s, some e) r = refl

  uncounted-store : (a : S × Option Err) (r : Redriver) → (uncounted ops a r).0 ≡ a.0
  uncounted-store (s, none) r = refl
  uncounted-store (s, some e) r = refl

  park-IsParked :
      (s : S) (l : Lease) (reason : String) (now : ℕ) (r : Redriver)
      → IsParked s l now (park ops s l reason now r).0
  unfolding park
  park-IsParked s l reason now r = (
    reason,
    counted-store parked (λ x. x) (ops.park s live l.leased_record.id l.token reason now) r,
  )

  block-IsKept :
      (s : S) (l : Lease) (dep : String) (refund : Bool) (cause : Err) (now : ℕ) (r : Redriver)
      → IsKept s l now (block ops s l dep refund cause now r).0
  unfolding block
  block-IsKept s l dep refund cause now r =
      let n = l.leased_record.attempts in
      elim (Bool-cases (not refund && leb r.cfg.max_attempts n)) [
        | inl t ↦ rw (t) (inl (park-IsParked s l (gave_up ops r n cause) now r))
        | inr f ↦
            let o = block_options r n dep refund cause in
            rw (f) (
              inr (
                inl (
                  o,
                  counted-store blocked (hold dep now)
                      (ops.nack s live l.leased_record.id l.token o now) r,
                )))
      ]

  retry_or_park-IsKept :
      (s : S) (l : Lease) (e : Err) (now : ℕ) (r : Redriver)
      → IsKept s l now (retry_or_park ops s l e now r).0
  retry_or_park-IsKept s l e now r =
      let n = l.leased_record.attempts in
      let o = retry_options r n e in
      elim (Bool-cases (leb r.cfg.max_attempts n)) [
        | inl t ↦ rw (t) (inl (park-IsParked s l (gave_up ops r n e) now r))
        | inr f ↦ rw (f) (
            inr (
              inl (
                o,
                counted-store retried (λ x. x) (ops.nack s live l.leased_record.id l.token o now) r,
              )))
      ]

  settle_other-IsKept :
      (s : S) (l : Lease) (e : Err) (ended : Bool) (now : ℕ) (r : Redriver)
      → IsKept s l now (settle_other ops s l e ended now r).0
  settle_other-IsKept s l e ended now r = elim (Bool-cases (is_permanent e)) [
    | inl t ↦ rw (t) (inl (park-IsParked s l ("permanent failure: " +++ r.cfg.redact e) now r))
    | inr f ↦ elim (Bool-cases ended) [
      | inl t ↦
          rw (f, t) (inr (inr (uncounted-store (ops.release s live l.leased_record.id l.token) r)))
      | inr f' ↦ rw (f, f') (retry_or_park-IsKept s l e now r)
    ]
  ]

  settle_open-IsKept :
      (s : S) (l : Lease) (e : Err) (o : Option String) (ended : Bool) (now : ℕ) (r : Redriver)
      → IsKept s l now (settle_open ops s l e o ended now r).0
  settle_open-IsKept s l e (some name) ended now r =
      block-IsKept s l (named_or name l.leased_record.blocked_on) true e now r
  settle_open-IsKept s l e none ended now r = settle_other-IsKept s l e ended now r

  settle_failed-IsKept :
      (s : S) (l : Lease) (e : Err) (b : Option Blocked) (ended : Bool) (now : ℕ) (r : Redriver)
      → IsKept s l now (settle_failed ops s l e b ended now r).0
  settle_failed-IsKept s l e (some b) ended now r =
      block-IsKept s l (named_or b.dependency l.leased_record.blocked_on) b.refund e now r
  settle_failed-IsKept s l e none ended now r = settle_open-IsKept s l e (as_open e) ended now r

  -- A record whose handler failed is not removed: the one call on the store that settles it parks it,
  -- puts it back in the queue, or releases it.
  pub settle-IsKept :
      (s : S) (l : Lease) (e : Err) (ended : Bool) (now : ℕ) (r : Redriver)
      → IsKept s l now (settle ops s l (some e) ended now r).0
  unfolding settle
  settle-IsKept s l e ended now r = settle_failed-IsKept s l e (as_blocked e) ended now r
