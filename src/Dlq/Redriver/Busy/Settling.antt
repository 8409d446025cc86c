-- ===== src/Dlq/Redriver/Busy/Settling.antt =====
-- dlq/redrive.go: settling a record changes neither the records that are busy nor their number.
use Prim.Native.String.{String, ◌++◌ as ◌+++◌}
use go_guard_lib.Prelude.{
  ℕ, ◌≡◌, refl, Bool, true, ◌&&◌, not, leb, Option, none, some, Bool-cases, inl, inr,
}
use go_guard_lib.Errors.{Err, live, as_blocked, as_open, Blocked, is_permanent, any_link}
use go_guard_lib.Dlq.Machine.Leasing.{Lease}
use go_guard_lib.Dlq.Store.{Store}
use go_guard_lib.Dlq.Redriver.{
  Redriver, RedriveCounter, store_failure, is_lost_link, counted, uncounted, park, block, hold,
  block_options, gave_up, retry_options, settle_other, settle_open, settle_failed, settle, parked,
  blocked, retried, succeeded, named_or,
}

module _ {S : Type 0} (ops : Store S) where
  abbrev pub Same : Redriver → Redriver → Type 0
  Same r r' = (r'.active ≡ r.active) × (r'.inflight ≡ r.inflight)

  store_failure-Same : (e : Err) (r : Redriver) → Same r (store_failure e r)
  unfolding store_failure
  store_failure-Same e r = elim (Bool-cases (any_link is_lost_link e)) [
    | inl t ↦ rw (t) (refl, refl)
    | inr n ↦ rw (n) (refl, refl)
  ]

  counted-Same :
      (k : RedriveCounter) (f : Redriver → Redriver) (a : S × Option Err) (r : Redriver)
      → Same r (f r)
      → Same r (counted ops k f a r).1
  counted-Same k f (s, none) r same = same
  counted-Same k f (s, some e) r same = store_failure-Same e r

  uncounted-Same : (a : S × Option Err) (r : Redriver) → Same r (uncounted ops a r).1
  uncounted-Same (s, none) r = (refl, refl)
  uncounted-Same (s, some e) r = store_failure-Same e r

  pub park-Same :
      (s : S) (l : Lease) (reason : String) (now : ℕ) (r : Redriver)
      → Same r (park ops s l reason now r).1
  unfolding park
  park-Same s l reason now r =
      counted-Same parked (λ x. x) (ops.park s live l.leased_record.id l.token reason now) r
        (refl, refl)

  block-Same :
      (s : S) (l : Lease) (dep : String) (refund : Bool) (cause : Err) (now : ℕ) (r : Redriver)
      → Same r (block ops s l dep refund cause now r).1
  unfolding block
  block-Same s l dep refund cause now r =
      let n = l.leased_record.attempts in
      let o = block_options r n dep refund cause in
      elim (Bool-cases (not refund && leb r.cfg.max_attempts n)) [
        | inl t ↦ rw (t) (park-Same s l (gave_up ops r n cause) now r)
        | inr f ↦ rw (f) (
            counted-Same blocked (hold dep now) (ops.nack s live l.leased_record.id l.token o now) r
              (refl, refl))
      ]

  settle_other-Same :
      (s : S) (l : Lease) (e : Err) (ended : Bool) (now : ℕ) (r : Redriver)
      → Same r (settle_other ops s l e ended now r).1
  settle_other-Same s l e ended now r =
      let n = l.leased_record.attempts in
      let o = retry_options r n e in
      elim (Bool-cases (is_permanent e)) [
        | inl t ↦ rw (t) (park-Same s l ("permanent failure: " +++ r.cfg.redact e) now r)
        | inr f ↦ elim (Bool-cases ended) [
          | inl t ↦ rw (f, t) (uncounted-Same (ops.release s live l.leased_record.id l.token) r)
          | inr f' ↦ elim (Bool-cases (leb r.cfg.max_attempts n)) [
            | inl t ↦ rw (f, f', t) (park-Same s l (gave_up ops r n e) now r)
            | inr f'' ↦
                rw (f, f', f'')
                  (counted-Same retried (λ x. x) (ops.nack s live l.leased_record.id l.token o now)
                    r (refl, refl))
          ]
        ]
      ]

  settle_open-Same :
      (s : S) (l : Lease) (e : Err) (o : Option String) (ended : Bool) (now : ℕ) (r : Redriver)
      → Same r (settle_open ops s l e o ended now r).1
  settle_open-Same s l e (some name) ended now r =
      block-Same s l (named_or name l.leased_record.blocked_on) true e now r
  settle_open-Same s l e none ended now r = settle_other-Same s l e ended now r

  settle_failed-Same :
      (s : S) (l : Lease) (e : Err) (b : Option Blocked) (ended : Bool) (now : ℕ) (r : Redriver)
      → Same r (settle_failed ops s l e b ended now r).1
  settle_failed-Same s l e (some b) ended now r =
      block-Same s l (named_or b.dependency l.leased_record.blocked_on) b.refund e now r
  settle_failed-Same s l e none ended now r = settle_open-Same s l e (as_open e) ended now r

  pub settle-Same :
      (s : S) (l : Lease) (err : Option Err) (ended : Bool) (now : ℕ) (r : Redriver)
      → Same r (settle ops s l err ended now r).1
  unfolding settle
  settle-Same s l none ended now r =
      counted-Same succeeded (λ x. x) (ops.ack s live l.leased_record.id l.token) r (refl, refl)
  settle-Same s l (some e) ended now r = settle_failed-Same s l e (as_blocked e) ended now r
