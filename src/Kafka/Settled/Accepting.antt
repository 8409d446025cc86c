-- ===== src/Kafka/Settled/Accepting.antt =====
-- kafka/consumer.go: taking a message, and handing it to a worker, commit nothing that is not safe.
use text.Mathlib.Text.{◌==◌ as str_eq}
use go_guard_lib.Prelude.{
  ℕ, ◌+◌, ◌<◌, ◌≡◌, refl, subst, true, not, Option, none, some, List, arith, Bool-cases, inl, inr,
  mem_str,
}
use go_guard_lib.Errors.{Err}
use go_guard_lib.Kafka.{Message, Partition, Task, Finished, Consumer}
use go_guard_lib.Kafka.Maps.{get}
use go_guard_lib.Kafka.Committing.{has}
use go_guard_lib.Kafka.Queueing.{key_of, queue_of, send, send_keyed}
use go_guard_lib.Kafka.Accepting.{
  Texts, accept, accept_in, take_next, frontier_at, is_failing, is_next, is_past, Running,
  dispatch_one, start, is_current,
}
use go_guard_lib.Kafka.Settled.{Fact, PartOk, IsSettled, is_before, put-PartsOk, get-PartsOk}
use go_guard_lib.Kafka.Settled.Completing.{passes, complete-IsSettled}

-- Before the first message of an assignment everything is safe: the group's committed offset is where
-- the client begins.
abbrev pub Begins : Fact → Message → Consumer → Type 0
Begins fact m c =
    (p : Partition)
    → get m.tp c.parts ≡ some p
    → p.next ≡ none
    → (o : ℕ) → o < m.offset
    → fact m.tp o ≡ true

take_next-IsSettled :
    (fact : Fact) (ts : Texts) (m : Message) (p : Partition) (c : Consumer)
    → IsSettled fact c
    → get m.tp c.parts ≡ some p
    → (p.next ≡ none → (o : ℕ) → o < m.offset → fact m.tp o ≡ true)
    → IsSettled fact (take_next ts m p c)
unfolding take_next
take_next-IsSettled fact ts m p c is e begins =
    let p' = record p {
      frontier = frontier_at p.next p.frontier m.offset;
      next = some (m.offset + 1);
    } in
    let ok = get-PartsOk fact m.tp c.parts p is.0 e in
    let ok' : PartOk fact m.tp p' = (from_next p.next refl, ok.1) in
    let put_ok = put-PartsOk fact m.tp p' c.parts is.0 ok' in
    elim (Bool-cases (has m.offset p.completed)) [
      | inl t ↦ rw (t) (put_ok, is.1, is.2, is.3)
      | inr n ↦ rw (n) (put_ok, is.1, is.2, is.3)
    ]
  where
    from_next :
        (n : Option ℕ)
        → p.next ≡ n
        → (o : ℕ) → is_before o (frontier_at n p.frontier m.offset) ≡ true
        → fact m.tp o ≡ true
    from_next none at o below = begins at o (ground (arith, below))
    from_next (some n) at o below = (get-PartsOk fact m.tp c.parts p is.0 e).0 o below

accept_in-IsSettled :
    (fact : Fact) (ts : Texts) (seek : Option Err) (m : Message) (o : Option Partition)
    (c : Consumer)
    → IsSettled fact c
    → get m.tp c.parts ≡ o
    → Begins fact m c
    → IsSettled fact (accept_in ts seek m o c).0
accept_in-IsSettled fact ts seek m none c is e begins = is
accept_in-IsSettled fact ts seek m (some p) c is e begins = elim (Bool-cases (is_failing p)) [
  | inl t ↦ rw (t) is
  | inr n ↦ elim (Bool-cases (is_next p.next m.offset)) [
    | inl t ↦ rw (n, t) (take_next-IsSettled fact ts m p c is e (begins p e))
    | inr n' ↦ elim (Bool-cases (is_past p.next m.offset)) [
      | inl t ↦ rw (n, n', t) is
      | inr f ↦ rw (n, n', f) is
    ]
  ]
]

pub accept-IsSettled :
    (fact : Fact) (ts : Texts) (seek : Option Err) (m : Message) (c : Consumer)
    → IsSettled fact c
    → Begins fact m c
    → IsSettled fact (accept ts seek m c).0
unfolding accept
accept-IsSettled fact ts seek m c is begins = elim (Bool-cases (mem_str m.tp.topic c.cfg.topics)) [
  | inl t ↦ rw (t) (accept_in-IsSettled fact ts seek m (get m.tp c.parts) c is refl begins)
  | inr n ↦ rw (n) is
]

send_keyed-IsSettled :
    (fact : Fact) (t : Task) (o : Option (List Task)) (c : Consumer)
    → IsSettled fact c
    → IsSettled fact (send_keyed t o c)
send_keyed-IsSettled fact t none c is = is
send_keyed-IsSettled fact t (some q) c is = is

send-IsSettled :
    (fact : Fact) (t : Task) (c : Consumer) → IsSettled fact c → IsSettled fact (send t c)
unfolding send
send-IsSettled fact t c is = elim (Bool-cases (str_eq t.input.order_key "")) [
  | inl e ↦ rw (e) is
  | inr n ↦ rw (n) (send_keyed-IsSettled fact t (queue_of (key_of t) c.key_queues) c is)
]

start-IsSettled :
    (fact : Fact) (t : Task) (o : Option Partition) (c : Consumer)
    → get t.m.tp c.parts ≡ o
    → IsSettled fact c
    → IsSettled fact (start t o c)
start-IsSettled fact t none c e is = is
start-IsSettled fact t (some p) c e is = (
  put-PartsOk fact t.m.tp (record p { inflight = p.inflight + 1 }) c.parts is.0
      (get-PartsOk fact t.m.tp c.parts p is.0 e),
  is.1,
  is.2,
  is.3,
)

-- What running the task gives.
abbrev pub outcome_of : Running → Task → Finished
outcome_of w t = record { task = t; res = (w.exec t).0; err = (w.exec t).1 }

start-cfg : (t : Task) (o : Option Partition) (c : Consumer) → (start t o c).cfg ≡ c.cfg
start-cfg t none c = refl
start-cfg t (some p) c = refl

pub dispatch_one-IsSettled :
    (fact : Fact) (w : Running) (t : Task) (c : Consumer)
    → IsSettled fact c
    → (passes c.cfg.skips (outcome_of w t) ≡ true → fact t.m.tp t.m.offset ≡ true)
    → IsSettled fact (dispatch_one w t c).0
unfolding dispatch_one
dispatch_one-IsSettled fact w t c is true_if =
    let o = get t.m.tp c.parts in
    let c' = start t o c in
    let is' = start-IsSettled fact t o c refl is in
    elim (Bool-cases (not (is_current t o))) [
      | inl e ↦ rw (e) is
      | inr n ↦ elim (Bool-cases c.cfg.pooled) [
        | inl e ↦ simp (n, e) (send-IsSettled fact t c' is')
        | inr f ↦
            let same = start-cfg t o c in
            let r = outcome_of w t in
            simp (n, f)
              (complete-IsSettled fact (w.during t) r c' is'
                (λ e. true_if (subst (λ g. passes g.skips r ≡ true) same e)))
      ]
    ]
