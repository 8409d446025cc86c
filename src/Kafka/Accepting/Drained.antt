-- ===== src/Kafka/Accepting/Drained.antt =====
-- kafka/consumer.go: the loop of `dispatchBacklog` ends because there is nothing to take, or no room.
use text.Mathlib.Text.{◌==◌ as str_eq}
use go_guard_lib.Prelude.{
  ℕ, zero, suc, ◌≤◌, ◌≡◌, refl, sym, ◌∙◌, false, not, Option, none, some, List, [], ◌∷◌, length,
  arith, Bool-cases, Option-cases, inl, inr,
}
use go_guard_lib.Kafka.{Partition, Task, Finished, Consumer}
use go_guard_lib.Kafka.Maps.{get}
use go_guard_lib.Kafka.Queueing.{key_of, queue_of, send, send_keyed}
use go_guard_lib.Kafka.Completing.Backlog.{held, complete-held}
use go_guard_lib.Kafka.Accepting.{
  Running, start, is_current, dispatch_one, turn, has_turn, dispatch, dispatch_backlog,
}

send_keyed-held :
    (t : Task) (o : Option (List Task)) (c : Consumer) → held (send_keyed t o c) ≡ held c
send_keyed-held t none c = refl
send_keyed-held t (some q) c = refl

send-held : (t : Task) (c : Consumer) → held (send t c) ≡ held c
unfolding send
send-held t c = elim (Bool-cases (str_eq t.input.order_key "")) [
  | inl e ↦ rw (e) refl
  | inr n ↦ rw (n) (send_keyed-held t (queue_of (key_of t) c.key_queues) c)
]

start-held : (t : Task) (o : Option Partition) (c : Consumer) → held (start t o c) ≡ held c
start-held t none c = refl
start-held t (some p) c = refl

dispatch_one-held : (w : Running) (t : Task) (c : Consumer) → held (dispatch_one w t c).0 ≤ held c
unfolding dispatch_one
dispatch_one-held w t c =
    let o = get t.m.tp c.parts in
    let c' = start t o c in
    let r : Finished = record { task = t; res = (w.exec t).0; err = (w.exec t).1 } in
    let started = start-held t o c in
    elim (Bool-cases (not (is_current t o))) [
      | inl e ↦ simp (e) (omega arith)
      | inr n ↦ elim (Bool-cases c.cfg.pooled) [
        | inl e ↦ simp (n, e) (omega (arith, send-held t c', started))
        | inr f ↦ simp (n, f) (omega (arith, complete-held (w.during t) r c', started))
      ]
    ]

turn-held :
    (w : Running) (ts : List Task) (c : Consumer)
    → 1 ≤ length ts
    → suc (held (turn w ts c).0) ≤ length ts
turn-held w [] c e = omega (arith, e)
turn-held w (t ∷ ts) c e = omega (arith, dispatch_one-held w t (record c { backlog = ts }))

dispatch-drained :
    (w : Running) (n : ℕ) (c : Consumer)
    → held c ≤ n
    → (dispatch w n c).1 ≡ none
    → has_turn (dispatch w n c).0 ≡ false
unfolding dispatch
dispatch-drained w zero c e ok = ground (arith, e)
dispatch-drained w (suc n) c e ok = elim (Bool-cases (has_turn c)) [
  | inl t ↦ elim (Option-cases (turn w c.backlog c).1) [
    | inl none_failed ↦
        let c' = (turn w c.backlog c).0 in
        let some_task : 1 ≤ held c = ground (arith, t) in
        let fewer : held c' ≤ n = omega (arith, e, turn-held w c.backlog c some_task) in
        let ok' : (dispatch w n c').1 ≡ none = sym (rw (t, none_failed) refl) ∙ ok in
        rw (t, none_failed) (dispatch-drained w n c' fewer ok')
    | inr (x, failed) ↦
        let bad : some x ≡ none = sym (rw (t, failed) refl) ∙ ok in ground (arith, bad)
  ]
  | inr f ↦ rw (f) f
]

-- The loop of `dispatchBacklog` takes no more turns than there are tasks in the backlog. If none fails,
-- it leaves an empty backlog, or as many messages in flight as there may be.
pub dispatch_backlog-drained :
    (w : Running) (c : Consumer)
    → (dispatch_backlog w c).1 ≡ none
    → has_turn (dispatch_backlog w c).0 ≡ false
unfolding dispatch_backlog
dispatch_backlog-drained w c ok = dispatch-drained w (length c.backlog) c (omega arith) ok
