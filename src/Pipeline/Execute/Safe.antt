-- ===== src/Pipeline/Execute/Safe.antt =====
-- pipeline/pipeline.go: what the result of `Execute` promises, and how a message goes on from the store.
use Prim.Native.String.{String}
use text.Mathlib.Text.{◌==◌ as str_eq}
use go_guard_lib.Prelude.{
  subst, ℕ, suc, ◌+◌, ◌≤◌, ◌<◌, ◌≡◌, refl, ◌⊎◌, true, false, Option, none, some, List, [], length,
  arith, Option-cases, Bool-cases, inl, inr,
}
use go_guard_lib.Errors.{Err, Blocked, live, as_blocked, is_permanent}
use go_guard_lib.Dlq.Record as DlqRecord
use go_guard_lib.Dlq.Record.{Bytes, Record}
use go_guard_lib.Dlq.Memory.{Read, read, not_read}
use go_guard_lib.Dlq.Store.{Store, IsAppended}
use go_guard_lib.Pipeline.{Pipeline, Checkpoint, new_checkpoint}
use go_guard_lib.Pipeline.Run.{Run, Surroundings, advance, fresh, in_checkpoint}
use go_guard_lib.Pipeline.Run.Once.{runs, hit, advance-runs}
use go_guard_lib.Pipeline.Run.Well.{ran_well, advance-ran_well}
use go_guard_lib.Pipeline.Run.Completed.{advance-completes}
use go_guard_lib.Pipeline.Run.Fits.{fits, advance-fits, new_checkpoint-fits, load-encode}
use go_guard_lib.Pipeline.Execute.{
  stored_as, Input, Result, done, deferred, parked, store, as_record, store_failed, store_result,
  execute, ended, handler,
}

-- The run of a message from the start.
abbrev pub live_run : (Err → String) → Pipeline → Surroundings → Run × Option Err
live_run redact p around = advance redact p around (fresh true (new_checkpoint p))

abbrev pub IsStored : Result → Type 0
IsStored r = (r ≡ deferred) ⊎ (r ≡ parked)

abbrev pub state_of : Result → DlqRecord.State
state_of parked = DlqRecord.parked
state_of _ = DlqRecord.pending

-- The store holds the message as a record with that state and that checkpoint, where it had none with
-- the message's ID; otherwise the record it had is untouched. `before` and `after` are what is read
-- under the ID.
abbrev pub IsHeld : Input → DlqRecord.State → Bytes → Read Record → Read Record → Type 0
IsHeld m state cp (read old) after = after ≡ read old
IsHeld m state cp (not_read e) (read r) =
    (r.id ≡ m.id)
    × (r.state ≡ state)
    × (r.source ≡ m.source)
    × (r.key ≡ m.key)
    × (r.value ≡ m.value)
    × (r.headers ≡ m.headers)
    × (r.order_key ≡ m.order_key)
    × (r.checkpoint ≡ cp)
IsHeld m state cp (not_read e) (not_read e') = ⊥

module _ {S : Type 0} (ops : Store S) (redact : Err → String) (encode : Checkpoint → List ℕ) where
  execute-no_error :
      (p : Pipeline) (around : Surroundings) (s : S) (m : Input) (now : ℕ)
      → (execute ops redact encode p around s m now).1 ≡ done
      → ((live_run redact p around).1 ≡ none) × ((execute ops redact encode p around s m now).0 ≡ s)
  unfolding execute store
  execute-no_error p around s m now d = elim (Option-cases (live_run redact p around).1) [
    | inl n ↦ ground (arith, d, n)
    | inr (e, n) ↦ ground (arith, d, n)
  ]

  -- Done: each step was called once, the call succeeded, and the store is as it was. A call of a step is
  -- all the attempts at its `Run` that its policy allows.
  pub execute-done :
      (p : Pipeline) (around : Surroundings) (s : S) (m : Input) (now : ℕ) (j : ℕ)
      → (execute ops redact encode p around s m now).1 ≡ done
      → j < length p.steps
      → (runs j (live_run redact p around).0.events ≡ 1)
        × (ran_well j (live_run redact p around).0.events ≡ 1)
        × ((execute ops redact encode p around s m now).0 ≡ s)
  unfolding new_checkpoint
  execute-done p around s m now j d below =
      let r = fresh true (new_checkpoint p) in
      let ended = execute-no_error p around s m now d in
      let all : length (advance redact p around r).0.cp.completed ≡ length p.steps =
        advance-completes redact p around r ended.0 (omega arith) in
      (
        ground (arith, below, all, advance-runs redact p around r j),
        ground (arith, below, all, advance-ran_well redact p around r j),
        ended.1,
      )

  as_record-IsHeld :
      (m : Input) (state : DlqRecord.State) (dep text : String) (cp : Bytes)
      (before after : Read Record)
      → IsAppended (as_record m state dep text cp) before after
      → IsHeld m state cp before after
  as_record-IsHeld m state dep text cp (read old) after h = h
  as_record-IsHeld m state dep text cp (not_read e) (read r) h =
      (h.0, h.1, h.2, h.3, h.4, h.5, h.6, h.7)
  as_record-IsHeld m state dep text cp (not_read e) (not_read e') h = h

  -- What is promised of the store and the result, when the store was `s`.
  abbrev pub Promises : Input → Bytes → S → S × Result × Option Err → Type 0
  Promises m cp s (s', r, e) =
      IsStored r → IsHeld m (state_of r) cp (ops.get s live m.id) (ops.get s' live m.id)

  stored_as-Promises :
      (m : Input) (cp : Bytes) (s : S) (state : DlqRecord.State) (dep text : String) (ok : Result)
      (a : S × Option Err)
      → (a.1 ≡ none
          → IsAppended
              (as_record m state dep text cp)
              (ops.get s live m.id)
              (ops.get a.0 live m.id))
      → state ≡ state_of ok
      → Promises m cp s (stored_as ops ok a)
  stored_as-Promises m cp s state dep text ok (s', none) law eq = λ stored.
      subst (λ x. IsHeld m x cp (ops.get s live m.id) (ops.get s' live m.id)) eq
        (as_record-IsHeld m state dep text cp (ops.get s live m.id) (ops.get s' live m.id)
          (law refl))
  stored_as-Promises m cp s state dep text ok (s', some e) law eq = λ stored. ground (arith, stored)

  pub store-Promises :
      (s : S) (m : Input) (cp : Bytes) (state : DlqRecord.State) (dep text : String) (now : ℕ)
      (ok : Result)
      → state ≡ state_of ok
      → Promises m cp s (store ops s m cp state dep text now ok)
  unfolding store
  store-Promises s m cp state dep text now ok eq =
      let r : Record = as_record m state dep text cp in
      stored_as-Promises m cp s state dep text ok (ops.append s live r now) (ops.append-get s r now)
        eq

  store_failed-Promises :
      (s : S) (m : Input) (cp : Bytes) (now : ℕ) (e : Err) (b : Option Blocked)
      → Promises m cp s (store_failed ops redact s m cp now e b)
  store_failed-Promises s m cp now e (some b) =
      store-Promises s m cp DlqRecord.pending b.dependency (redact e) now deferred refl
  store_failed-Promises s m cp now e none = elim (Bool-cases (is_permanent e)) [
    | inl p ↦ rw (p) (store-Promises s m cp DlqRecord.parked "" (redact e) now parked refl)
    | inr n ↦ rw (n) (λ stored. ground (arith, stored))
  ]

  store_result-Promises :
      (s : S) (m : Input) (now : ℕ) (r : Run × Option Err)
      → Promises m (some (encode (in_checkpoint r.0))) s (store_result ops redact encode s m now r)
  store_result-Promises s m now (r, none) = λ stored. ground (arith, stored)
  store_result-Promises s m now (r, some e) =
      store_failed-Promises s m (some (encode (in_checkpoint r))) now e (as_blocked e)

  pub execute-Promises :
      (p : Pipeline) (around : Surroundings) (s : S) (m : Input) (now : ℕ)
      → Promises m
          (some (encode (in_checkpoint (live_run redact p around).0)))
          s
          (execute ops redact encode p around s m now)
  unfolding execute
  execute-Promises p around s m now = elim (Bool-cases (str_eq m.id "")) [
    | inl empty ↦ rw (empty) (λ stored. ground (arith, stored))
    | inr named ↦ rw (named) (store_result-Promises s m now (live_run redact p around))
  ]

-- A message that is stored with its progress goes on at the step that had not finished: over both runs,
-- each step that is completed at the end was called once with success, and only the one that had not
-- finished may have been called twice. A call of a step is all the attempts at its `Run` that its
-- policy allows, which may be several.
pub handler-resumes :
    (redact : Err → String) (encode : Checkpoint → List ℕ) (decode : List ℕ → Option Checkpoint)
    (p : Pipeline) (around later : Surroundings) (j : ℕ)
    → let c = in_checkpoint (live_run redact p around).0 in
      (¬ encode c ≡ [])
      → decode (encode c) ≡ some c
      → let (r, e) = advance redact p later (fresh false c) in
        let n = length r.cp.completed in
        let total = runs j (live_run redact p around).0.events + runs j r.events in
        (handler redact decode p later (some (encode c)) ≡ ended r e)
        × (ran_well j (live_run redact p around).0.events + ran_well j r.events ≡ hit 0 n j)
        × (total ≤ hit 0 (suc n) j + hit (length c.completed) (suc (length c.completed)) j)
unfolding handler new_checkpoint
handler-resumes redact encode decode p around later j filled back =
    let c₀ = fresh true (new_checkpoint p) in
    let c = in_checkpoint (live_run redact p around).0 in
    let f : fits p c ≡ true = (advance-fits redact p around c₀ (new_checkpoint-fits p) refl).1 in
    let counts : (ran_well j (live_run redact p around).0.events
            + ran_well j (advance redact p later (fresh false c)).0.events
          ≡ hit 0 (length (advance redact p later (fresh false c)).0.cp.completed) j)
        × (runs j (live_run redact p around).0.events
              + runs j (advance redact p later (fresh false c)).0.events
            ≤ hit 0 (suc (length (advance redact p later (fresh false c)).0.cp.completed)) j
              + hit (length c.completed) (suc (length c.completed)) j) =
      ground (
        arith,
        advance-runs redact p around c₀ j,
        advance-runs redact p later (fresh false c) j,
        advance-ran_well redact p around c₀ j,
        advance-ran_well redact p later (fresh false c) j,
      ) in
    (rw (load-encode decode p c (encode c) filled back f) refl, counts.0, counts.1)
