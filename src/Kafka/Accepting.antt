-- ===== src/Kafka/Accepting.antt =====
-- kafka/consumer.go: messages taken from the client and handed to the workers, partitions given and taken
-- away, and pauses.
pub mod Drained
use Prim.Native.String.{String, ◌++◌ as ◌+++◌}
use go_guard_lib.Prelude.{
  ℕ, zero, suc, ◌+◌, Bool, true, false, ◌&&◌, not, if◌then◌else◌, ltb, ◌==◌, Option, none, some,
  List, [], ◌∷◌, ◌++◌, length, mem_str,
}
use go_guard_lib.Errors.{Err, plain, wrapped}
use go_guard_lib.Dlq.Record.{Bytes}
use go_guard_lib.Pipeline.Execute.{Input, Result}
use go_guard_lib.Kafka.{Message, Partition, Task, Consumer, add, received, Outcome}
use go_guard_lib.Kafka.Maps.{get, put}
use go_guard_lib.Kafka.Committing.{has}
use go_guard_lib.Kafka.Queueing.{send}
use go_guard_lib.Kafka.Completing.{Meanwhile, complete}

abbrev order_key_of : (List ℕ → String) → String → Bytes → String
order_key_of text topic none = ""
order_key_of text topic (some []) = ""
order_key_of text topic (some (b ∷ bs)) = topic +++ ("\0" +++ text (b ∷ bs))

-- The strings that `dlq.KafkaIDIn` and `string(key)` make.
pub record Texts : Type 0 where
  pub id_of : String → ℕ → ℕ → String
  pub text : List ℕ → String

unfoldable pub input_of : Texts → Bool → Message → Input
input_of ts ignore_key_order m = record {
  id = ts.id_of m.tp.topic m.tp.index m.offset;
  source = record { kind = "kafka"; name = m.tp.topic; partition = m.tp.index; offset = m.offset };
  key = m.key;
  value = m.value;
  headers = m.headers;
  order_key = if ignore_key_order then "" else order_key_of ts.text m.tp.topic m.key;
}

abbrev pub is_next : Option ℕ → ℕ → Bool
is_next none o = true
is_next (some n) o = n == o

abbrev pub is_past : Option ℕ → ℕ → Bool
is_past none o = false
is_past (some n) o = ltb n o

-- The first message of an assignment is where progress starts.
abbrev pub frontier_at : Option ℕ → Option ℕ → ℕ → Option ℕ
frontier_at none f o = some o
frontier_at (some n) f o = f

abbrev pub is_failing : Partition → Bool
is_failing p = elim p.failed_at [ none ↦ false | some o ↦ true ]

abbrev pub reseek_error : Option Err → Option Err
reseek_error none = none
reseek_error (some e) = some (wrapped 44 e)

-- A message that is the partition's next one.
unfoldable pub take_next : Texts → Message → Partition → Consumer → Consumer
unfolding input_of put
take_next ts m p c =
    let p' = record p {
      frontier = frontier_at p.next p.frontier m.offset;
      next = some (m.offset + 1);
    } in
    let c' = record c { parts = put m.tp p' c.parts } in
    let t : Task = record { m = m; input = input_of ts c.cfg.ignore_key_order m; gen = p.gen } in
    if has m.offset p.completed
    then c'
    else add received (record c' { backlog = c.backlog ++ t ∷ [] })

abbrev pub accept_in : Texts → Option Err → Message → Option Partition → Consumer → Outcome
accept_in ts seek m none c = (c, none)
accept_in ts seek m (some p) c =
    if is_failing p
    then (c, none)
    else (if is_next p.next m.offset
        then (take_next ts m p c, none)
        else (if is_past p.next m.offset then (c, reseek_error seek) else (c, none)))

-- The client's answer to the seek is given.
unfoldable pub accept : Texts → Option Err → Message → Consumer → Outcome
unfolding take_next get
accept ts seek m c =
    if mem_str m.tp.topic c.cfg.topics
    then accept_in ts seek m (get m.tp c.parts) c
    else (c, some (wrapped 45 (plain 106)))

-- What running a message gives, and what happens meanwhile.
pub record Running : Type 0 where
  pub exec : Task → Result × Option Err
  pub during : Task → Meanwhile

abbrev pub is_current : Task → Option Partition → Bool
is_current t none = false
is_current t (some p) = (p.gen == t.gen) && not (is_failing p)

abbrev pub start : Task → Option Partition → Consumer → Consumer
start t none c = c
start t (some p) c = record c {
  inflight = c.inflight + 1;
  parts = put t.m.tp (record p { inflight = p.inflight + 1 }) c.parts;
}

abbrev pub run_inline : Running → Task → Consumer → Outcome
run_inline w t c =
    let (res, err) = w.exec t in complete (w.during t) (record { task = t; res = res; err = err }) c

-- One turn of `dispatchBacklog`, with the task taken from the backlog.
unfoldable pub dispatch_one : Running → Task → Consumer → Outcome
unfolding get put send complete
dispatch_one w t c =
    let c' = start t (get t.m.tp c.parts) c in
    if not (is_current t (get t.m.tp c.parts))
    then (c, none)
    else (if c.cfg.pooled then (send t c', none) else run_inline w t c')

abbrev pub turn : Running → List Task → Consumer → Outcome
turn w [] c = (c, none)
turn w (t ∷ ts) c = dispatch_one w t (record c { backlog = ts })

-- Whether there is a task, and room for it.
abbrev pub has_turn : Consumer → Bool
has_turn c = ltb 0 (length c.backlog) && ltb c.inflight c.cfg.max_in_flight

-- The loop of `dispatchBacklog`, at most `n` turns of it.
unfoldable pub dispatch : Running → ℕ → Consumer → Outcome
unfolding dispatch_one
dispatch w zero c = (c, none)
dispatch w (suc n) c =
    let (c', failed) = turn w c.backlog c in
    let rest = dispatch w n c' in
    if has_turn c then elim failed [ some e ↦ (c', some e) | none ↦ rest ] else (c, none)

-- A turn takes a task from the backlog, so there are no more turns than tasks.
unfoldable pub dispatch_backlog : Running → Consumer → Outcome
unfolding dispatch
dispatch_backlog w c = dispatch w (length c.backlog) c
