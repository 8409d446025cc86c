-- ===== src/Engine/Totals.antt =====
-- internal/engine/engine.go: the totals of the rolling window against the sums over its buckets,
-- under every sequence of calls.
use go_guard_lib.Prelude.{
  ℕ, zero, suc, ◌+◌, ◌-◌, ◌/◌, ◌%◌, ◌<◌, ◌≡◌, min, length, get_or, List, [], ◌∷◌, set, map,
  replicate, refl, length-set, length-replicate, sum_by, sum_by-set, sum_by-replicate, arith,
}
use go_guard_lib.Engine.{
  Bucket, RollingWindow, empty_bucket, num_buckets, new_rolling_window, clear_next, clear, rotate,
  reset, success, failure, record_retry, failure_rate_bps, counts,
}

pub record IsExact (w : RollingWindow) : Type 0 where
  pub ticking : 0 < w.bucket_duration
  pub nonempty : 0 < length w.buckets
  pub in_range : w.head < length w.buckets
  pub successes : w.total_success ≡ sum_by (λ b. b.success) w.buckets
  pub failures : w.total_failure ≡ sum_by (λ b. b.failure) w.buckets
  pub latencies : w.total_latency ≡ sum_by (λ b. b.total_latency) w.buckets
  pub retries : w.total_retries ≡ sum_by (λ b. b.retry_count) w.buckets

pub next-lt : (n i : ℕ) → 0 < n → i % n < n
next-lt n i h = grind arith

-- One field at a time: `old` leaves the sum when the bucket is emptied.
cleared :
    (f : Bucket → ℕ) (bs : List Bucket) (i t : ℕ)
    → i < length bs
    → f empty_bucket ≡ 0
    → t ≡ sum_by f bs
    → t - f (get_or bs i empty_bucket) ≡ sum_by f (set bs i empty_bucket)
cleared f bs i t h z e = omega (arith, sum_by-set f bs i empty_bucket empty_bucket h)

pub clear_next-IsExact : (w : RollingWindow) → IsExact w → IsExact (clear_next w)
unfolding clear_next
clear_next-IsExact w v =
    let n = length w.buckets in
    let i = (w.head + 1) % n in
    let lt : i < n = next-lt n (w.head + 1) v.nonempty in
    let len : length (set w.buckets i empty_bucket) ≡ n = length-set w.buckets i empty_bucket in
    record {
      ticking = v.ticking;
      nonempty = omega (arith, len, v.nonempty);
      in_range = omega (arith, len, lt);
      successes = cleared (λ b. b.success) w.buckets i w.total_success lt refl v.successes;
      failures = cleared (λ b. b.failure) w.buckets i w.total_failure lt refl v.failures;
      latencies = cleared (λ b. b.total_latency) w.buckets i w.total_latency lt refl v.latencies;
      retries = cleared (λ b. b.retry_count) w.buckets i w.total_retries lt refl v.retries;
    }

pub clear-IsExact : (n : ℕ) (w : RollingWindow) → IsExact w → IsExact (clear n w)
unfolding clear
clear-IsExact zero w v = v
clear-IsExact (suc n) w v = clear-IsExact n (clear_next w) (clear_next-IsExact w v)

pub rotate-IsExact : (w : RollingWindow) (now : ℕ) → IsExact w → IsExact (rotate w now)
unfolding rotate
rotate-IsExact w now v =
    ground (
      arith,
      clear-IsExact (min ((now - w.last_update) / w.bucket_duration) (length w.buckets)) w v,
    )

sum_by-empty :
    (f : Bucket → ℕ) (bs : List Bucket)
    → f empty_bucket ≡ 0
    → sum_by f (map (λ _. empty_bucket) bs) ≡ 0
sum_by-empty f [] z = refl
sum_by-empty f (b ∷ bs) z = omega (arith, sum_by-empty f bs z)

length-empty : (bs : List Bucket) → length (map (λ _. empty_bucket) bs) ≡ length bs
length-empty [] = refl
length-empty (b ∷ bs) = omega (arith, length-empty bs)

pub reset-IsExact : (w : RollingWindow) (now : ℕ) → IsExact w → IsExact (reset w now)
unfolding reset
reset-IsExact w now v = record {
  ticking = v.ticking;
  nonempty = omega (arith, length-empty w.buckets, v.nonempty);
  in_range = omega (arith, length-empty w.buckets, v.nonempty);
  successes = omega (arith, sum_by-empty (λ b. b.success) w.buckets refl);
  failures = omega (arith, sum_by-empty (λ b. b.failure) w.buckets refl);
  latencies = omega (arith, sum_by-empty (λ b. b.total_latency) w.buckets refl);
  retries = omega (arith, sum_by-empty (λ b. b.retry_count) w.buckets refl);
}

-- One field at a time: the current bucket is replaced, and the total moves with it.
replaced :
    (f : Bucket → ℕ) (w : RollingWindow) (b : Bucket) (t t' : ℕ)
    → w.head < length w.buckets
    → t ≡ sum_by f w.buckets
    → t' + f (get_or w.buckets w.head empty_bucket) ≡ t + f b
    → t' ≡ sum_by f (set w.buckets w.head b)
replaced f w b t t' h e d = omega (arith, sum_by-set f w.buckets w.head empty_bucket b h)

module _ (w : RollingWindow) (v : IsExact w) where
  current : Bucket
  current = get_or w.buckets w.head empty_bucket

  -- The current bucket may be replaced, if the totals move with it.
  count-IsExact :
      (b : Bucket) (s f l r : ℕ)
      → s + current.success ≡ w.total_success + b.success
      → f + current.failure ≡ w.total_failure + b.failure
      → l + current.total_latency ≡ w.total_latency + b.total_latency
      → r + current.retry_count ≡ w.total_retries + b.retry_count
      → IsExact (record w {
        buckets = set w.buckets w.head b;
        total_success = s;
        total_failure = f;
        total_latency = l;
        total_retries = r;
      })
  unfolding current
  count-IsExact b s f l r hs hf hl hr = record {
    ticking = v.ticking;
    nonempty = omega (arith, length-set w.buckets w.head b, v.nonempty);
    in_range = omega (arith, length-set w.buckets w.head b, v.in_range);
    successes = replaced (λ b. b.success) w b w.total_success s v.in_range v.successes hs;
    failures = replaced (λ b. b.failure) w b w.total_failure f v.in_range v.failures hf;
    latencies = replaced (λ b. b.total_latency) w b w.total_latency l v.in_range v.latencies hl;
    retries = replaced (λ b. b.retry_count) w b w.total_retries r v.in_range v.retries hr;
  }

pub success-IsExact :
    (w : RollingWindow) (now latency_us : ℕ) → IsExact w → IsExact (success w now latency_us)
unfolding success current
success-IsExact w now latency_us v =
    count-IsExact (rotate w now) (rotate-IsExact w now v) _ _ _ _ _ (omega arith) (omega arith)
      (omega arith) (omega arith)

pub failure-IsExact : (w : RollingWindow) (now : ℕ) → IsExact w → IsExact (failure w now)
unfolding failure current
failure-IsExact w now v =
    count-IsExact (rotate w now) (rotate-IsExact w now v) _ _ _ _ _ (omega arith) (omega arith)
      (omega arith) (omega arith)

pub record_retry-IsExact : (w : RollingWindow) (now : ℕ) → IsExact w → IsExact (record_retry w now)
unfolding record_retry current
record_retry-IsExact w now v =
    count-IsExact (rotate w now) (rotate-IsExact w now v) _ _ _ _ _ (omega arith) (omega arith)
      (omega arith) (omega arith)

pub counts-IsExact : (w : RollingWindow) (now : ℕ) → IsExact w → IsExact (counts w now).0
unfolding counts
counts-IsExact w now v = ground (arith, rotate-IsExact w now v)

pub new-IsExact :
    (window bucket_duration now : ℕ)
    → 0 < bucket_duration
    → IsExact (new_rolling_window window bucket_duration now)
unfolding new_rolling_window
new-IsExact window d now h =
    let n = num_buckets window d in
    let len : length (replicate n empty_bucket) ≡ n = length-replicate n empty_bucket in
    let pos : 0 < n = ground arith in
    record {
      ticking = h;
      nonempty = omega (arith, len, pos);
      in_range = omega (arith, len, pos);
      successes = omega (arith, sum_by-replicate (λ b. b.success) n empty_bucket refl);
      failures = omega (arith, sum_by-replicate (λ b. b.failure) n empty_bucket refl);
      latencies = omega (arith, sum_by-replicate (λ b. b.total_latency) n empty_bucket refl);
      retries = omega (arith, sum_by-replicate (λ b. b.retry_count) n empty_bucket refl);
    }

-- A call on the window, at a clock reading.
pub data WindowCall : Type 0 where
  successes : ℕ → ℕ → WindowCall
  failures retries rates tallies resets : ℕ → WindowCall

unfoldable pub apply_call : RollingWindow → WindowCall → RollingWindow
apply_call w (WindowCall.successes now latency_us) = success w now latency_us
apply_call w (WindowCall.failures now) = failure w now
apply_call w (WindowCall.retries now) = record_retry w now
apply_call w (WindowCall.rates now) = (failure_rate_bps w now).0
apply_call w (WindowCall.tallies now) = (counts w now).0
apply_call w (WindowCall.resets now) = reset w now

unfoldable pub apply_calls : RollingWindow → List WindowCall → RollingWindow
apply_calls w [] = w
apply_calls w (c ∷ cs) = apply_calls (apply_call w c) cs

apply_call-IsExact : (w : RollingWindow) (c : WindowCall) → IsExact w → IsExact (apply_call w c)
unfolding apply_call failure_rate_bps
apply_call-IsExact w (WindowCall.successes now l) v = success-IsExact w now l v
apply_call-IsExact w (WindowCall.failures now) v = failure-IsExact w now v
apply_call-IsExact w (WindowCall.retries now) v = record_retry-IsExact w now v
apply_call-IsExact w (WindowCall.rates now) v = rotate-IsExact w now v
apply_call-IsExact w (WindowCall.tallies now) v = counts-IsExact w now v
apply_call-IsExact w (WindowCall.resets now) v = reset-IsExact w now v

apply_calls-IsExact :
    (w : RollingWindow) (cs : List WindowCall) → IsExact w → IsExact (apply_calls w cs)
unfolding apply_calls
apply_calls-IsExact w [] v = v
apply_calls-IsExact w (c ∷ cs) v =
    apply_calls-IsExact (apply_call w c) cs (apply_call-IsExact w c v)

-- For a positive bucket duration, after any sequence of calls on a new window, whatever the clock
-- read at each, the four running totals equal the sums of their field over the buckets, there is
-- at least one bucket, and the head is an index of one.
pub totals-IsExact :
    (window bucket_duration now : ℕ) (cs : List WindowCall)
    → 0 < bucket_duration
    → IsExact (apply_calls (new_rolling_window window bucket_duration now) cs)
totals-IsExact window d now cs h = apply_calls-IsExact _ cs (new-IsExact window d now h)
