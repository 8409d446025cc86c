-- ===== src/Engine.antt =====
-- internal/engine/engine.go: the rolling window of call outcomes. Counters and times are unbounded
-- numbers (int64 in the code), `now` is the clock reading of the call, and the lock is not
-- modelled: each method is one step. A difference of times is compared in additive form. The
-- totals are at least the bucket that leaves the window (see Engine/Totals.antt), so the
-- subtraction of `clear_next` is exact.
pub mod Totals
pub mod Rates
mod Examples
use go_guard_lib.Prelude.{
  ℕ, zero, suc, ◌+◌, ◌-◌, ◌*◌, ◌/◌, ◌%◌, min, if◌then◌else◌, ltb, ◌==◌, List, length, get_or, set,
  replicate, map,
}

pub data BreakerState : Type 0 where
  state_closed state_open state_half_open : BreakerState

pub record Bucket : Type 0 where
  pub success : ℕ
  pub failure : ℕ
  pub total_latency : ℕ
  pub retry_count : ℕ

abbrev pub empty_bucket : Bucket
empty_bucket = record { success = 0; failure = 0; total_latency = 0; retry_count = 0 }

pub record RollingWindow : Type 0 where
  pub buckets : List Bucket
  pub last_update : ℕ
  pub total_success : ℕ
  pub total_failure : ℕ
  pub total_latency : ℕ
  pub total_retries : ℕ
  pub bucket_duration : ℕ
  pub window_duration : ℕ
  pub head : ℕ

abbrev num_buckets : ℕ → ℕ → ℕ
num_buckets window bucket_duration =
    if window / bucket_duration == 0 then 1 else window / bucket_duration

unfoldable pub new_rolling_window : ℕ → ℕ → ℕ → RollingWindow
new_rolling_window window bucket_duration now = record {
  buckets = replicate (num_buckets window bucket_duration) empty_bucket;
  last_update = now;
  total_success = 0;
  total_failure = 0;
  total_latency = 0;
  total_retries = 0;
  bucket_duration = bucket_duration;
  window_duration = window;
  head = 0;
}

-- The body of the loop in `rotate`: drop the oldest bucket and make it the current one.
pub clear_next : RollingWindow → RollingWindow
clear_next w =
    let next = (w.head + 1) % length w.buckets in
    let old = get_or w.buckets next empty_bucket in
    record w {
      head = next;
      total_success = w.total_success - old.success;
      total_failure = w.total_failure - old.failure;
      total_latency = w.total_latency - old.total_latency;
      total_retries = w.total_retries - old.retry_count;
      buckets = set w.buckets next empty_bucket;
    }

pub clear : ℕ → RollingWindow → RollingWindow
clear zero w = w
clear (suc n) w = clear n (clear_next w)

unfoldable pub rotate : RollingWindow → ℕ → RollingWindow
unfolding clear clear_next
rotate w now =
    let diff = (now - w.last_update) / w.bucket_duration in
    if ltb now (w.last_update + w.bucket_duration)
    then w
    else record (clear (min diff (length w.buckets)) w) {
      last_update = w.last_update + diff * w.bucket_duration;
    }

unfoldable pub reset : RollingWindow → ℕ → RollingWindow
reset w now = record w {
  buckets = map (λ _. empty_bucket) w.buckets;
  total_success = 0;
  total_failure = 0;
  total_latency = 0;
  total_retries = 0;
  head = 0;
  last_update = now;
}

abbrev current : RollingWindow → Bucket
current w = get_or w.buckets w.head empty_bucket

-- A latency of 0 stands for one that is not positive, which is not added.
count_success : RollingWindow → ℕ → RollingWindow
count_success w latency_us = record w {
  buckets = set w.buckets w.head (record (current w) {
    success = (current w).success + 1;
    total_latency = (current w).total_latency + latency_us;
  });
  total_success = w.total_success + 1;
  total_latency = w.total_latency + latency_us;
}

unfoldable pub success : RollingWindow → ℕ → ℕ → RollingWindow
unfolding count_success
success w now latency_us = count_success (rotate w now) latency_us

count_failure : RollingWindow → RollingWindow
count_failure w = record w {
  buckets = set w.buckets w.head (record (current w) { failure = (current w).failure + 1 });
  total_failure = w.total_failure + 1;
}

unfoldable pub failure : RollingWindow → ℕ → RollingWindow
unfolding count_failure
failure w now = count_failure (rotate w now)

count_retry : RollingWindow → RollingWindow
count_retry w = record w {
  buckets = set w.buckets w.head (record (current w) { retry_count = (current w).retry_count + 1 });
  total_retries = w.total_retries + 1;
}

unfoldable pub record_retry : RollingWindow → ℕ → RollingWindow
unfolding count_retry
record_retry w now = count_retry (rotate w now)

abbrev pub share_bps : ℕ → ℕ → ℕ
share_bps part total = if total == 0 then 0 else part * 10000 / total

-- The rate of the window as `rotate` leaves it, with that window.
unfoldable pub failure_rate_bps : RollingWindow → ℕ → RollingWindow × ℕ
failure_rate_bps w now =
    let w' = rotate w now in (w', share_bps w'.total_failure (w'.total_success + w'.total_failure))

unfoldable pub retry_rate_bps : RollingWindow → ℕ
retry_rate_bps w = share_bps w.total_retries (w.total_success + w.total_failure + w.total_retries)

unfoldable pub avg_latency_us : RollingWindow → ℕ
avg_latency_us w = if w.total_success == 0 then 0 else w.total_latency / w.total_success

unfoldable pub counts : RollingWindow → ℕ → RollingWindow × ℕ × ℕ
counts w now =
    let w' = if ltb (w.last_update + w.bucket_duration) now then rotate w now else w in
    (w', w'.total_success, w'.total_failure)
