-- ===== src/Dht/RateLimiter.antt =====
-- internal/dht/hardening/ratelimit.go. Times are numbers of nanoseconds of a clock that does not run
-- back; counts are unbounded.
pub mod Laws
use jelly_torrent.Base.{
  ℕ, zero, suc, ◌+◌, ◌-◌, ◌*◌, ◌/◌, ◌<◌, Bool, true, false, Option, none, some, List, [], ◌∷◌,
  Bytes, length, ltb, leb, if◌then◌else◌,
}
use jelly_torrent.Base.Assoc.{Assoc, find, store}

pub record IpWindow : Type 0 where
  pub prev_count : ℕ
  pub curr_count : ℕ
  pub curr_start : ℕ

pub record RateLimiter : Type 0 where
  pub windows : Assoc IpWindow
  pub limit : ℕ
  pub window : ℕ
  pub max_ips : ℕ

-- A limit that is not positive is 0 here, as is a window or a maximum.
abbrev pub or_default : ℕ → ℕ → ℕ
or_default n d = if ltb 0 n then n else d

unfoldable pub new_rate_limiter : ℕ → ℕ → ℕ → RateLimiter
new_rate_limiter limit window max_ips = record {
  windows = [];
  limit = or_default limit 50;
  window = or_default window 60000000000;
  max_ips = or_default max_ips 100000;
}

abbrev pub new_window : ℕ → IpWindow
new_window now = record { prev_count = 0; curr_count = 0; curr_start = now }

abbrev pub is_expired : ℕ → ℕ → IpWindow → Bool
is_expired window now w = leb (2 * window) (now - w.curr_start)

-- `cleanupLocked`: the entries that stay, and how many were removed.
unfoldable pub sweep : ℕ → ℕ → Assoc IpWindow → Assoc IpWindow × ℕ
sweep window now [] = ([], 0)
sweep window now ((ip, w) ∷ ws) =
    let (kept, removed) = sweep window now ws in
    if is_expired window now w then (kept, suc removed) else ((ip, w) ∷ kept, removed)

unfoldable pub cleanup : ℕ → RateLimiter → ℕ × RateLimiter
unfolding sweep
cleanup now rl =
    let (kept, removed) = sweep rl.window now rl.windows in (removed, record rl { windows = kept })

-- The reset, the rotation, or neither.
unfoldable pub roll : ℕ → ℕ → IpWindow → IpWindow
roll window now w =
    if is_expired window now w
    then new_window now
    else if leb window (now - w.curr_start)
    then record { prev_count = w.curr_count; curr_count = 0; curr_start = w.curr_start + window }
    else w

abbrev pub count_query : IpWindow → IpWindow
count_query w = record w { curr_count = suc w.curr_count }

unfoldable pub estimate : ℕ → ℕ → IpWindow → ℕ
estimate window now w = w.prev_count * (window - (now - w.curr_start)) / window + w.curr_count

-- The entry of an address, and the entries with it; a new one may be one too many.
unfoldable pub entry : Bytes → ℕ → RateLimiter → IpWindow × RateLimiter
unfolding find store cleanup
entry ip now rl = elim (find ip rl.windows) [
  | some w ↦ (w, rl)
  | none ↦
      let more = record rl { windows = store ip (new_window now) rl.windows } in
      (new_window now, if ltb rl.max_ips (length more.windows) then (cleanup now more).1 else more)
]

unfoldable pub allow : Bytes → ℕ → RateLimiter → Bool × RateLimiter
unfolding entry roll estimate
allow ip now rl =
    let (w, rl') = entry ip now rl in
    let w' = count_query (roll rl.window now w) in
    (leb (estimate rl.window now w') rl.limit, record rl' { windows = store ip w' rl'.windows })
