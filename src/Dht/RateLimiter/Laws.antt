-- ===== src/Dht/RateLimiter/Laws.antt =====
-- internal/dht/hardening/ratelimit.go: what the limiter lets through, and what a sweep forgets.
use jelly_torrent.Base.{
  ℕ, ◌+◌, ◌≤◌, ◌<◌, ◌≡◌, refl, sym, ap, ◌∙◌, inl, inr, true, Option, none, some, [], ◌∷◌, Bytes,
  bytes_eq, bytes_eq_sound, arith, leb, leb→le, if◌then◌else◌, Bool-cases,
}
use mathlib.Core.Path.{subst}
use jelly_torrent.Base.Assoc.{Assoc, find, store, find-store, Distinct, store-Distinct}
use jelly_torrent.Dht.RateLimiter.{
  IpWindow, RateLimiter, new_window, is_expired, sweep, cleanup, roll, count_query, estimate, entry,
  allow,
}

abbrev met : ℕ → Option IpWindow → IpWindow
met now none = new_window now
met now (some w) = w

-- The window that a query of `ip` meets.
abbrev current : Bytes → ℕ → Assoc IpWindow → IpWindow
current ip now ws = met now (find ip ws)

abbrev counted : Bytes → ℕ → RateLimiter → IpWindow
counted ip now rl = count_query (roll rl.window now (current ip now rl.windows))

entry-current :
    (ip : Bytes) (now : ℕ) (rl : RateLimiter) → (entry ip now rl).0 ≡ current ip now rl.windows
unfolding entry
entry-current ip now rl = ground arith

allow-answer :
    (ip : Bytes) (now : ℕ) (rl : RateLimiter)
    → (allow ip now rl).0 ≡ leb (estimate rl.window now (counted ip now rl)) rl.limit
unfolding allow
allow-answer ip now rl =
    ap (λ w. leb (estimate rl.window now (count_query (roll rl.window now w))) rl.limit)
      (entry-current ip now rl)

allow-stores :
    (ip : Bytes) (now : ℕ) (rl : RateLimiter)
    → find ip (allow ip now rl).1.windows ≡ some (counted ip now rl)
unfolding allow
allow-stores ip now rl =
    find-store ip _ _
    ∙ ap (λ w. some (count_query (roll rl.window now w))) (entry-current ip now rl)

-- Where `Allow` lets a query through, the address has made at most `limit` queries in its current window, this one among them.
pub allow-bounded :
    (ip : Bytes) (now : ℕ) (rl : RateLimiter)
    → (allow ip now rl).0 ≡ true
    → (w : IpWindow) × (find ip (allow ip now rl).1.windows ≡ some w) × (w.curr_count ≤ rl.limit)
allow-bounded ip now rl h =
    let w = counted ip now rl in
    (
      w,
      allow-stores ip now rl,
      unfold estimate in omega (arith, leb→le _ _ (sym (allow-answer ip now rl) ∙ h)),
    )

-- After the reset or the rotation the current window holds the present, where the window is positive and the old one did not begin in the future.
pub roll-current :
    (window now : ℕ) (w : IpWindow)
    → 0 < window
    → w.curr_start ≤ now
    → ((roll window now w).curr_start ≤ now) × (now < (roll window now w).curr_start + window)
unfolding roll
roll-current window now w pos_window past = ground arith

sweep-none :
    (window now : ℕ) (ip : Bytes) (ws : Assoc IpWindow)
    → find ip ws ≡ none
    → find ip (sweep window now ws).0 ≡ none
unfolding find sweep
sweep-none window now ip [] h = refl
sweep-none window now ip ((j, w) ∷ ws) h = ground (arith, sweep-none window now ip ws)

sweep-some :
    (window now : ℕ) (ip : Bytes) (w : IpWindow) (ws : Assoc IpWindow)
    → Distinct ws
    → find ip ws ≡ some w
    → find ip (sweep window now ws).0 ≡ (if is_expired window now w then none else some w)
unfolding find sweep
sweep-some window now ip w [] d h = cc
sweep-some window now ip w ((j, v) ∷ ws) (d, ds) h = elim (Bool-cases (bytes_eq j ip)) [
  | inl e ↦
      let gone : find ip ws ≡ none = subst (λ k. find k ws ≡ none) (bytes_eq_sound j ip e) d in
      ground (arith, sweep-none window now ip ws gone)
  | inr e ↦ ground (arith, sweep-some window now ip w ws)
]

roll-fresh : (window now : ℕ) → 0 < window → roll window now (new_window now) ≡ new_window now
unfolding roll
roll-fresh window now h = ground arith

roll-expired :
    (window now : ℕ) (w : IpWindow)
    → is_expired window now w ≡ true
    → roll window now w ≡ new_window now
unfolding roll
roll-expired window now w h = rw h refl

-- What a sweep leaves of an entry.
abbrev left_by : ℕ → ℕ → Option IpWindow → Option IpWindow
left_by window now none = none
left_by window now (some w) = if is_expired window now w then none else some w

find-sweep :
    (window now : ℕ) (ip : Bytes) (ws : Assoc IpWindow) (o : Option IpWindow)
    → Distinct ws
    → find ip ws ≡ o
    → find ip (sweep window now ws).0 ≡ left_by window now o
find-sweep window now ip ws none d h = sweep-none window now ip ws h
find-sweep window now ip ws (some w) d h = sweep-some window now ip w ws d h

roll-left_by :
    (window now : ℕ) (o : Option IpWindow)
    → 0 < window
    → roll window now (met now (left_by window now o)) ≡ roll window now (met now o)
roll-left_by window now none h = refl
roll-left_by window now (some w) h = elim (Bool-cases (is_expired window now w)) [
  | inl e ↦ rw e (roll-fresh window now h ∙ sym (roll-expired window now w e))
  | inr e ↦ rw e refl
]

sweep-counted :
    (ip : Bytes) (now : ℕ) (rl : RateLimiter)
    → 0 < rl.window
    → Distinct rl.windows
    → counted ip now (cleanup now rl).1 ≡ counted ip now rl
unfolding cleanup
sweep-counted ip now rl h d =
    ap (λ o. count_query (roll rl.window now (met now o)))
      (find-sweep rl.window now ip rl.windows (find ip rl.windows) d refl)
    ∙ ap count_query (roll-left_by rl.window now (find ip rl.windows) h)

-- A sweep forgets nothing that matters: where the window is positive and each address has one entry, a query gets the same answer after a sweep as before it.
pub allow-cleanup :
    (ip : Bytes) (now : ℕ) (rl : RateLimiter)
    → 0 < rl.window
    → Distinct rl.windows
    → (allow ip now (cleanup now rl).1).0 ≡ (allow ip now rl).0
allow-cleanup ip now rl pos_window d =
    allow-answer ip now (cleanup now rl).1
    ∙ unfold cleanup in
      ap (λ w. leb (estimate rl.window now w) rl.limit) (sweep-counted ip now rl pos_window d)
      ∙ sym (allow-answer ip now rl)

sweep-Distinct :
    (window now : ℕ) (ws : Assoc IpWindow) → Distinct ws → Distinct (sweep window now ws).0
unfolding sweep
sweep-Distinct window now [] d = tt
sweep-Distinct window now ((j, w) ∷ ws) (d, ds) =
    let rest = sweep-Distinct window now ws ds in
    elim (Bool-cases (is_expired window now w)) [
      | inl e ↦ rw e rest
      | inr e ↦ rw e (sweep-none window now j ws d, rest)
    ]

entry-Distinct :
    (ip : Bytes) (now : ℕ) (rl : RateLimiter)
    → Distinct rl.windows
    → Distinct (entry ip now rl).1.windows
unfolding entry cleanup
entry-Distinct ip now rl d =
    let more = store-Distinct ip (new_window now) rl.windows d in
    let swept = sweep-Distinct rl.window now (store ip (new_window now) rl.windows) more in
    ground arith

-- `Allow` and `Cleanup` keep one window for each address.
pub allow-Distinct :
    (ip : Bytes) (now : ℕ) (rl : RateLimiter)
    → Distinct rl.windows
    → Distinct (allow ip now rl).1.windows × Distinct (cleanup now rl).1.windows
unfolding allow cleanup
allow-Distinct ip now rl d =
    (store-Distinct ip _ _ (entry-Distinct ip now rl d), sweep-Distinct rl.window now rl.windows d)
