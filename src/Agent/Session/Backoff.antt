-- ===== src/Agent/Session/Backoff.antt =====
-- agent/internal/transport/session.go, `Run`: the waits between connections.
use llm_hub.Agent.Session.{
  Turn, stopped, panicked, waited, jitter, int64, next_backoff, reconnect, or_default, session_run,
  second,
}
use llm_hub.Base.{
  ℕ, zero, suc, ◌+◌, ◌*◌, ◌^◌, ◌<◌, ◌≤◌, ◌≡◌, ◌≢◌, true, some, List, [], ◌∷◌, nth, min, any, ◌||◌,
  arith, Bool-cases, inl, inr,
}
use llm_hub.Base.Int.{ℤ, pos, min_ℤ}

-- The backoff after k turns.
abbrev pub backoff_after : ℕ → ℕ → ℕ → ℕ
backoff_after first cap k = min (first * 2 ^ k) cap

int64_small : (n : ℕ) → n < 2 ^ 63 → int64 n ≡ pos n
unfolding int64
int64_small n h = ground arith

next_backoff_lem :
    (b cap : ℕ) → b ≤ 2 ^ 61 → cap ≤ 2 ^ 61 → next_backoff b (pos cap) ≡ pos (min (b * 2) cap)
unfolding next_backoff min_ℤ
next_backoff_lem b cap h k = rw (int64_small (b * 2) (omega arith)) (ground arith)

pow_suc : (k : ℕ) → 2 ^ suc k ≡ 2 ^ k + 2 ^ k
pow_suc k = omega arith

scaled_le : (m n p : ℕ) → m ≤ n → m * p ≤ n * p
scaled_le m n zero h = omega arith
scaled_le m n (suc p) h = omega (arith, scaled_le m n p h, h)

spread : (b p : ℕ) → b * 2 * p ≡ b * (p + p)
spread b zero = omega arith
spread b (suc p) = omega (arith, spread b p)

-- A turn more doubles what the cap allows.
backoff_after_next :
    (b cap k : ℕ) → backoff_after (min (b * 2) cap) cap k ≤ backoff_after b cap (suc k)
backoff_after_next b cap k =
    let next : min (b * 2) cap * 2 ^ k ≤ b * 2 ^ suc k =
      rw (pow_suc k, ← spread b (2 ^ k))
        (scaled_le (min (b * 2) cap) (b * 2) (2 ^ k) (omega arith)) in
    omega (arith, next)

reconnect_lem :
    (cap b : ℕ) (ts : List Turn)
    → b ≤ cap
    → cap ≤ 2 ^ 61
    → ((k w : ℕ) → nth k (reconnect (pos cap) ts (pos b)).0 ≡ some w → w ≤ backoff_after b cap k)
      × ¬ ((reconnect (pos cap) ts (pos b)).1 ≡ panicked)
unfolding reconnect
reconnect_lem cap b [] small bound = (λ k w h. absurd (cc h), λ h. cc h)
reconnect_lem cap b (t ∷ ts) small bound =
    let next = min (b * 2) cap in
    let at = next_backoff_lem b cap (omega arith) bound in
    let (waits, fine) = reconnect_lem cap next ts (omega arith) bound in
    elim (Bool-cases t.cancelled_connected) [
      | inl early ↦ rw (early, reconnect) (λ k w h. absurd (cc h), λ h. cc h)
      | inr on ↦ elim (Bool-cases t.cancelled_waiting) [
        | inl late ↦ (
          λ k w h. only k w (ground (arith, on, late, h)),
          λ h. absurd (ground (arith, on, late, h)),
        )
        | inr through ↦
            let all : reconnect (pos cap) (t ∷ ts) (pos b)
                ≡ waited (jitter t.draw b) (reconnect (pos cap) ts (pos next)) =
              ground (arith, on, through, at) in
            (λ k w h. more waits k w (rw all at h), λ h. fine (ground (arith, rw all at h)))
      ]
    ]
  where
    drawn : (d b : ℕ) → jitter d b ≤ b
    drawn d b = grind arith

    only : (k w : ℕ) → nth k (jitter t.draw b ∷ []) ≡ some w → w ≤ backoff_after b cap k
    only zero w h = ground (arith, h, drawn t.draw b, small)
    only (suc k) w h = absurd (cc h)

    more :
        ((k w : ℕ)
          → nth k (reconnect (pos cap) ts (pos (min (b * 2) cap))).0 ≡ some w
          → w ≤ backoff_after (min (b * 2) cap) cap k)
        → (k w : ℕ)
        → nth k (waited (jitter t.draw b) (reconnect (pos cap) ts (pos (min (b * 2) cap)))).0
          ≡ some w
        → w ≤ backoff_after b cap k
    more waits zero w h = ground (arith, h, drawn t.draw b, small)
    more waits (suc k) w h = omega (arith, waits k w h, backoff_after_next b cap k)

-- The wait after the k-th connection is at most the first backoff doubled k times and at most the
-- largest backoff, and the loop never panics, whatever is drawn and whenever it is cancelled; for
-- settings, or their defaults, of which the first is at most the second and that at most 2 ^ 61
-- nanoseconds.
pub session_run_waits :
    (min_backoff max_backoff : ℤ) (turns : List Turn) (first cap : ℕ)
    → or_default min_backoff second ≡ pos first
    → or_default max_backoff (30 * second) ≡ pos cap
    → first ≤ cap
    → cap ≤ 2 ^ 61
    → ((k w : ℕ)
        → nth k (session_run min_backoff max_backoff turns).0 ≡ some w
        → w ≤ min (first * 2 ^ k) cap)
      × ((session_run min_backoff max_backoff turns).1 ≢ panicked)
unfolding session_run
session_run_waits min_backoff max_backoff turns first cap low high small bound =
    rw (low, high, session_run) (reconnect_lem cap first turns small bound)

going-reconnect :
    (cap b : ℕ) (ts : List Turn)
    → b ≤ cap
    → cap ≤ 2 ^ 61
    → any (λ (t : Turn). t.cancelled_connected || t.cancelled_waiting) ts ≡ true
    → (reconnect (pos cap) ts (pos b)).1 ≡ stopped
unfolding reconnect
going-reconnect cap b [] small bound h = cc
going-reconnect cap b (t ∷ ts) small bound h =
    let at = next_backoff_lem b cap (omega arith) bound in
    let rest = going-reconnect cap (min (b * 2) cap) ts (omega arith) bound in
    elim (Bool-cases t.cancelled_connected) [
      | inl early ↦ ground (arith, early)
      | inr on ↦ elim (Bool-cases t.cancelled_waiting) [
        | inl late ↦ ground (arith, on, late)
        | inr through ↦ ground (arith, on, through, at, rest, h)
      ]
    ]

-- The loop of connections stops without an error when it is cancelled, be it during a connection
-- or during a wait, on whatever turn; for settings, or their defaults, of which the first is at
-- most the second and that at most 2 ^ 61 nanoseconds.
pub session_run_stops :
    (min_backoff max_backoff : ℤ) (turns : List Turn) (first cap : ℕ)
    → or_default min_backoff second ≡ pos first
    → or_default max_backoff (30 * second) ≡ pos cap
    → first ≤ cap
    → cap ≤ 2 ^ 61
    → any (λ (t : Turn). t.cancelled_connected || t.cancelled_waiting) turns ≡ true
    → (session_run min_backoff max_backoff turns).1 ≡ stopped
unfolding session_run
session_run_stops min_backoff max_backoff turns first cap low high small bound h =
    rw (low, high, session_run) (going-reconnect cap first turns small bound h)
