-- ===== src/Web/RequestGate/Spacing.antt =====
-- Requests keep their distance, and none passes while the provider is blocked:
-- src/web-tools/search/search-request-gate.ts.
use o_pi.Common.{
  ◌↔◌, ℕ, ◌+◌, ◌-◌, ◌≤◌, ◌<◌, false, ltb, List, [], ◌∷◌, ◌≡◌, refl, arith, Bool-cases, inl, inr,
}
use o_pi.Web.RequestGate.{
  Settings, Gate, new_gate, Result, ready, blocked, Moment, before_request, wait_ms,
  mark_provider_blocked, mark_all, sleep,
}

-- The clock does not go back before a call or between its first two readings.
pub record Runs (t : Moment) (after : ℕ) : Type 0 where
  pub check : after ≤ t.at_check
  pub interval : t.at_check ≤ t.at_interval

pub data Event : Type 0 where
  request : Moment → Event
  blocks : ℕ → Event

-- The gate after some events, with the times of the requests that were let through, the latest
-- first, and the time of the last event.
pub record Trace : Type 0 where
  pub gate : Gate
  pub passed : List ℕ
  pub now : ℕ

abbrev passes : ℕ → Result → List ℕ → List ℕ
passes now ready ts = now ∷ ts
passes now _ ts = ts

unfoldable pub step : Settings → Trace → Event → Trace
step s tr (request t) =
    let (g, r, now) = before_request s t tr.gate in
    record { gate = g; passed = passes now r tr.passed; now = now }
step s tr (blocks now) = record tr { gate = mark_provider_blocked s now tr.gate; now = now }

abbrev pub Allowed : Trace → Event → Type 0
Allowed tr (request t) = Runs t tr.now
Allowed tr (blocks now) = tr.now ≤ now

pub data Reach (s : Settings) : Trace → Type 0 where
  start : Reach s (record { gate = new_gate; passed = []; now = 0 })
  next : {tr : Trace} → Reach s tr → (e : Event) → Allowed tr e → Reach s (step s tr e)

-- Neighbours in the list are at least the distance apart.
abbrev pub Spaced : ℕ → List ℕ → Type 0
Spaced d [] = Unit
Spaced d (a ∷ []) = Unit
Spaced d (a ∷ b ∷ ts) = (b + d ≤ a) × Spaced d (b ∷ ts)

-- The next request is not due before the distance from the latest one.
abbrev LastBefore : ℕ → ℕ → List ℕ → Type 0
LastBefore d due [] = Unit
LastBefore d due (a ∷ ts) = a + d ≤ due

record Invariant (s : Settings) (tr : Trace) : Type 0 where
  spaced : Spaced s.min_interval_ms tr.passed
  last : LastBefore s.min_interval_ms tr.gate.next_request_at tr.passed

Spaced-cons :
    (d due a : ℕ) (ts : List ℕ) → LastBefore d due ts → due ≤ a → Spaced d ts → Spaced d (a ∷ ts)
Spaced-cons d due a [] l h sp = tt
Spaced-cons d due a (b ∷ ts) l h sp = (omega arith, sp)

next-mark_all :
    (s : Settings) (ts : List ℕ) (g : Gate) → (mark_all s ts g).next_request_at ≡ g.next_request_at
unfolding mark_all
next-mark_all s [] g = refl
next-mark_all s (t ∷ ts) g = next-mark_all s ts (mark_provider_blocked s t g)

-- A call leaves the due time as it was, or passes at a time when a request is due.
data Way (s : Settings) (t : Moment) (g : Gate) : Type 0 where
  stays :
      (before_request s t g).0.next_request_at ≡ g.next_request_at
      → ((now : ℕ) (ts : List ℕ) → passes now (before_request s t g).1 ts ≡ ts)
      → Way s t g
  goes :
      (before_request s t g).0.next_request_at ≡ (before_request s t g).2 + s.min_interval_ms
      → (before_request s t g).1 ≡ ready
      → g.next_request_at ≤ (before_request s t g).2
      → Way s t g

way : (s : Settings) (t : Moment) (g : Gate) → Way s t g
unfolding before_request sleep wait_ms
way s t g = elim (Bool-cases (ltb 0 (g.blocked_until - t.at_check))) [
  | inl shut ↦ stays (rw shut refl) (λ now ts. rw shut refl)
  | inr open' ↦ elim (Bool-cases (ltb 0 (g.next_request_at - t.at_interval))) [
    | inl waits ↦ elim (Bool-cases t.gives_up) [
      | inl gone ↦
          stays (rw (open', waits, gone) (next-mark_all s t.marks g))
            (λ now ts. rw (open', waits, gone) refl)
      | inr slept ↦
          goes (rw (open', waits, slept) refl) (rw (open', waits, slept) refl)
            (rw (open', waits, slept) (omega arith))
    ]
    | inr due ↦ goes (rw (open', due) refl) (rw (open', due) refl) (rw (open', due) (ground arith))
  ]
]

step-Invariant :
    (s : Settings) (tr : Trace) (e : Event)
    → Invariant s tr
    → Allowed tr e
    → Invariant s (step s tr e)
unfolding step mark_provider_blocked
step-Invariant s tr (blocks now) v h = record { spaced = v.spaced; last = v.last }
step-Invariant s tr (request t) v h = elim (way s t tr.gate) [
  | stays same kept ↦ record {
    spaced = rw (kept (before_request s t tr.gate).2 tr.passed) v.spaced;
    last = rw (kept (before_request s t tr.gate).2 tr.passed, same) v.last;
  }
  | goes due passed late ↦ record {
    spaced = rw passed (
        Spaced-cons s.min_interval_ms tr.gate.next_request_at (before_request s t tr.gate).2
          tr.passed v.last late v.spaced);
    last = rw (passed, due) (omega arith);
  }
]

-- From a new gate, whatever is asked and blocked without clearing the gate, any two requests that are
-- let through one after the other are at least the interval apart, if the clock never goes back and
-- a sleep that is not given up lasts at least as long as it is asked to.
pub Reach-Spaced : (s : Settings) (tr : Trace) → Reach s tr → Spaced s.min_interval_ms tr.passed
Reach-Spaced s tr r = (go r).spaced
  where
    go : {tr : Trace} → Reach s tr → Invariant s tr
    go start = record { spaced = tt; last = tt }
    go (next {tr} r e h) = step-Invariant s tr e (go r) h

-- A call is refused exactly while the provider is blocked at its first reading of the clock, with
-- the time that is left.
pub blocked_iff :
    (s : Settings) (t : Moment) (g : Gate) (n : ℕ)
    → ((before_request s t g).1 ≡ blocked n)
      ↔ ((t.at_check < g.blocked_until) × (t.at_check + n ≡ g.blocked_until))
unfolding before_request
blocked_iff s t g n = ground arith

-- The block is not tested again after the wait: a request that waits passes although the provider
-- was marked as blocked meanwhile, for longer than the wait.
pub mark_during_wait_ignored :
    (s : Settings) (t : Moment) (g : Gate) (now : ℕ)
    → g.blocked_until ≤ t.at_check
    → 0 < wait_ms t g
    → t.gives_up ≡ false
    → t.marks ≡ now ∷ []
    → (before_request s t g).2 < now + s.blocked_cooldown_ms
    → ((before_request s t g).1 ≡ ready)
      × ((before_request s t g).2 < (before_request s t g).0.blocked_until)
unfolding before_request mark_all wait_ms sleep
mark_during_wait_ignored s t g now free waits stays' marked long = ground arith
