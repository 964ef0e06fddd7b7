-- ===== src/Web/RequestGate.antt =====
-- The gate of search requests: src/web-tools/search/search-request-gate.ts. The calls of the gate
-- run one after another (`exclusive`); a call reads the clock where the code does, and a
-- sleep moves it by at least what was asked for.
pub mod Spacing
use o_pi.Common.{
  ℕ, ◌+◌, ◌-◌, ◌*◌, ◌<◌, max, Bool, List, [], ◌∷◌, Option, none, some, if◌then◌else◌, ltb,
}

abbrev pub search_min_request_interval_ms : ℕ
search_min_request_interval_ms = 15 * 1000

abbrev pub search_provider_blocked_cooldown_ms : ℕ
search_provider_blocked_cooldown_ms = 10 * 60 * 1000

pub record Settings : Type 0 where
  pub min_interval_ms : ℕ
  pub blocked_cooldown_ms : ℕ

pub record Gate : Type 0 where
  pub next_request_at : ℕ
  pub blocked_until : ℕ

abbrev pub new_gate : Gate
new_gate = record { next_request_at = 0; blocked_until = 0 }

pub data Result : Type 0 where
  ready : Result
  blocked : ℕ → Result
  aborted : Result

unfoldable pub mark_provider_blocked : Settings → ℕ → Gate → Gate
mark_provider_blocked s now g = record g {
  blocked_until = max g.blocked_until (now + s.blocked_cooldown_ms);
}

-- What a call meets: the clock where `beforeRequest` first reads it and where it reads it for the
-- interval, the time that passes between that reading and the third one besides a sleep, whether the
-- signal ends the sleep (before it or during it), and the times at which others mark the provider as
-- blocked during it.
pub record Moment : Type 0 where
  pub at_check : ℕ
  pub at_interval : ℕ
  pub late : ℕ
  pub gives_up : Bool
  pub marks : List ℕ

unfoldable pub mark_all : Settings → List ℕ → Gate → Gate
unfolding mark_provider_blocked
mark_all s [] g = g
mark_all s (now ∷ ts) g = mark_all s ts (mark_provider_blocked s now g)

-- The wait that is announced and slept.
unfoldable pub wait_ms : Moment → Gate → ℕ
wait_ms t g = g.next_request_at - t.at_interval

-- The clock after `sleep`, which lasts as long as it was asked to, or none if it was given up.
unfoldable pub sleep : Moment → ℕ → Option ℕ
sleep t ms =
    if ltb 0 ms
    then (if t.gives_up then none else some (t.at_interval + ms))
    else some t.at_interval

-- The third reading of the clock, given the clock when nothing is left to wait for.
pass : Settings → Moment → ℕ → Gate → Gate × Result × ℕ
pass s t at g = (record g { next_request_at = at + t.late + s.min_interval_ms }, ready, at + t.late)

after_sleep : Settings → Moment → Gate → Option ℕ → Gate × Result × ℕ
unfolding pass
after_sleep s t g none = (g, aborted, t.at_interval)
after_sleep s t g (some at) = pass s t at g

-- The result comes with the last reading of the clock that the call made.
unfoldable pub before_request : Settings → Moment → Gate → Gate × Result × ℕ
unfolding after_sleep wait_ms sleep
before_request s t g =
    if ltb 0 (g.blocked_until - t.at_check)
    then (g, blocked (g.blocked_until - t.at_check), t.at_check)
    else if ltb 0 (wait_ms t g)
    then after_sleep s t (mark_all s t.marks g) (sleep t (wait_ms t g))
    else pass s t t.at_interval g

pub clear : Gate → Gate
clear g = new_gate
