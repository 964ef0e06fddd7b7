-- ===== src/Web/Tests.antt =====
-- The theorems on the web tools at concrete inputs.
use o_pi.Common.{List, ◌≤◌, ◌+◌, ◌<◌, text, text_eq, false, [], ◌∷◌, some, ◌≡◌, ◌↔◌, refl, arith}
use o_pi.Common.OrderedMap
use o_pi.Web.SnapshotCache
use o_pi.Web.SnapshotCache.{Snapshot, Limits}
use o_pi.Web.SnapshotCache.Bounds
use o_pi.Web.SnapshotCache.Bounds.{set-IsValid, get-IsValid}
use o_pi.Web.SnapshotCache.Recent.{get-set_self}
use o_pi.Web.SearchCache
use o_pi.Web.SearchCache.{run_singleflight, settle}
use o_pi.Web.SearchCache.Flights
use o_pi.Web.SearchCache.Flights.{runs, settles, clears, run-IsExact, singleflight}
use o_pi.Web.RequestGate.{Settings, new_gate, Moment, before_request, wait_ms, blocked, ready}
use o_pi.Web.RequestGate.Spacing.{
  start, Trace, step, next, request, Spaced, Reach-Spaced, blocked_iff, mark_during_wait_ignored,
}

abbrev small : Limits
small = record { ttl_ms = 10; max_entries = 2; max_bytes = 100 }

abbrev page : Snapshot
page = record { key = text "k"; created_at = 3; size_bytes = 60; contents = text "x" }

abbrev older : SnapshotCache.Cache
older = record {
  entries = record { key = text "j"; created_at = 1; size_bytes = 70; contents = [] } ∷ [];
  total_bytes = 70;
}

older-IsValid : Bounds.IsValid small older
older-IsValid = record { distinct = (tt, tt); exact = refl; few = omega arith; small = omega arith }

set-IsValid_example : Bounds.IsValid small (SnapshotCache.set small page older)
set-IsValid_example = set-IsValid small page older older-IsValid

get-set_self_example :
    (SnapshotCache.get small 9 (text "k") (SnapshotCache.set small page older)).1 ≡ some page
get-set_self_example =
    get-set_self small page older 9 older-IsValid (omega arith) (omega arith) (omega arith)

-- The cache is cleared during a flight, the next search flies again, and the first promise settles.
abbrev late_settle : List Flights.Call
late_settle =
    runs (text "q") ∷ clears ∷ runs (text "q") ∷ settles (text "q") 0 ∷ runs (text "q") ∷ []

run-IsExact_example : Flights.IsExact (Flights.run Flights.unwatched late_settle)
run-IsExact_example = run-IsExact late_settle

abbrev flying : SearchCache.SearchCache
flying = record { entries = []; in_flight = (text "q", 0) ∷ []; executed = 1 }

singleflight_example :
    (run_singleflight (text "q") flying ≡ (flying, 0))
    × ((run_singleflight (text "q") (settle (text "q") 0 flying)).0.executed ≡ 2)
    × ((run_singleflight (text "q") (settle (text "q") 0 flying)).1 ≡ 1)
unfolding OrderedMap.get text text_eq
singleflight_example = singleflight (text "q") flying 0 refl

abbrev pace : Settings
pace = record { min_interval_ms = 15; blocked_cooldown_ms = 600 }

abbrev first_moment : Moment
first_moment = record { at_check = 20; at_interval = 20; late = 0; gives_up = false; marks = [] }

abbrev beginning : Trace
beginning = record { gate = new_gate; passed = []; now = 0 }

abbrev waiting : Moment
waiting = record { at_check = 21; at_interval = 21; late = 0; gives_up = false; marks = 25 ∷ [] }

-- The second request comes after a moment and waits.
abbrev two_requests : Trace
two_requests = step pace (step pace beginning (request first_moment)) (request waiting)

second_follows : (step pace beginning (request first_moment)).now ≤ 21
unfolding step before_request
second_follows = omega arith

Reach-Spaced_example : Spaced 15 two_requests.passed
Reach-Spaced_example = Reach-Spaced pace two_requests (
    next
      (next start (request first_moment) (record { check = omega arith; interval = omega arith }))
      (request waiting) (record { check = second_follows; interval = omega arith }))

second_waits : two_requests.passed ≡ 35 ∷ 20 ∷ []
unfolding step before_request wait_ms
second_waits = refl

blocked_iff_example :
    ((before_request pace first_moment (record { next_request_at = 0; blocked_until = 50 })).1
      ≡ blocked 30)
    ↔ ((20 < 50) × (20 + 30 ≡ 50))
blocked_iff_example =
    blocked_iff pace first_moment (record { next_request_at = 0; blocked_until = 50 }) 30

mark_during_wait_ignored_example :
    ((before_request pace waiting (record { next_request_at = 35; blocked_until = 0 })).1 ≡ ready)
    × ((before_request pace waiting (record { next_request_at = 35; blocked_until = 0 })).2
        < (before_request pace waiting
            (record { next_request_at = 35; blocked_until = 0 })).0.blocked_until)
unfolding wait_ms before_request
mark_during_wait_ignored_example =
    mark_during_wait_ignored pace waiting (record { next_request_at = 35; blocked_until = 0 }) 25
      (omega arith) (omega arith) refl refl (omega arith)
