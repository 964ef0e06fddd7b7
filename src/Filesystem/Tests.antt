-- ===== src/Filesystem/Tests.antt =====
-- The theorems on the services on files at concrete inputs.
use o_pi.Common.{starts_with, ◌++◌, text, text_eq, false, List, [], ◌∷◌, none, some, refl}
use o_pi.Common.OrderedMap
use o_pi.Filesystem.AccessPolicy.{HostPaths, PathIdentity, lexical}
use o_pi.Filesystem.AccessPolicy.Blocking.{Verdict, blocked_match-Verdict}
use o_pi.Filesystem.MutationQueue.{Handle, new_queue, take_handle, on_abort, acquire, set_at}
use o_pi.Filesystem.MutationQueue.Exclusive.{IsValid}
use o_pi.Filesystem.MutationQueue.Disposal.{
  Event, calls, aborts, run, run-IsValid, Outcome, release-Outcome,
}

-- Three calls on one file and one on another; the first is released, the third gives up.
abbrev busy : List Event
busy =
    calls (text "a") none
    ∷ calls (text "a") (some false)
    ∷ calls (text "a") (some false)
    ∷ calls (text "b") none
    ∷ aborts 2
    ∷ []

run-IsValid_example : IsValid (run (new_queue, 0) busy).0
run-IsValid_example = run-IsValid busy

abbrev first_handle : Handle
first_handle = record { serial = 0; key = text "a"; entry = 0 }

release-Outcome_example : Outcome (run (new_queue, 0) busy).0 first_handle 0
unfolding run take_handle on_abort acquire OrderedMap.put text_eq text set_at
release-Outcome_example =
    release-Outcome (run (new_queue, 0) busy).0 first_handle 0 (run-IsValid busy) refl

-- Paths of a system with slashes, that are normal already.
abbrev plain : HostPaths
plain = record {
  normalize = λ t. t;
  is_absolute = λ t. starts_with t (text "/");
  join = λ a b. a ++ text "/" ++ b;
}

abbrev secret : PathIdentity
secret = record {
  display_path = text "a/.env";
  absolute_path = text "/w/a/.env";
  workspace_path = none;
}

blocked_match-Verdict_example :
    Verdict plain (text "/h") (text "a/.env") secret lexical (text ".git/" ∷ text ".env" ∷ [])
blocked_match-Verdict_example =
    blocked_match-Verdict plain (text "/h") (text "a/.env") secret lexical
      (text ".git/" ∷ text ".env" ∷ [])
