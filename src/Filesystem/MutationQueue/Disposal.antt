-- ===== src/Filesystem/MutationQueue/Disposal.antt =====
-- Whole runs of the queue, and its disposal: src/filesystem/platform/node/mutation-queue.ts.
use o_pi.Common.{
  ℕ, suc, Text, text_eq, text_eq_iff, text_eq_refl, Bool, true, false, List, [], ◌∷◌, ◌++◌, Option,
  none, some, ==_iff, ◌≡◌, ◌≢◌, refl, sym, ap, ◌∙◌, arith, ◌⊎◌, inl, inr, In, Bool-cases, some_inj,
}
use o_pi.Common.OrderedMap.{OrderedMap, get, get-delete}
use o_pi.Filesystem.MutationQueue.{
  Queue, Handle, new_queue, set_at, acquire, next_waiter, take_handle, hand_over, release_open,
  release, release_for, on_abort, reject_waiters, reject_entries, dispose,
}
use o_pi.Filesystem.MutationQueue.Exclusive.{
  IsValid, holder, Free-holder, OnePerTarget, entries_of, new_queue-IsValid, acquire-IsValid,
  release-IsValid, on_abort-IsValid, Taken, take-Taken,
}

-- What rejecting the waiters of some entries of the map leaves.
record Cleared (es : OrderedMap ℕ) (q r : Queue) : Type 0 where
  handles : r.handles ≡ q.handles
  entries : r.entries ≡ q.entries
  empty : (e : ℕ) → q.waiters e ≡ [] → r.waiters e ≡ []
  cleared : (k : Text) (e : ℕ) → get k es ≡ some e → r.waiters e ≡ []

reject_waiters-frame :
    (ts : List ℕ) (q : Queue)
    → ((reject_waiters ts q).handles ≡ q.handles)
      × ((reject_waiters ts q).entries ≡ q.entries)
      × ((reject_waiters ts q).waiters ≡ q.waiters)
unfolding reject_waiters
reject_waiters-frame [] q = (refl, refl, refl)
reject_waiters-frame (t ∷ ts) q =
    reject_waiters-frame ts
      (record q { settled = set_at t true q.settled; listening = set_at t none q.listening })

reject_entries-Cleared : (es : OrderedMap ℕ) (q : Queue) → Cleared es q (reject_entries es q).0
unfolding reject_entries get
reject_entries-Cleared [] q = record {
  handles = refl;
  entries = refl;
  empty = λ e h. h;
  cleared = λ k e h. cc;
}
reject_entries-Cleared ((k, d) ∷ es) q =
    let p = record q { waiters = set_at d [] q.waiters } in
    let (a, b, c) = reject_waiters-frame (q.waiters d) p in
    let w = reject_entries-Cleared es (reject_waiters (q.waiters d) p) in
    record {
      handles = w.handles ∙ a;
      entries = w.entries ∙ b;
      empty = λ e h. w.empty e (ap (λ f. f e) c ∙ unfold set_at in ground arith);
      cleared = λ j e h. elim (Bool-cases (text_eq k j)) [
        | inl s ↦ w.empty e (
            ap (λ f. f e) c
            ∙ unfold set_at in rw ((==_iff d e).1 (some_inj d e (ground arith))) refl)
        | inr s ↦ w.cleared j e (ground arith)
      ];
    }

-- An entry of an open handle is in the map.
entry_found :
    (hs : List Handle) (e : ℕ)
    → OnePerTarget hs
    → In e (entries_of hs)
    → (k : Text) × (holder k hs ≡ some e)
unfolding holder
entry_found [] e o m = elim m [ ]
entry_found (x ∷ hs) e (f, o) (inl p) = (x.key, rw (text_eq_refl x.key) (ap some p))
entry_found (x ∷ hs) e (f, o) (inr m) =
    let (k, h) = entry_found hs e o m in
    elim (Bool-cases (text_eq x.key k)) [
      | inl p ↦ absurd (cc (Free-holder x.key hs f, h, (text_eq_iff x.key k).0 p))
      | inr p ↦ (k, rw p h)
    ]

List-cases : (ts : List ℕ) → (ts ≡ []) ⊎ (ts ≢ [])
List-cases [] = inl refl
List-cases (t ∷ ts) = inr (λ h. cc)

-- After the queue was disposed of, no call waits at any entry, in the map or not.
all_quiet :
    (q : Queue)
    → IsValid q
    → (e : ℕ) → (reject_entries q.entries (record q { is_disposed = true })).0.waiters e ≡ []
all_quiet q v e =
    let w = reject_entries-Cleared q.entries (record q { is_disposed = true }) in
    elim (List-cases (q.waiters e)) [
      | inl h ↦ w.empty e h
      | inr n ↦
          let (k, h) = entry_found q.handles e v.exclusive (v.served e n) in
          w.cleared k e (v.held k ∙ h)
    ]

dispose-IsValid : (q : Queue) → IsValid q → IsValid (dispose q).0
unfolding dispose
dispose-IsValid q v = elim (Bool-cases q.is_disposed) [
  | inl e ↦ simp e v
  | inr e ↦ simp e (
      let w = reject_entries-Cleared q.entries (record q { is_disposed = true }) in
      record {
        exclusive = rw w.handles v.exclusive;
        held = λ k. rw (w.handles, w.entries) (v.held k);
        served = λ d n. absurd (n (all_quiet q v d));
        quiet = λ h d. all_quiet q v d;
      })
]

-- A call with its target and its signal, a release, the abort of a waiting call, the disposal.
pub data Event : Type 0 where
  calls : Text → Option Bool → Event
  releases : ℕ → Event
  aborts : ℕ → Event
  disposes : Event

-- The queue, and the number of the next call.
unfoldable pub step : Queue × ℕ → Event → Queue × ℕ
step (q, t) (calls key signal) = ((acquire key signal t q).0, suc t)
step (q, t) (releases n) = ((release n q).0, t)
step (q, t) (aborts s) = ((on_abort s q).0, t)
step (q, t) disposes = ((dispose q).0, t)

unfoldable pub run : Queue × ℕ → List Event → Queue × ℕ
unfolding step
run s [] = s
run s (x ∷ xs) = run (step s x) xs

step-IsValid : (s : Queue × ℕ) (x : Event) → IsValid s.0 → IsValid (step s x).0
unfolding step
step-IsValid (q, t) (calls key signal) v = acquire-IsValid key signal t q v
step-IsValid (q, t) (releases n) v = release-IsValid n q v
step-IsValid (q, t) (aborts s) v = on_abort-IsValid s q v
step-IsValid (q, t) disposes v = dispose-IsValid q v

run_from-IsValid : (s : Queue × ℕ) (xs : List Event) → IsValid s.0 → IsValid (run s xs).0
unfolding run
run_from-IsValid s [] v = v
run_from-IsValid s (x ∷ xs) v = run_from-IsValid (step s x) xs (step-IsValid s x v)

-- However calls, releases, aborts and the disposal follow one another from a new queue: no two
-- releases of one target are open, the map holds just the entries of the open ones, every entry with
-- a waiting call has an open release, and no call waits in a queue that was disposed of.
pub run-IsValid : (xs : List Event) → IsValid (run (new_queue, 0) xs).0
run-IsValid xs = run_from-IsValid (new_queue, 0) xs new_queue-IsValid

-- What a release leaves behind for the target of its handle.
pub data Outcome (q : Queue) (h : Handle) (n : ℕ) : Type 0 where
  -- Nobody who waits is unsettled: nobody is let in, and the target is free.
  freed :
      ((s : ℕ) → In s (q.waiters h.entry) → q.settled s ≡ true)
      → (release n q).1 ≡ none
      → get h.key (release n q).0.entries ≡ none
      → Outcome q h n
  -- A call goes on with a new handle of the same target, and it and those before it, which are
  -- all settled, leave the list.
  passed :
      (t : ℕ) (before behind : List ℕ)
      → q.waiters h.entry ≡ before ++ t ∷ behind
      → ((s : ℕ) → In s before → q.settled s ≡ true)
      → q.settled t ≡ false
      → (release n q).1 ≡ some (t, q.next_serial)
      → (release n q).0.waiters h.entry ≡ behind
      → holder h.key (release n q).0.handles ≡ some h.entry
      → Outcome q h n

-- The list before the waiter that is found.
record Skipped (s : ℕ → Bool) (ts : List ℕ) (t : ℕ) (behind : List ℕ) : Type 0 where
  before : List ℕ
  split : ts ≡ before ++ t ∷ behind
  gone : (r : ℕ) → In r before → s r ≡ true
  live : s t ≡ false

next_waiter-Skipped :
    (s : ℕ → Bool) (ts : List ℕ) (t : ℕ)
    → (next_waiter s ts).0 ≡ some t
    → Skipped s ts t (next_waiter s ts).1
unfolding next_waiter
next_waiter-Skipped s [] t h = cc
next_waiter-Skipped s (r ∷ ts) t h = elim (Bool-cases (s r)) [
  | inl e ↦ rw e (
      let w = next_waiter-Skipped s ts t (ground arith) in
      record {
        before = r ∷ w.before;
        split = ap (λ l. r ∷ l) w.split;
        gone = λ i m. elim m [ inl p ↦ ap s (sym p) ∙ e | inr p ↦ w.gone i p ];
        live = w.live;
      })
  | inr e ↦ rw e (record {
    before = [];
    split = ap (λ i. i ∷ ts) (some_inj r t (ground arith));
    gone = λ i m. elim m [ ];
    live = ap s (sym (some_inj r t (ground arith))) ∙ e;
  })
]

-- No waiter is found only in a list of settled ones.
next_waiter-none :
    (s : ℕ → Bool) (ts : List ℕ) → (next_waiter s ts).0 ≡ none → (r : ℕ) → In r ts → s r ≡ true
unfolding next_waiter
next_waiter-none s [] h r m = elim m [ ]
next_waiter-none s (t ∷ ts) h r m = elim (Bool-cases (s t)) [
  | inl e ↦ elim m [ inl p ↦ ap s (sym p) ∙ e | inr i ↦ next_waiter-none s ts (ground arith) r i ]
  | inr e ↦ absurd (cc (h, e))
]

outcome_of :
    (q : Queue) (h : Handle) (rest : List Handle) (o : Option ℕ)
    → IsValid q
    → Taken q.handles rest h
    → (next_waiter q.settled (q.waiters h.entry)).0 ≡ o
    → (n : ℕ)
    → release n q
      ≡ hand_over h
          (record q {
            handles = rest;
            waiters = set_at h.entry (next_waiter q.settled (q.waiters h.entry)).1 q.waiters;
          })
          o
    → Outcome q h n
unfolding hand_over release_for set_at holder
outcome_of q h rest none v w f n e =
    freed (next_waiter-none q.settled (q.waiters h.entry) f) (ap (λ p. p.1) e) (
      ap (λ p. get h.key p.0.entries) e
      ∙ rw (v.held h.key, w.others h.key, text_eq_refl h.key, (==_iff h.entry h.entry).1 refl)
          (get-delete h.key h.key q.entries ∙ rw (text_eq_refl h.key) refl))
outcome_of q h rest (some t) v w f n e =
    let k = next_waiter-Skipped q.settled (q.waiters h.entry) t f in
    passed t k.before (next_waiter q.settled (q.waiters h.entry)).1 k.split k.gone k.live
      (ap (λ p. p.1) e)
      (ap (λ p. p.0.waiters h.entry) e ∙ rw ((==_iff h.entry h.entry).1 refl) refl)
      (ap (λ p. holder h.key p.0.handles) e ∙ rw (text_eq_refl h.key) refl)

-- Calling an open release either frees the target, and then every call in the entry's list is
-- settled, or passes it on to the first call of the list that is not settled; that call and those
-- before it leave the list, and those behind it stay.
pub release-Outcome :
    (q : Queue) (h : Handle) (n : ℕ)
    → IsValid q
    → (take_handle n q.handles).0 ≡ some h
    → Outcome q h n
unfolding release release_open
release-Outcome q h n v e =
    outcome_of q h (take_handle n q.handles).1 (next_waiter q.settled (q.waiters h.entry)).0 v
      (take-Taken n q.handles h v.exclusive e) refl n
      (ap (λ o. release_open q (o, (take_handle n q.handles).1)) e)
