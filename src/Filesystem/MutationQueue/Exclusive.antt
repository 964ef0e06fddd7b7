-- ===== src/Filesystem/MutationQueue/Exclusive.antt =====
-- One mutation runs for a target at a time, and no call waits for nobody:
-- src/filesystem/platform/node/mutation-queue.ts.
use o_pi.Common.{
  ℕ, Text, text_eq, text_eq_iff, text_eq_refl, Bool, true, false, List, [], ◌∷◌, Option, none, some,
  if◌then◌else◌, ◌==◌, ==_iff, ◌≡◌, ◌≢◌, refl, sym, ap, ◌∙◌, arith, ◌⊎◌, inl, inr, All, In,
  Bool-cases, some_inj,
}
use o_pi.Common.OrderedMap.{get, get-put, get-delete}
use o_pi.Filesystem.MutationQueue.{
  Queue, Handle, new_queue, set_at, release_for, add_entry, add_waiter, enter, acquire, next_waiter,
  take_handle, hand_over, release_open, release, without, abort_at, on_abort,
}

-- The entry of the first open handle of a target.
unfoldable pub holder : Text → List Handle → Option ℕ
holder k [] = none
holder k (h ∷ hs) = if text_eq h.key k then some h.entry else holder k hs

abbrev pub Free : Text → List Handle → Type 0
Free k hs = All (λ h. h.key ≢ k) hs

-- No two open handles are of the same target.
abbrev pub OnePerTarget : List Handle → Type 0
OnePerTarget [] = Unit
OnePerTarget (h ∷ hs) = Free h.key hs × OnePerTarget hs

abbrev pub entries_of : List Handle → List ℕ
entries_of [] = []
entries_of (h ∷ hs) = h.entry ∷ entries_of hs

pub record IsValid (q : Queue) : Type 0 where
  pub exclusive : OnePerTarget q.handles
  pub held : (k : Text) → get k q.entries ≡ holder k q.handles
  pub served : (e : ℕ) → q.waiters e ≢ [] → In e (entries_of q.handles)
  pub quiet : q.is_disposed ≡ true → (e : ℕ) → q.waiters e ≡ []

pub new_queue-IsValid : IsValid new_queue
unfolding get holder
new_queue-IsValid = record {
  exclusive = tt;
  held = λ k. refl;
  served = λ e h. absurd (h refl);
  quiet = λ h e. refl;
}

holder-Free : (k : Text) (hs : List Handle) → holder k hs ≡ none → Free k hs
unfolding holder
holder-Free k [] h = tt
holder-Free k (x ∷ hs) h = elim (Bool-cases (text_eq x.key k)) [
  | inl e ↦ absurd (ground arith)
  | inr e ↦ (λ p. absurd (cc ((text_eq_iff x.key k).1 p, e)), holder-Free k hs (ground arith))
]

pub Free-holder : (k : Text) (hs : List Handle) → Free k hs → holder k hs ≡ none
unfolding holder
Free-holder k [] h = refl
Free-holder k (x ∷ hs) (n, h) = elim (Bool-cases (text_eq x.key k)) [
  | inl e ↦ absurd (n ((text_eq_iff x.key k).0 e))
  | inr e ↦ rw e (Free-holder k hs h)
]

-- What taking a handle out leaves.
pub record Taken (hs rest : List Handle) (h : Handle) : Type 0 where
  pub exclusive : OnePerTarget rest
  pub free : Free h.key rest
  pub others : (k : Text) → holder k hs ≡ (if text_eq h.key k then some h.entry else holder k rest)
  pub entries : (e : ℕ) → In e (entries_of hs) → (e ≡ h.entry) ⊎ In e (entries_of rest)

Free-take : (k : Text) (n : ℕ) (hs : List Handle) → Free k hs → Free k (take_handle n hs).1
unfolding take_handle
Free-take k n [] f = tt
Free-take k n (x ∷ hs) (a, f) = elim (Bool-cases (x.serial == n)) [
  | inl e ↦ rw e f
  | inr e ↦ rw e (a, Free-take k n hs f)
]

take-found-Free :
    (k : Text) (n : ℕ) (hs : List Handle) (h : Handle)
    → (take_handle n hs).0 ≡ some h
    → Free k hs
    → h.key ≢ k
unfolding take_handle
take-found-Free k n [] h t f = cc
take-found-Free k n (x ∷ hs) h t (a, f) = elim (Bool-cases (x.serial == n)) [
  | inl e ↦ λ p. a (cc (p, ap Handle.key (some_inj x h (ground arith))))
  | inr e ↦ take-found-Free k n hs h (ground arith) f
]

pub take-Taken :
    (n : ℕ) (hs : List Handle) (h : Handle)
    → OnePerTarget hs
    → (take_handle n hs).0 ≡ some h
    → Taken hs (take_handle n hs).1 h
unfolding take_handle holder
take-Taken n [] h o t = cc
take-Taken n (x ∷ hs) h (f, o) t = elim (Bool-cases (x.serial == n)) [
  | inl e ↦
      rw (e, ← some_inj x h (ground arith))
        (record { exclusive = o; free = f; others = λ k. refl; entries = λ d m. ground arith })
  | inr e ↦
      rw e
        (later (take-Taken n hs h o (ground arith)) (take-found-Free x.key n hs h (ground arith) f))
]
  where
    later :
        Taken hs (take_handle n hs).1 h
        → h.key ≢ x.key
        → Taken (x ∷ hs) (x ∷ (take_handle n hs).1) h
    later w apart = record {
      exclusive = (Free-take x.key n hs f, w.exclusive);
      free = (λ p. apart (sym p), w.free);
      others = λ k. ground (arith, w.others k, text_eq_iff x.key k, text_eq_iff h.key k);
      entries = λ d m. elim m [
        | inl p ↦ inr (inl p)
        | inr p ↦ elim (w.entries d p) [ inl q ↦ inl q | inr q ↦ inr (inr q) ]
      ];
    }

holder-In : (k : Text) (e : ℕ) (hs : List Handle) → holder k hs ≡ some e → In e (entries_of hs)
unfolding holder
holder-In k e [] h = cc
holder-In k e (x ∷ hs) h = elim (Bool-cases (text_eq x.key k)) [
  | inl p ↦ inl (some_inj x.entry e (ground arith))
  | inr p ↦ inr (holder-In k e hs (ground arith))
]

-- A target of which no handle is open gets one.
open-IsValid :
    (k : Text) (q : Queue)
    → get k q.entries ≡ none
    → q.is_disposed ≡ false
    → IsValid q
    → IsValid (release_for k q.next_entry (add_entry k q)).0
unfolding release_for add_entry holder set_at
open-IsValid k q none' live v = record {
  exclusive = (holder-Free k q.handles (sym (v.held k) ∙ none'), v.exclusive);
  held = λ j. ground (arith, get-put k j q.next_entry q.entries, v.held j);
  served = λ e w. elim (Bool-cases (q.next_entry == e)) [
    | inl p ↦ inl (ground arith)
    | inr p ↦ inr (v.served e (ground arith))
  ];
  quiet = λ h e. absurd (cc (h, live));
}

enter-IsValid :
    (k : Text) (b : Bool) (t : ℕ) (q : Queue) (o : Option ℕ)
    → get k q.entries ≡ o
    → q.is_disposed ≡ false
    → IsValid q
    → IsValid (enter k b t q o).0
unfolding enter add_waiter set_at
enter-IsValid k b t q none e live v = open-IsValid k q e live v
enter-IsValid k b t q (some d) e live v = record {
  exclusive = v.exclusive;
  held = v.held;
  served = λ c w. elim (Bool-cases (d == c)) [
    | inl p ↦ holder-In k c q.handles (sym (v.held k) ∙ e ∙ ap some ((==_iff d c).0 p))
    | inr p ↦ v.served c (ground arith)
  ];
  quiet = λ h c. absurd (cc (h, live));
}

pub acquire-IsValid :
    (k : Text) (s : Option Bool) (t : ℕ) (q : Queue) → IsValid q → IsValid (acquire k s t q).0
unfolding acquire
acquire-IsValid k s t q v = elim (Bool-cases q.is_disposed) [ inl e ↦ gone s e | inr e ↦ there s e ]
  where
    gone : (s : Option Bool) → q.is_disposed ≡ true → IsValid (acquire k s t q).0
    gone none e = simp e v
    gone (some true) e = simp e v
    gone (some false) e = simp e v

    there : (s : Option Bool) → q.is_disposed ≡ false → IsValid (acquire k s t q).0
    there none e = simp e (enter-IsValid k false t q (get k q.entries) refl e v)
    there (some true) e = simp e v
    there (some false) e = simp e (enter-IsValid k true t q (get k q.entries) refl e v)

next_waiter-none :
    (s : ℕ → Bool) (ts : List ℕ) → (next_waiter s ts).0 ≡ none → (next_waiter s ts).1 ≡ []
unfolding next_waiter
next_waiter-none s [] h = refl
next_waiter-none s (t ∷ ts) h = elim (Bool-cases (s t)) [
  | inl e ↦ rw e (next_waiter-none s ts (ground arith))
  | inr e ↦ absurd (ground arith)
]

next_waiter-empty : (s : ℕ → Bool) (ts : List ℕ) → ts ≡ [] → (next_waiter s ts).1 ≡ []
unfolding next_waiter
next_waiter-empty s [] h = refl
next_waiter-empty s (t ∷ ts) h = cc

set_at-empty :
    (e : ℕ) (ts : List ℕ) (f : ℕ → List ℕ)
    → ((d : ℕ) → f d ≡ [])
    → (f e ≡ [] → ts ≡ [])
    → (d : ℕ) → set_at e ts f d ≡ []
unfolding set_at
set_at-empty e ts f h k d = elim (Bool-cases (e == d)) [
  | inl p ↦ rw p (k (h e))
  | inr p ↦ rw p (h d)
]

without-empty : (t : ℕ) (ts : List ℕ) → ts ≡ [] → without t ts ≡ []
unfolding without
without-empty t [] h = refl
without-empty t (s ∷ ss) h = cc

-- A handle is taken, and its target goes to the first live waiter or is free.
hand_over-IsValid :
    (q : Queue) (h : Handle) (rest : List Handle) (o : Option ℕ) (behind : List ℕ)
    → IsValid q
    → Taken q.handles rest h
    → (o ≡ none → behind ≡ [])
    → (q.waiters h.entry ≡ [] → behind ≡ [])
    → IsValid
        (hand_over h (record q { handles = rest; waiters = set_at h.entry behind q.waiters }) o).0
unfolding hand_over release_for set_at holder
hand_over-IsValid q h rest (some t) behind v w gone empty = record {
  exclusive = (w.free, w.exclusive);
  held = λ k. v.held k ∙ w.others k;
  served = λ e n. elim (Bool-cases (h.entry == e)) [
    | inl p ↦ inl ((==_iff h.entry e).0 p)
    | inr p ↦ elim (w.entries e (v.served e (ground arith))) [ inl s ↦ inl (sym s) | inr s ↦ inr s ]
  ];
  quiet = λ x. set_at-empty h.entry behind q.waiters (v.quiet x) empty;
}
hand_over-IsValid q h rest none behind v w gone empty =
    rw (v.held h.key, w.others h.key, text_eq_refl h.key, (==_iff h.entry h.entry).1 refl)
      (record {
        exclusive = w.exclusive;
        held = λ k. ground (
          arith,
          get-delete h.key k q.entries,
          v.held k,
          w.others k,
          text_eq_iff h.key k,
          Free-holder h.key rest w.free,
        );
        served = λ e n. elim (Bool-cases (h.entry == e)) [
          | inl p ↦ absurd (ground (arith, gone refl))
          | inr p ↦ elim (w.entries e (v.served e (ground arith))) [
            | inl s ↦ absurd (ground arith)
            | inr s ↦ s
          ]
        ];
        quiet = λ x. set_at-empty h.entry behind q.waiters (v.quiet x) empty;
      })

pub release-IsValid : (n : ℕ) (q : Queue) → IsValid q → IsValid (release n q).0
unfolding release release_open
release-IsValid n q v = go (take_handle n q.handles).0 refl
  where
    go :
        (o : Option Handle)
        → (take_handle n q.handles).0 ≡ o
        → IsValid (release_open q (o, (take_handle n q.handles).1)).0
    go none e = v
    go (some h) e =
        hand_over-IsValid q h (take_handle n q.handles).1
          (next_waiter q.settled (q.waiters h.entry)).0
          (next_waiter q.settled (q.waiters h.entry)).1 v (take-Taken n q.handles h v.exclusive e)
          (next_waiter-none q.settled (q.waiters h.entry))
          (next_waiter-empty q.settled (q.waiters h.entry))

pub on_abort-IsValid : (t : ℕ) (q : Queue) → IsValid q → IsValid (on_abort t q).0
unfolding on_abort abort_at set_at
on_abort-IsValid t q v = go (q.listening t)
  where
    go : (o : Option ℕ) → IsValid (abort_at t q o).0
    go none = v
    go (some d) = record {
      exclusive = v.exclusive;
      held = v.held;
      served = λ e n. elim (Bool-cases (d == e)) [
        | inl p ↦
            v.served e
              (λ z. n rw p (without-empty t (q.waiters d) (ap q.waiters ((==_iff d e).0 p) ∙ z)))
        | inr p ↦ v.served e (ground arith)
      ];
      quiet = λ x.
          set_at-empty d (without t (q.waiters d)) q.waiters (v.quiet x)
            (without-empty t (q.waiters d));
    }
