-- ===== src/Filesystem/MutationQueue.antt =====
-- The queue of mutations by target: src/filesystem/platform/node/mutation-queue.ts. An entry is an
-- object that the map and the releases share, so that it has a number and the lists of waiters
-- stand apart; a call of `run` is its number.
pub mod Disposal
pub mod Exclusive
use o_pi.Common.{
  ℕ, suc, Text, Bool, true, false, not, List, [], ◌∷◌, ◌++◌, Option, none, some, if◌then◌else◌,
  ◌==◌,
}
use o_pi.Common.OrderedMap.{OrderedMap, get, put, delete}

pub data Reason : Type 0 where
  aborted : Reason
  disposed : Reason

-- A release that was handed out and not called yet.
pub record Handle : Type 0 where
  pub serial : ℕ
  pub key : Text
  pub entry : ℕ

pub record Queue : Type 0 where
  pub entries : OrderedMap ℕ
  pub waiters : ℕ → List ℕ
  pub settled : ℕ → Bool
  -- The entry in whose list the listener of a call stands.
  pub listening : ℕ → Option ℕ
  pub handles : List Handle
  pub next_entry : ℕ
  pub next_serial : ℕ
  pub is_disposed : Bool

abbrev pub new_queue : Queue
new_queue = record {
  entries = [];
  waiters = λ e. [];
  settled = λ t. false;
  listening = λ t. none;
  handles = [];
  next_entry = 0;
  next_serial = 0;
  is_disposed = false;
}

unfoldable pub set_at {ℓ} : {A : Type ℓ} → ℕ → A → (ℕ → A) → ℕ → A
set_at n a f i = if n == i then a else f i

-- A mutation may start with the release of this number, the call fails, or it waits.
pub data Answer : Type 0 where
  granted : ℕ → Answer
  refused : Reason → Answer
  waits : Answer

unfoldable pub release_for : Text → ℕ → Queue → Queue × ℕ
release_for key entry q = (
  record q {
    handles = record { serial = q.next_serial; key = key; entry = entry } ∷ q.handles;
    next_serial = suc q.next_serial;
  },
  q.next_serial,
)

unfoldable pub add_entry : Text → Queue → Queue
add_entry key q = record q {
  entries = put key q.next_entry q.entries;
  waiters = set_at q.next_entry [] q.waiters;
  next_entry = suc q.next_entry;
}

-- A call that waits, with a listener if it has a signal.
unfoldable pub add_waiter : ℕ → Bool → ℕ → Queue → Queue
add_waiter entry has_signal t q = record q {
  waiters = set_at entry (q.waiters entry ++ t ∷ []) q.waiters;
  settled = set_at t false q.settled;
  listening = set_at t (if has_signal then some entry else none) q.listening;
}

unfoldable pub enter : Text → Bool → ℕ → Queue → Option ℕ → Queue × Answer
unfolding release_for add_entry add_waiter
enter key has_signal t q none =
    let (r, serial) = release_for key q.next_entry (add_entry key q) in (r, granted serial)
enter key has_signal t q (some entry) = (add_waiter entry has_signal t q, waits)

-- `acquire`, with the signal of the call: none, or whether it is aborted.
unfoldable pub acquire : Text → Option Bool → ℕ → Queue → Queue × Answer
unfolding enter get
acquire key (some true) t q = if q.is_disposed then (q, refused disposed) else (q, refused aborted)
acquire key (some false) t q =
    if q.is_disposed then (q, refused disposed) else enter key true t q (get key q.entries)
acquire key none t q =
    if q.is_disposed then (q, refused disposed) else enter key false t q (get key q.entries)

-- The first waiter that is not settled, and the list behind it.
unfoldable pub next_waiter : (ℕ → Bool) → List ℕ → Option ℕ × List ℕ
next_waiter settled [] = (none, [])
next_waiter settled (t ∷ ts) =
    let rest = next_waiter settled ts in if settled t then rest else (some t, ts)

-- The handle with a number, and the others.
unfoldable pub take_handle : ℕ → List Handle → Option Handle × List Handle
take_handle n [] = (none, [])
take_handle n (h ∷ hs) =
    let (found, rest) = take_handle n hs in
    if h.serial == n then (some h, hs) else (found, h ∷ rest)

unfoldable pub same_entry : Option ℕ → ℕ → Bool
same_entry none e = false
same_entry (some d) e = d == e

unfoldable pub hand_over : Handle → Queue → Option ℕ → Queue × Option (ℕ × ℕ)
unfolding release_for same_entry get
hand_over h q (some t) =
    let (r, serial) =
      release_for h.key h.entry
        (record q { settled = set_at t true q.settled; listening = set_at t none q.listening }) in
    (r, some (t, serial))
hand_over h q none = (
  if same_entry (get h.key q.entries) h.entry
      then record q { entries = delete h.key q.entries }
      else q,
  none,
)

-- The body of a release that was not called before.
unfoldable pub release_open : Queue → Option Handle × List Handle → Queue × Option (ℕ × ℕ)
unfolding hand_over next_waiter
release_open q (none, rest) = (q, none)
release_open q (some h, rest) =
    let (t, behind) = next_waiter q.settled (q.waiters h.entry) in
    hand_over h (record q { handles = rest; waiters = set_at h.entry behind q.waiters }) t

-- Calling a release: the call that goes on, with its own release. A second call does nothing.
unfoldable pub release : ℕ → Queue → Queue × Option (ℕ × ℕ)
unfolding release_open take_handle
release serial q = release_open q (take_handle serial q.handles)

unfoldable pub without : ℕ → List ℕ → List ℕ
without t [] = []
without t (s ∷ ss) = let rest = without t ss in if s == t then ss else s ∷ rest

-- The signal of a call that waits is aborted; a call with no listener is left alone.
unfoldable pub abort_at : ℕ → Queue → Option ℕ → Queue × Option Reason
unfolding without
abort_at t q none = (q, none)
abort_at t q (some entry) = (
  record q {
    settled = set_at t true q.settled;
    waiters = set_at entry (without t (q.waiters entry)) q.waiters;
    listening = set_at t none q.listening;
  },
  some aborted,
)

unfoldable pub on_abort : ℕ → Queue → Queue × Option Reason
unfolding abort_at
on_abort t q = abort_at t q (q.listening t)

unfoldable pub reject_waiters : List ℕ → Queue → Queue
reject_waiters [] q = q
reject_waiters (t ∷ ts) q =
    reject_waiters ts
      (record q { settled = set_at t true q.settled; listening = set_at t none q.listening })

-- The calls that are rejected, in order.
unfoldable pub reject_entries : OrderedMap ℕ → Queue → Queue × List ℕ
unfolding reject_waiters
reject_entries [] q = (q, [])
reject_entries ((key, entry) ∷ es) q =
    let (r, more) =
      reject_entries es
        (reject_waiters (q.waiters entry) (record q { waiters = set_at entry [] q.waiters })) in
    (r, q.waiters entry ++ more)

unfoldable pub dispose : Queue → Queue × List ℕ
unfolding reject_entries
dispose q =
    if q.is_disposed then (q, []) else reject_entries q.entries (record q { is_disposed = true })
