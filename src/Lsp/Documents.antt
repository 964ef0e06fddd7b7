-- ===== src/Lsp/Documents.antt =====
-- The states of documents: src/lsp/documents.ts. The promise of a queued operation is its number; the
-- symbols of a document are a parameter.
pub mod Current
pub mod Runs
pub mod Eviction
use o_pi.Common.{
  ℕ, suc, ◌+◌, Text, text_eq, Bool, true, false, not, ◌&&◌, ◌||◌, List, [], ◌∷◌, length, Option,
  none, some, if◌then◌else◌, ltb, leb, ◌==◌,
}
use o_pi.Common.OrderedMap.{OrderedMap, get, put, delete}

pub record Context : Type 0 where
  pub uri : Text
  pub path : Text
  pub text : Text
  pub language_id : Text

module _ (Symbols : Type 0) where
  pub record CachedSymbols : Type 0 where
    pub version : ℕ
    pub value : Symbols

  pub record DocumentState : Type 0 where
    pub context : Context
    pub version : ℕ
    pub is_open : Bool
    pub is_persistent : Bool
    pub last_used : ℕ
    pub cached_symbols : Option CachedSymbols

  pub record Documents : Type 0 where
    pub states : OrderedMap DocumentState
    pub queues : OrderedMap ℕ
    pub pending_versions : OrderedMap ℕ
    pub clock : ℕ

abbrev is_number : Option ℕ → ℕ → Bool
is_number none n = false
is_number (some m) n = m == n

abbrev is_none : {A : Type 0} → Option A → Bool
is_none none = true
is_none (some a) = false

module _ {Symbols : Type 0} where
  abbrev pub new_documents : Documents Symbols
  new_documents = record { states = []; queues = []; pending_versions = []; clock = 0 }

  -- `enqueue`, up to its operation and behind it; the tail is the promise that the call makes.
  unfoldable pub enqueue : Text → ℕ → Documents Symbols → Documents Symbols
  unfolding put
  enqueue uri tail d = record d { queues = put uri tail d.queues }

  unfoldable pub leave_queue : Text → ℕ → Documents Symbols → Documents Symbols
  unfolding get delete
  leave_queue uri tail d =
      if is_number (get uri d.queues) tail then record d { queues = delete uri d.queues } else d

  abbrev version_of : Option (DocumentState Symbols) → Option ℕ
  version_of none = none
  version_of (some s) = some s.version

  abbrev or_version : Option ℕ → Option (DocumentState Symbols) → Option ℕ
  or_version (some v) s = some v
  or_version none s = version_of s

  unfoldable pub current_version : Text → Documents Symbols → Option ℕ
  unfolding get
  current_version uri d = or_version (get uri d.pending_versions) (get uri d.states)

  unfoldable pub set_pending_version : Text → ℕ → Documents Symbols → Documents Symbols
  unfolding put
  set_pending_version uri version d = record d {
    pending_versions = put uri version d.pending_versions;
  }

  unfoldable pub clear_pending_version : Text → ℕ → Documents Symbols → Documents Symbols
  unfolding get delete
  clear_pending_version uri version d =
      if is_number (get uri d.pending_versions) version
      then record d { pending_versions = delete uri d.pending_versions }
      else d

  -- A state under a key, with the next reading of the clock.
  unfoldable pub store : Text → (ℕ → DocumentState Symbols) → Documents Symbols → Documents Symbols
  unfolding put
  store uri s d = record d { states = put uri (s (suc d.clock)) d.states; clock = suc d.clock }

  abbrev was_persistent : Option (DocumentState Symbols) → Bool
  was_persistent none = false
  was_persistent (some s) = s.is_persistent

  abbrev pub relabelled : ℕ → Option (CachedSymbols Symbols) → Option (CachedSymbols Symbols)
  relabelled version none = none
  relabelled version (some c) = some (record { version = version; value = c.value })

  abbrev pub kept_symbols :
      Context → ℕ → Option (DocumentState Symbols) → Option (CachedSymbols Symbols)
  kept_symbols c version none = none
  kept_symbols c version (some s) =
      if text_eq s.context.text c.text && text_eq s.context.language_id c.language_id
      then relabelled version s.cached_symbols
      else none

  abbrev pub committed :
      Context → ℕ → Bool → Bool → Option (DocumentState Symbols) → ℕ → DocumentState Symbols
  committed c version is_open persistent previous now = record {
    context = c;
    version = version;
    is_open = is_open;
    is_persistent = persistent || was_persistent previous;
    last_used = now;
    cached_symbols = kept_symbols c version previous;
  }

  unfoldable pub commit : Context → ℕ → Bool → Bool → Documents Symbols → Documents Symbols
  unfolding store get text_eq
  commit c version is_open persistent d =
      store c.uri (committed c version is_open persistent (get c.uri d.states)) d

  -- An operation on a state, if there is one, with the next reading of the clock.
  abbrev pub on_state :
      Text
      → (ℕ → DocumentState Symbols → DocumentState Symbols)
      → Option (DocumentState Symbols)
      → Documents Symbols
      → Documents Symbols
  on_state uri f none d = d
  on_state uri f (some s) d = store uri (λ now. f now s) d

  abbrev pub used : ℕ → DocumentState Symbols → DocumentState Symbols
  used now s = record s { last_used = now }

  abbrev pub made_persistent : ℕ → DocumentState Symbols → DocumentState Symbols
  made_persistent now s = record s { is_persistent = true; last_used = now }

  abbrev pub closed : ℕ → DocumentState Symbols → DocumentState Symbols
  closed now s = record s { is_open = false; is_persistent = false; last_used = now }

  abbrev pub with_symbols : ℕ → Symbols → DocumentState Symbols → ℕ → DocumentState Symbols
  with_symbols version v s now = record s {
    cached_symbols = some (record { version = version; value = v });
    last_used = now;
  }

  unfoldable pub mark_persistent : Text → Documents Symbols → Documents Symbols
  unfolding store get
  mark_persistent uri d = on_state uri made_persistent (get uri d.states) d

  unfoldable pub mark_closed : Text → Documents Symbols → Documents Symbols
  unfolding store get
  mark_closed uri d = on_state uri closed (get uri d.states) d

  unfoldable pub touch : Text → Documents Symbols → Documents Symbols
  unfolding store get
  touch uri d = on_state uri used (get uri d.states) d

  abbrev pub cached_under : ℕ → Option (CachedSymbols Symbols) → Option Symbols
  cached_under version none = none
  cached_under version (some c) = if c.version == version then some c.value else none

  abbrev pub cached_in : ℕ → Option (DocumentState Symbols) → Option Symbols
  cached_in version none = none
  cached_in version (some s) = cached_under version s.cached_symbols

  abbrev pub touched_if :
      Text → Option Symbols → Documents Symbols → Option Symbols × Documents Symbols
  touched_if uri none d = (none, d)
  touched_if uri (some v) d = (some v, touch uri d)

  unfoldable pub cached_symbols : Text → ℕ → Documents Symbols → Option Symbols × Documents Symbols
  unfolding get touch
  cached_symbols uri version d = touched_if uri (cached_in version (get uri d.states)) d

  abbrev pub cache_in :
      Text → ℕ → Symbols → Option (DocumentState Symbols) → Documents Symbols → Documents Symbols
  cache_in uri version v none d = d
  cache_in uri version v (some s) d =
      if s.version == version then store uri (with_symbols version v s) d else d

  unfoldable pub cache_symbols : Text → ℕ → Symbols → Documents Symbols → Documents Symbols
  unfolding get store
  cache_symbols uri version v d = cache_in uri version v (get uri d.states) d

  unfoldable pub remove : Text → Documents Symbols → Documents Symbols
  unfolding delete
  remove uri d = record d { states = delete uri d.states }

  unfoldable pub needs_capacity : ℕ → Text → Documents Symbols → Bool
  unfolding get
  needs_capacity max_documents uri d =
      is_none (get uri d.states) && leb max_documents (length d.states)

  abbrev pub over_capacity : ℕ → Documents Symbols → Bool
  over_capacity max_documents d = ltb max_documents (length d.states)

  abbrev pub is_excluded : Text → OrderedMap ℕ → DocumentState Symbols → Bool
  is_excluded exclude queues s =
      text_eq s.context.uri exclude || not (is_none (get s.context.uri queues))

  abbrev pub better : Option (DocumentState Symbols) → DocumentState Symbols → DocumentState Symbols
  better none s = s
  better (some c) s = if ltb s.last_used c.last_used then s else c

  -- The loop of `evictionCandidate`.
  unfoldable pub candidate_of :
      Text
      → OrderedMap ℕ
      → Option (DocumentState Symbols)
      → OrderedMap (DocumentState Symbols)
      → Option (DocumentState Symbols)
  unfolding text_eq get
  candidate_of exclude queues c [] = c
  candidate_of exclude queues c ((uri, s) ∷ states) =
      if is_excluded exclude queues s
      then candidate_of exclude queues c states
      else candidate_of exclude queues (some (better c s)) states

  abbrev pub uri_of : Option (DocumentState Symbols) → Option Text
  uri_of none = none
  uri_of (some s) = some s.context.uri

  unfoldable pub eviction_candidate : Text → Documents Symbols → Option Text
  unfolding candidate_of
  eviction_candidate exclude d = uri_of (candidate_of exclude d.queues none d.states)

  unfoldable pub open_uris : OrderedMap (DocumentState Symbols) → List Text
  open_uris [] = []
  open_uris ((uri, s) ∷ states) =
      let rest = open_uris states in if s.is_open then s.context.uri ∷ rest else rest

  -- `openCount`, with the count so far.
  unfoldable pub open_count : ℕ → OrderedMap (DocumentState Symbols) → ℕ
  open_count n [] = n
  open_count n ((uri, s) ∷ states) = open_count (if s.is_open then suc n else n) states

  abbrev pub clear : Documents Symbols → Documents Symbols
  clear d = record d { states = []; queues = []; pending_versions = [] }
