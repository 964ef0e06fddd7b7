-- ===== src/Web/SearchCache.antt =====
-- The cache of searches and its single flight: src/web-tools/search/search-cache.ts. A promise is
-- the number of the execution that made it; settling is a call of its own.
pub mod Flights
use o_pi.Common.{
  ℕ, ◌+◌, ◌-◌, ◌*◌, Text, text_eq, Bool, true, false, List, [], ◌∷◌, ◌++◌, Option, none, some,
  if◌then◌else◌, ltb, ◌==◌, length,
}
use o_pi.Common.OrderedMap.{OrderedMap}
use o_pi.Common.OrderedMap

-- `results` stands for the fields that are copied and not read.
pub record CachedSearch : Type 0 where
  pub key : Text
  pub created_at : ℕ
  pub results : List Text

abbrev pub search_cache_ttl_ms : ℕ
search_cache_ttl_ms = 5 * 60 * 1000

abbrev pub search_cache_max_entries : ℕ
search_cache_max_entries = 64

pub record SearchCache : Type 0 where
  pub entries : OrderedMap CachedSearch
  pub in_flight : OrderedMap ℕ
  -- the number of executions so far
  pub executed : ℕ

abbrev pub empty : SearchCache
empty = record { entries = []; in_flight = []; executed = 0 }

unfoldable pub read :
    ℕ → ℕ → Text → SearchCache → Option CachedSearch → SearchCache × Option CachedSearch
read ttl now k c none = (c, none)
read ttl now k c (some e) =
    if ltb ttl (now - e.created_at)
    then (record c { entries = OrderedMap.delete k c.entries }, none)
    else (record c { entries = OrderedMap.delete k c.entries ++ (k, e) ∷ [] }, some e)

unfoldable pub get : ℕ → ℕ → Text → SearchCache → SearchCache × Option CachedSearch
unfolding read
get ttl now k c = read ttl now k c (OrderedMap.get k c.entries)

-- The loop over `entries.size > maxEntries`.
unfoldable pub trim_oldest : ℕ → OrderedMap CachedSearch → OrderedMap CachedSearch
trim_oldest most [] = []
trim_oldest most (e ∷ es) =
    let fewer = trim_oldest most es in if ltb most (length (e ∷ es)) then fewer else e ∷ es

unfoldable pub set : ℕ → CachedSearch → SearchCache → SearchCache
set most e c = record c {
  entries = trim_oldest most (OrderedMap.delete e.key c.entries ++ (e.key, e) ∷ []);
}

pub clear : SearchCache → SearchCache
clear c = record c { entries = []; in_flight = [] }

start : Text → SearchCache → Option ℕ → SearchCache × ℕ
start k c (some pending) = (c, pending)
start k c none = (
  record c { in_flight = OrderedMap.put k c.executed c.in_flight; executed = c.executed + 1 },
  c.executed,
)

-- The promise that the caller gets.
unfoldable pub run_singleflight : Text → SearchCache → SearchCache × ℕ
unfolding start
run_singleflight k c = start k c (OrderedMap.get k c.in_flight)

same_flight : Option ℕ → ℕ → Bool
same_flight none p = false
same_flight (some q) p = q == p

-- The `finally` of the promise `p` that was made under the key.
unfoldable pub settle : Text → ℕ → SearchCache → SearchCache
unfolding same_flight
settle k p c =
    if same_flight (OrderedMap.get k c.in_flight) p
    then record c { in_flight = OrderedMap.delete k c.in_flight }
    else c
