-- ===== src/Web/SnapshotCache.antt =====
-- The cache of fetched pages: src/web-tools/fetch/snapshot-cache.ts. Times and sizes are natural
-- numbers; `now` is an argument of each call.
pub mod Bounds
pub mod Recent
use o_pi.Common.{
  ℕ, ◌+◌, ◌-◌, ◌*◌, Text, text_eq, Bool, true, false, ◌||◌, List, [], ◌∷◌, ◌++◌, Option, none, some,
  if◌then◌else◌, ltb, length,
}

-- `contents` stands for the fields that the cache does not read.
pub record Snapshot : Type 0 where
  pub key : Text
  pub created_at : ℕ
  pub size_bytes : ℕ
  pub contents : Text

pub record Limits : Type 0 where
  pub ttl_ms : ℕ
  pub max_entries : ℕ
  pub max_bytes : ℕ

abbrev pub default_limits : Limits
default_limits = record { ttl_ms = 10 * 60 * 1000; max_entries = 32; max_bytes = 64 * 1024 * 1024 }

-- Each entry stands under its own key, so the map is the list of its values, oldest first.
pub record Cache : Type 0 where
  pub entries : List Snapshot
  pub total_bytes : ℕ

abbrev pub empty : Cache
empty = record { entries = []; total_bytes = 0 }

unfoldable pub lookup : Text → List Snapshot → Option Snapshot
lookup k [] = none
lookup k (s ∷ ss) = if text_eq s.key k then some s else lookup k ss

unfoldable pub delete : Text → List Snapshot → List Snapshot
delete k [] = []
delete k (s ∷ ss) = let rest = delete k ss in if text_eq s.key k then rest else s ∷ rest

-- The loop of `evictExpired`, with the bytes that are left.
unfoldable pub evict_expired_from : ℕ → ℕ → List Snapshot → ℕ → Cache
evict_expired_from now ttl [] total = record { entries = []; total_bytes = total }
evict_expired_from now ttl (s ∷ ss) total =
    let gone = evict_expired_from now ttl ss (total - s.size_bytes) in
    let kept = evict_expired_from now ttl ss total in
    if ltb ttl (now - s.created_at) then gone else record kept { entries = s ∷ kept.entries }

unfoldable pub evict_expired : Limits → ℕ → Cache → Cache
evict_expired l now c = evict_expired_from now l.ttl_ms c.entries c.total_bytes

-- The loop of `evictToLimits`: it drops the oldest entry until both limits hold.
unfoldable pub evict_oldest : Limits → List Snapshot → ℕ → Cache
evict_oldest l [] total = record { entries = []; total_bytes = total }
evict_oldest l (s ∷ ss) total =
    let fewer = evict_oldest l ss (total - s.size_bytes) in
    if ltb l.max_entries (length (s ∷ ss)) || ltb l.max_bytes total
    then fewer
    else record { entries = s ∷ ss; total_bytes = total }

unfoldable pub evict_to_limits : Limits → Cache → Cache
evict_to_limits l c = evict_oldest l c.entries c.total_bytes

use_entry : Text → Cache → Option Snapshot → Cache × Option Snapshot
use_entry k c none = (c, none)
use_entry k c (some s) = (record c { entries = delete k c.entries ++ s ∷ [] }, some s)

unfoldable pub get : Limits → ℕ → Text → Cache → Cache × Option Snapshot
unfolding use_entry
get l now k c = let c' = evict_expired l now c in use_entry k c' (lookup k c'.entries)

-- `totalBytes` after an older entry of the key is taken out.
unfoldable pub freed : Option Snapshot → ℕ → ℕ
freed none total = total
freed (some s) total = total - s.size_bytes

unfoldable pub set : Limits → Snapshot → Cache → Cache
unfolding freed
set l s c =
    if ltb l.max_bytes s.size_bytes
    then c
    else evict_to_limits l (record {
      entries = delete s.key c.entries ++ s ∷ [];
      total_bytes = freed (lookup s.key c.entries) c.total_bytes + s.size_bytes;
    })

pub clear : Cache → Cache
clear c = empty
