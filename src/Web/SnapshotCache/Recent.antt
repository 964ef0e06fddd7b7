-- ===== src/Web/SnapshotCache/Recent.antt =====
-- A page that was just stored is found: src/web-tools/fetch/snapshot-cache.ts.
use o_pi.Common.{
  ℕ, ◌-◌, ◌≤◌, Text, text_eq_iff, ◌||◌, List, [], ◌∷◌, ◌++◌, Option, none, some, Bool-cases, ltb,
  length, ◌≡◌, refl, ap, ◌∙◌, arith, inl, inr,
}
use o_pi.Web.SnapshotCache.{
  Snapshot, Limits, Cache, lookup, delete, evict_expired_from, evict_expired, evict_oldest,
  evict_to_limits, use_entry, get, set,
}
use o_pi.Web.SnapshotCache.Bounds.{IsValid, Fresh, sum_bytes, set_exact, delete-Fresh}

lookup_last :
    (k : Text) (ss : List Snapshot) (s : Snapshot)
    → Fresh k ss
    → s.key ≡ k
    → lookup k (ss ++ s ∷ []) ≡ some s
unfolding lookup
lookup_last k [] s f e = ground (arith, text_eq_iff s.key k)
lookup_last k (t ∷ ss) s f e = ground (arith, text_eq_iff t.key k, lookup_last k ss s)

-- The newest entry survives: alone it fits.
evict_oldest-last :
    (l : Limits) (k : Text) (ss : List Snapshot) (s : Snapshot) (total : ℕ)
    → Fresh k ss
    → total ≡ sum_bytes (ss ++ s ∷ [])
    → s.size_bytes ≤ l.max_bytes
    → 1 ≤ l.max_entries
    → (kept : List Snapshot) × ((evict_oldest l (ss ++ s ∷ []) total).entries ≡ kept ++ s ∷ [])
      × Fresh k kept
unfolding evict_oldest
evict_oldest-last l k [] s total f e fits room = ([], ground arith, tt)
evict_oldest-last l k (t ∷ ss) s total f e fits room =
    elim (Bool-cases (ltb l.max_entries (length (t ∷ (ss ++ s ∷ []))) || ltb l.max_bytes total)) [
      | inl over ↦
          rw over (evict_oldest-last l k ss s (total - t.size_bytes) f.1 (omega arith) fits room)
      | inr small ↦ rw small (t ∷ ss, refl, f)
    ]

evict_expired-last :
    (now ttl : ℕ) (k : Text) (ss : List Snapshot) (s : Snapshot) (total : ℕ)
    → Fresh k ss
    → now - s.created_at ≤ ttl
    → (kept : List Snapshot) × ((evict_expired_from now ttl (ss ++ s ∷ []) total).entries
        ≡ kept ++ s ∷ [])
      × Fresh k kept
unfolding evict_expired_from
evict_expired-last now ttl k [] s total f young = ([], ground arith, tt)
evict_expired-last now ttl k (t ∷ ss) s total f young =
    elim (Bool-cases (ltb ttl (now - t.created_at))) [
      | inl old ↦ rw old (evict_expired-last now ttl k ss s (total - t.size_bytes) f.1 young)
      | inr new ↦
          let (kept, e, g) = evict_expired-last now ttl k ss s total f.1 young in
          rw new (t ∷ kept, ap (λ r. t ∷ r) e, (f.0, g))
    ]

use_found : (k : Text) (c : Cache) (o : Option Snapshot) → (use_entry k c o).1 ≡ o
unfolding use_entry
use_found k c none = refl
use_found k c (some s) = refl

set-last :
    (l : Limits) (s : Snapshot) (c : Cache)
    → IsValid l c
    → s.size_bytes ≤ l.max_bytes
    → 1 ≤ l.max_entries
    → (kept : List Snapshot) × ((set l s c).entries ≡ kept ++ s ∷ []) × Fresh s.key kept
unfolding set evict_to_limits
set-last l s c v fits room = elim (Bool-cases (ltb l.max_bytes s.size_bytes)) [
  | inl big ↦ absurd (ground arith)
  | inr small ↦ rw small (
      evict_oldest-last l s.key (delete s.key c.entries) s _ (delete-Fresh s.key c.entries)
        (set_exact l s c v) fits room)
]

get_last :
    (l : Limits) (now : ℕ) (s : Snapshot) (c : Cache) (kept : List Snapshot)
    → c.entries ≡ kept ++ s ∷ []
    → Fresh s.key kept
    → now - s.created_at ≤ l.ttl_ms
    → (get l now s.key c).1 ≡ some s
unfolding get evict_expired
get_last l now s c kept e f young =
    let (left, g, h) = evict_expired-last now l.ttl_ms s.key kept s c.total_bytes f young in
    use_found s.key (evict_expired l now c) (lookup s.key (evict_expired l now c).entries)
    ∙ ap (λ ss. lookup s.key (evict_expired_from now l.ttl_ms ss c.total_bytes).entries) e
    ∙ ap (lookup s.key) g
    ∙ lookup_last s.key left s h refl

-- What is stored, if it fits alone and the cache may hold an entry, is returned by the next read of
-- its key within its time to live, whatever was dropped for it.
pub get-set_self :
    (l : Limits) (s : Snapshot) (c : Cache) (now : ℕ)
    → IsValid l c
    → s.size_bytes ≤ l.max_bytes
    → 1 ≤ l.max_entries
    → now - s.created_at ≤ l.ttl_ms
    → (get l now s.key (set l s c)).1 ≡ some s
get-set_self l s c now v fits room young =
    let (kept, e, f) = set-last l s c v fits room in get_last l now s (set l s c) kept e f young
