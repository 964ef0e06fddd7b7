-- ===== src/Web/SnapshotCache/Bounds.antt =====
-- The cache never passes its limits, and `totalBytes` is exact: src/web-tools/fetch/snapshot-cache.ts.
use o_pi.Common.{
  subst, sym, ℕ, ◌+◌, ◌-◌, ◌≤◌, Text, text_eq, text_eq_iff, ◌||◌, List, [], ◌∷◌, ◌++◌, Option, none,
  some, Bool-cases, ltb, length, length-append, All, All-append, ◌≡◌, ◌≢◌, refl, ap, arith, inl,
  inr,
}
use o_pi.Web.SnapshotCache.{
  Snapshot, Limits, Cache, lookup, delete, evict_expired_from, evict_expired, evict_oldest,
  evict_to_limits, use_entry, get, freed, set,
}

abbrev pub sum_bytes : List Snapshot → ℕ
sum_bytes [] = 0
sum_bytes (s ∷ ss) = s.size_bytes + sum_bytes ss

-- No entry has the key.
abbrev pub Fresh : Text → List Snapshot → Type 0
Fresh k ss = All (λ s. s.key ≢ k) ss

abbrev pub DistinctKeys : List Snapshot → Type 0
DistinctKeys [] = Unit
DistinctKeys (s ∷ ss) = Fresh s.key ss × DistinctKeys ss

-- The keys differ, the bytes are counted exactly, and both limits hold.
pub record IsValid (l : Limits) (c : Cache) : Type 0 where
  pub distinct : DistinctKeys c.entries
  pub exact : c.total_bytes ≡ sum_bytes c.entries
  pub few : length c.entries ≤ l.max_entries
  pub small : c.total_bytes ≤ l.max_bytes

sum-append : (xs ys : List Snapshot) → sum_bytes (xs ++ ys) ≡ sum_bytes xs + sum_bytes ys
sum-append [] ys = omega arith
sum-append (x ∷ xs) ys = omega (arith, sum-append xs ys)

DistinctKeys-append_one :
    (xs : List Snapshot) (s : Snapshot)
    → DistinctKeys xs
    → Fresh s.key xs
    → DistinctKeys (xs ++ s ∷ [])
DistinctKeys-append_one [] s d f = (tt, tt)
DistinctKeys-append_one (x ∷ xs) s (h, d) (n, f) = (
  All-append (λ y. y.key ≢ x.key) xs (s ∷ []) h ((λ e. n (ap (λ t. t) (cc e))), tt),
  DistinctKeys-append_one xs s d f,
)

Fresh-delete : (j k : Text) (ss : List Snapshot) → Fresh j ss → Fresh j (delete k ss)
unfolding delete
Fresh-delete j k [] h = tt
Fresh-delete j k (s ∷ ss) h = ground (arith, Fresh-delete j k ss)

pub delete-Fresh : (k : Text) (ss : List Snapshot) → Fresh k (delete k ss)
unfolding delete
delete-Fresh k [] = tt
delete-Fresh k (s ∷ ss) = ground (arith, delete-Fresh k ss, text_eq_iff s.key k)

delete-DistinctKeys : (k : Text) (ss : List Snapshot) → DistinctKeys ss → DistinctKeys (delete k ss)
unfolding delete
delete-DistinctKeys k [] d = tt
delete-DistinctKeys k (s ∷ ss) d = ground (arith, delete-DistinctKeys k ss, Fresh-delete s.key k ss)

delete-keeps_Fresh : (k : Text) (ss : List Snapshot) → Fresh k ss → delete k ss ≡ ss
unfolding delete
delete-keeps_Fresh k [] h = refl
delete-keeps_Fresh k (s ∷ ss) h = ground (arith, delete-keeps_Fresh k ss, text_eq_iff s.key k)

lookup-Fresh : (k : Text) (ss : List Snapshot) → Fresh k ss → lookup k ss ≡ none
unfolding lookup
lookup-Fresh k [] h = refl
lookup-Fresh k (s ∷ ss) h = ground (arith, lookup-Fresh k ss, text_eq_iff s.key k)

abbrev pub size_of : Option Snapshot → ℕ
size_of none = 0
size_of (some s) = s.size_bytes

-- What a key's entry holds is what its deletion frees.
sum-delete :
    (k : Text) (ss : List Snapshot)
    → DistinctKeys ss
    → sum_bytes (delete k ss) + size_of (lookup k ss) ≡ sum_bytes ss
unfolding delete lookup
sum-delete k [] d = omega arith
sum-delete k (s ∷ ss) d = elim (Bool-cases (text_eq s.key k)) [
  | inl e ↦ rw e (ground (arith, delete-keeps_Fresh k ss, (text_eq_iff s.key k).0 e))
  | inr e ↦ rw e (omega (arith, sum-delete k ss d.1))
]

-- Dropping the oldest entries reaches the limits; the count of bytes stays exact.
evict_oldest-IsValid :
    (l : Limits) (ss : List Snapshot) (total : ℕ)
    → DistinctKeys ss
    → total ≡ sum_bytes ss
    → IsValid l (evict_oldest l ss total)
unfolding evict_oldest
evict_oldest-IsValid l [] total d e = ground arith
evict_oldest-IsValid l (s ∷ ss) total d e =
    elim (Bool-cases (ltb l.max_entries (length (s ∷ ss)) || ltb l.max_bytes total)) [
      | inl over ↦ rw over (evict_oldest-IsValid l ss (total - s.size_bytes) d.1 (omega arith))
      | inr fits ↦
          rw fits (record { distinct = d; exact = e; few = ground arith; small = ground arith })
    ]

-- The parts of a list of entries that a call may leave.
pub record Left (now ttl k : ℕ) (ss : List Snapshot) (c : Cache) : Type 0 where
  pub exact : c.total_bytes ≡ sum_bytes c.entries + k
  pub fewer : length c.entries ≤ length ss
  pub smaller : sum_bytes c.entries ≤ sum_bytes ss
  pub distinct : DistinctKeys c.entries
  pub fresh : (j : Text) → Fresh j ss → Fresh j c.entries
  pub young : All (λ s. now - s.created_at ≤ ttl) c.entries

evict_expired-Left :
    (now ttl k : ℕ) (ss : List Snapshot) (total : ℕ)
    → DistinctKeys ss
    → total ≡ sum_bytes ss + k
    → Left now ttl k ss (evict_expired_from now ttl ss total)
unfolding evict_expired_from
evict_expired-Left now ttl k [] total d e = record {
  exact = e;
  fewer = omega arith;
  smaller = omega arith;
  distinct = tt;
  fresh = λ j h. h;
  young = tt;
}
evict_expired-Left now ttl k (s ∷ ss) total d e = elim (Bool-cases (ltb ttl (now - s.created_at))) [
  | inl old ↦
      let r = evict_expired-Left now ttl k ss (total - s.size_bytes) d.1 (omega arith) in
      rw old (record {
        exact = r.exact;
        fewer = omega (arith, r.fewer);
        smaller = omega (arith, r.smaller);
        distinct = r.distinct;
        fresh = λ j h. r.fresh j h.1;
        young = r.young;
      })
  | inr new ↦
      let r = evict_expired-Left now ttl (k + s.size_bytes) ss total d.1 (omega arith) in
      rw new (record {
        exact = omega (arith, r.exact);
        fewer = omega (arith, r.fewer);
        smaller = omega (arith, r.smaller);
        distinct = (r.fresh s.key d.0, r.distinct);
        fresh = λ j h. (h.0, r.fresh j h.1);
        young = (ground arith, r.young);
      })
]

evict_expired-IsValid :
    (l : Limits) (now : ℕ) (c : Cache) → IsValid l c → IsValid l (evict_expired l now c)
unfolding evict_expired
evict_expired-IsValid l now c v =
    let r =
      evict_expired-Left now l.ttl_ms 0 c.entries c.total_bytes v.distinct
        (omega (arith, v.exact)) in
    record {
      distinct = r.distinct;
      exact = omega (arith, r.exact);
      few = omega (arith, r.fewer, v.few);
      small = omega (arith, r.exact, r.smaller, v.exact, v.small);
    }

lookup_key : (k : Text) (ss : List Snapshot) (s : Snapshot) → lookup k ss ≡ some s → s.key ≡ k
unfolding lookup
lookup_key k [] s e = cc
lookup_key k (t ∷ ss) s e = elim (Bool-cases (text_eq t.key k)) [
  | inl same ↦
      let p : t ≡ s = ground arith in subst (λ x. x.key ≡ k) p ((text_eq_iff t.key k).0 same)
  | inr other ↦ lookup_key k ss s (ground arith)
]

length-delete-le : (k : Text) (ss : List Snapshot) → length (delete k ss) ≤ length ss
unfolding delete
length-delete-le k [] = omega arith
length-delete-le k (s ∷ ss) = ground (arith, length-delete-le k ss)

length-delete :
    (k : Text) (ss : List Snapshot) (s : Snapshot)
    → lookup k ss ≡ some s
    → length (delete k ss) + 1 ≤ length ss
unfolding delete lookup
length-delete k [] s e = cc
length-delete k (t ∷ ss) s e = ground (arith, length-delete k ss s, length-delete-le k ss)

-- A key that is read moves to the end, and nothing else changes.
use_entry-IsValid :
    (l : Limits) (k : Text) (c : Cache)
    → IsValid l c
    → IsValid l (use_entry k c (lookup k c.entries)).0
unfolding use_entry
use_entry-IsValid l k c v = go (lookup k c.entries) refl
  where
    go : (o : Option Snapshot) → lookup k c.entries ≡ o → IsValid l (use_entry k c o).0
    go none e = v
    go (some s) e = record {
      distinct =
          DistinctKeys-append_one (delete k c.entries) s
            (delete-DistinctKeys k c.entries v.distinct)
            (subst (λ j. Fresh j (delete k c.entries)) (sym (lookup_key k c.entries s e))
              (delete-Fresh k c.entries));
      exact = omega (
        arith,
        v.exact,
        ap size_of e,
        sum-delete k c.entries v.distinct,
        sum-append (delete k c.entries) (s ∷ []),
      );
      few = omega (
        arith,
        v.few,
        length-delete k c.entries s e,
        length-append (delete k c.entries) (s ∷ []),
      );
      small = v.small;
    }

-- Before any entry is dropped, `totalBytes` counts the entries with the new one.
pub set_exact :
    (l : Limits) (s : Snapshot) (c : Cache)
    → IsValid l c
    → freed (lookup s.key c.entries) c.total_bytes + s.size_bytes
      ≡ sum_bytes (delete s.key c.entries ++ s ∷ [])
unfolding freed
set_exact l s c v = counted (lookup s.key c.entries) refl
  where
    counted :
        (o : Option Snapshot)
        → lookup s.key c.entries ≡ o
        → freed o c.total_bytes + s.size_bytes ≡ sum_bytes (delete s.key c.entries ++ s ∷ [])
    counted none e = omega (
      arith,
      v.exact,
      ap size_of e,
      sum-delete s.key c.entries v.distinct,
      sum-append (delete s.key c.entries) (s ∷ []),
    )
    counted (some t) e = omega (
      arith,
      v.exact,
      ap size_of e,
      sum-delete s.key c.entries v.distinct,
      sum-append (delete s.key c.entries) (s ∷ []),
    )

-- Storing a page keeps a valid cache valid: its keys are distinct, its bytes are counted exactly, and
-- it holds no more entries and bytes than it may.
pub set-IsValid : (l : Limits) (s : Snapshot) (c : Cache) → IsValid l c → IsValid l (set l s c)
unfolding set evict_to_limits
set-IsValid l s c v = elim (Bool-cases (ltb l.max_bytes s.size_bytes)) [
  | inl big ↦ rw big v
  | inr fits ↦ rw fits (
      evict_oldest-IsValid l _ _
        (DistinctKeys-append_one (delete s.key c.entries) s
          (delete-DistinctKeys s.key c.entries v.distinct) (delete-Fresh s.key c.entries))
        (set_exact l s c v))
]

-- Reading a page, at whatever time, keeps a valid cache valid.
pub get-IsValid :
    (l : Limits) (now : ℕ) (k : Text) (c : Cache) → IsValid l c → IsValid l (get l now k c).0
unfolding get
get-IsValid l now k c v =
    use_entry-IsValid l k (evict_expired l now c) (evict_expired-IsValid l now c v)
