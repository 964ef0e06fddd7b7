-- ===== src/Web/NetworkPolicy/Allowed.antt =====
-- No lookup yields a blocked address: src/web-tools/network/network-policy.ts.
use o_pi.Common.{
  Text, Bool, true, false, List, [], ◌∷◌, Option, none, some, some_inj, Option-cases, Bool-cases,
  leb, ◌≡◌, ◌≢◌, ◌↔◌, ◌⊎◌, inl, inr, refl, sym, ap, subst, ◌∙◌, In,
}
use o_pi.Web.NetworkPolicy.{
  Addresses, LookupAddress, resolves, Answer, access_denied, not_found, all_of, one_of,
  is_allowed_resolved_address, normal, insert, sorted, find_blocked, resolve_allowed_addresses,
  answer_of, secure_lookup,
}

module _ (a c : LookupAddress) (l : List LookupAddress) where
  insert_front : leb a.family c.family ≡ true → insert a (c ∷ l) ≡ a ∷ c ∷ l
  unfolding insert
  insert_front e = rw e refl

  insert_behind : leb a.family c.family ≡ false → insert a (c ∷ l) ≡ c ∷ insert a l
  unfolding insert
  insert_behind e = rw e refl

insert-In : (a b : LookupAddress) (l : List LookupAddress) → In b (insert a l) ↔ ((a ≡ b) ⊎ In b l)
unfolding insert
insert-In a b [] = (λ m. m, λ m. m)
insert-In a b (c ∷ l) = elim (Bool-cases (leb a.family c.family)) [
  | inl e ↦ rw (insert_front a c l e) (λ m. m, λ m. m)
  | inr e ↦
      let (to, back) = insert-In a b l in
      rw (insert_behind a c l e) (
        λ m. elim m [
          | inl h ↦ inr (inl h)
          | inr n ↦ elim (to n) [ inl h ↦ inl h | inr k ↦ inr (inr k) ]
        ],
        λ m. elim m [
          | inl h ↦ inr (back (inl h))
          | inr (inl h) ↦ inl h
          | inr (inr k) ↦ inr (back (inr k))
        ],
      )
]

-- An address of an answer, with a family of 4 or 6.
abbrev pub From : List LookupAddress → LookupAddress → Type 0
From answer a = (b : LookupAddress) × In b answer × (normal b ≡ a)

sorted-From : (l : List LookupAddress) (a : LookupAddress) → In a (sorted l) ↔ From l a
unfolding sorted
sorted-From [] a = (λ m. absurd m, λ w. absurd w.1)
sorted-From (c ∷ l) a =
    let (to, back) = insert-In (normal c) a (sorted l) in
    let (there, here) = sorted-From l a in
    (
      λ m. elim (to m) [
        | inl h ↦ (c, inl refl, h)
        | inr n ↦ let (b, k, e) = there n in (b, inr k, e)
      ],
      λ w.
          let (b, k, e) = w in
          elim k [ inl h ↦ back (inl (ap normal h ∙ e)) | inr n ↦ back (inr (here (b, n, e))) ],
    )

sorted_cons : (c : LookupAddress) (l : List LookupAddress) → sorted (c ∷ l) ≢ []
unfolding sorted
sorted_cons c l h =
    let m = (insert-In (normal c) (normal c) (sorted l)).1 (inl refl) in subst (In (normal c)) h m

module _ (ip : Addresses) (ranges : List Text) where
  abbrev pub IsAllowed : LookupAddress → Type 0
  IsAllowed a = is_allowed_resolved_address ip ranges a.address ≡ true

  nothing_found :
      (l : List LookupAddress)
      → find_blocked ip ranges l ≡ none
      → (a : LookupAddress) → In a l
      → IsAllowed a
  unfolding find_blocked
  nothing_found [] h a m = absurd m
  nothing_found (c ∷ l) h a m =
      elim (Bool-cases (is_allowed_resolved_address ip ranges c.address)) [
        | inl e ↦ elim m [
          | inl k ↦ subst IsAllowed k e
          | inr n ↦ nothing_found l (sym (rw e refl) ∙ h) a n
        ]
        | inr e ↦ absurd (let g : some c.address ≡ none = sym (rw e refl) ∙ h in cc)
      ]

  one_found :
      (l : List LookupAddress) (t : Text)
      → find_blocked ip ranges l ≡ some t
      → (a : LookupAddress) × In a l
        × (a.address ≡ t)
        × (is_allowed_resolved_address ip ranges a.address ≡ false)
  unfolding find_blocked
  one_found [] t h = absurd cc
  one_found (c ∷ l) t h = elim (Bool-cases (is_allowed_resolved_address ip ranges c.address)) [
    | inl e ↦ let (a, m, q, f) = one_found l t (sym (rw e refl) ∙ h) in (a, inr m, q, f)
    | inr e ↦ (c, inl refl, some_inj c.address t (sym (rw e refl) ∙ h), e)
  ]

  -- The outcomes of a lookup.
  pub data Looked (all : Bool) : Option (List LookupAddress) → Answer → Type 0 where
    no_answer : Looked all none not_found
    empty_answer : Looked all (some []) not_found
    denied :
        {answer : List LookupAddress} (a : LookupAddress)
        → In a answer
        → is_allowed_resolved_address ip ranges a.address ≡ false
        → Looked all (some answer) access_denied
    allowed_all :
        {answer l : List LookupAddress}
        → all ≡ true
        → ((a : LookupAddress) → In a answer → IsAllowed a)
        → ((a : LookupAddress) → In a l ↔ From answer a)
        → Looked all (some answer) (all_of l)
    allowed_one :
        {answer : List LookupAddress} {a : LookupAddress}
        → all ≡ false
        → ((b : LookupAddress) → In b answer → IsAllowed b)
        → From answer a
        → Looked all (some answer) (one_of a)

  every-IsAllowed :
      (answer : List LookupAddress)
      → find_blocked ip ranges (sorted answer) ≡ none
      → (a : LookupAddress) → In a answer
      → IsAllowed a
  every-IsAllowed answer h a m =
      nothing_found (sorted answer) h (normal a) ((sorted-From answer (normal a)).1 (a, m, refl))

  resolved-Looked :
      (all : Bool) (c : LookupAddress) (l s : List LookupAddress)
      → s ≡ sorted (c ∷ l)
      → ((a : LookupAddress) → In a (c ∷ l) → IsAllowed a)
      → Looked all (some (c ∷ l)) (answer_of all (resolves s))
  resolved-Looked true c l s e h =
      allowed_all refl h (λ a. subst (λ k. In a k ↔ From (c ∷ l) a) (sym e) (sorted-From (c ∷ l) a))
  resolved-Looked false c l [] e h = absurd (sorted_cons c l (sym e))
  resolved-Looked false c l (a ∷ s) e h =
      allowed_one refl h ((sorted-From (c ∷ l) a).0 (subst (In a) e (inl refl)))

  -- A lookup is refused if one address of the answer is neither public nor in an allowed range, and it
  -- finds nothing if there is no answer; otherwise all addresses of the answer are allowed, and what is
  -- handed on is all of them, or one.
  pub secure_lookup-Looked :
      (all : Bool) (addresses : Option (List LookupAddress))
      → Looked all addresses (secure_lookup ip ranges all addresses)
  unfolding secure_lookup resolve_allowed_addresses
  secure_lookup-Looked all none = no_answer
  secure_lookup-Looked all (some []) = empty_answer
  secure_lookup-Looked all (some (c ∷ l)) =
      elim (Option-cases (find_blocked ip ranges (sorted (c ∷ l)))) [
        | inl e ↦ rw e (resolved-Looked all c l (sorted (c ∷ l)) refl (every-IsAllowed (c ∷ l) e))
        | inr (t, e) ↦
            let (a, m, q, f) = one_found (sorted (c ∷ l)) t e in
            let (b, n, g) = (sorted-From (c ∷ l) a).0 m in
            rw e (denied b n (ap (λ x. is_allowed_resolved_address ip ranges x.address) g ∙ f))
      ]
