-- ===== src/Prune/Cost/Rates.antt =====
-- The tier of rates that is chosen: src/prune/prune.ts.
use o_pi.Common.{
  ℕ, ◌≤◌, ◌<◌, true, false, ◌&&◌, List, [], ◌∷◌, Option, none, some, ltb, ◌≡◌, inl, inr, refl,
  arith, Bool-cases, In, subst,
}
use o_pi.Prune.Cost.{Tier, above, select_from, select_rates}

-- How a run over tiers ends, from the rates and the threshold that hold before it.
data Chosen (tokens rates : ℕ) (threshold : Option ℕ) (ts : List Tier) (result : ℕ) : Type 0 where
  keeps :
      result ≡ rates
      → ((u : Tier)
          → In u ts
          → u.input_tokens_above < tokens
          → above u.input_tokens_above threshold ≡ false)
      → Chosen tokens rates threshold ts result
  takes :
      (t : Tier)
      → In t ts
      → t.input_tokens_above < tokens
      → above t.input_tokens_above threshold ≡ true
      → result ≡ t.rates
      → ((u : Tier)
          → In u ts
          → u.input_tokens_above < tokens
          → u.input_tokens_above ≤ t.input_tokens_above)
      → Chosen tokens rates threshold ts result

head_of :
    (P : Tier → Type 0) (t : Tier) (ts : List Tier)
    → P t
    → ((u : Tier) → In u ts → P u)
    → (u : Tier) → In u (t ∷ ts)
    → P u
head_of P t ts p f u (inl e) = subst P e p
head_of P t ts p f u (inr m) = f u m

above_trans : (a b : ℕ) (o : Option ℕ) → above a o ≡ true → a < b → above b o ≡ true
above_trans a b none h k = refl
above_trans a b (some c) h k = ground arith

not_above-le : (a b : ℕ) (o : Option ℕ) → above a o ≡ false → above b o ≡ true → a ≤ b
not_above-le a b none h k = cc
not_above-le a b (some c) h k = ground arith

select_from-Chosen :
    (tokens rates : ℕ) (o : Option ℕ) (ts : List Tier)
    → Chosen tokens rates o ts (select_from tokens rates o ts)
unfolding select_from
select_from-Chosen tokens rates o [] = keeps refl (λ u m. elim m [ ])
select_from-Chosen tokens rates o (t ∷ ts) =
    elim (Bool-cases (ltb t.input_tokens_above tokens && above t.input_tokens_above o)) [
      | inl e ↦ rw e (
          taken (ground arith) (ground arith)
            (select_from-Chosen tokens t.rates (some t.input_tokens_above) ts))
      | inr e ↦ rw e (kept e (select_from-Chosen tokens rates o ts))
    ]
  where
    taken :
        {r : ℕ}
        → t.input_tokens_above < tokens
        → above t.input_tokens_above o ≡ true
        → Chosen tokens t.rates (some t.input_tokens_above) ts r
        → Chosen tokens rates o (t ∷ ts) r
    taken low up (keeps e f) = takes t (inl refl) low up e (
        head_of (λ u. u.input_tokens_above < tokens → u.input_tokens_above ≤ t.input_tokens_above) t
          ts (λ h. omega arith) (λ u m h. let g = f u m h in ground arith))
    taken low up (takes s m lo ab e f) =
        takes s (inr m) lo
          (above_trans t.input_tokens_above s.input_tokens_above o up (ground arith)) e
          (head_of
            (λ u. u.input_tokens_above < tokens → u.input_tokens_above ≤ s.input_tokens_above) t ts
            (λ h. ground arith) f)

    kept :
        {r : ℕ}
        → (ltb t.input_tokens_above tokens && above t.input_tokens_above o) ≡ false
        → Chosen tokens rates o ts r
        → Chosen tokens rates o (t ∷ ts) r
    kept off (keeps e f) = keeps e (
        head_of (λ u. u.input_tokens_above < tokens → above u.input_tokens_above o ≡ false) t ts
          (λ h. ground arith) f)
    kept off (takes s m lo ab e f) = takes s (inr m) lo ab e (
        head_of (λ u. u.input_tokens_above < tokens → u.input_tokens_above ≤ s.input_tokens_above) t
          ts (λ h. not_above-le t.input_tokens_above s.input_tokens_above o (ground arith) ab) f)

-- The rates for a number of tokens.
pub data Rated (base : ℕ) (tiers : List Tier) (tokens result : ℕ) : Type 0 where
  by_base :
      result ≡ base
      → ((u : Tier) → In u tiers → tokens ≤ u.input_tokens_above)
      → Rated base tiers tokens result
  by_tier :
      (t : Tier)
      → In t tiers
      → t.input_tokens_above < tokens
      → result ≡ t.rates
      → ((u : Tier)
          → In u tiers
          → u.input_tokens_above < tokens
          → u.input_tokens_above ≤ t.input_tokens_above)
      → Rated base tiers tokens result

-- The rates are those of a tier with the largest threshold below the number of tokens, in whatever
-- order the tiers stand, and the base rates exactly where no threshold is below it.
pub select_rates-Rated :
    (base : ℕ) (tiers : List Tier) (tokens : ℕ)
    → Rated base tiers tokens (select_rates base tiers tokens)
unfolding select_rates
select_rates-Rated base tiers tokens = elim (select_from-Chosen tokens base none tiers) [
  | keeps e f ↦ by_base e (λ u m. ground (arith, f u m))
  | takes t m lo ab e f ↦ by_tier t m lo e f
]
