-- ===== src/Approval/Store/Dedupe.antt =====
-- Deduplication of the persistent rules: src/approval/store.ts, `dedupeRules`.
use o_pi.Common.{
  Text, text, text_eq, Bool, true, false, map, List, [], ◌∷◌, ◌++◌, Option, none, some, ◌≡◌, refl,
  ◌≢◌, inl, inr, sym, ◌∙◌, arith, In, All, Bool-cases, includes, includes_iff, ◌>>=◌, if◌then◌else◌,
}
use o_pi.Approval.{
  Request, AllowRule, Matchers, exact_command, command_prefix, exact_path, path_glob,
}
use o_pi.Approval.Store.{
  Kind, kind_name, rule_key, dedupe_from, dedupe_rules, allow_rule_matches, any_matches, match_kind,
}

-- No code unit is NUL.
abbrev pub NoNul : Text → Type 0
NoNul t = All (λ c. c ≢ 0) t

-- The text before the first NUL and the text after it are determined.
nul_split : (a b c d : Text) → NoNul a → NoNul b → a ++ 0 ∷ c ≡ b ++ 0 ∷ d → (a ≡ b) × (c ≡ d)
nul_split [] [] c d ha hb e = (refl, cc)
nul_split [] (y ∷ b) c d ha hb e = absurd (hb.0 (ground arith))
nul_split (x ∷ a) [] c d ha hb e = absurd (ha.0 (ground arith))
nul_split (x ∷ a) (y ∷ b) c d ha hb e =
    let (p, q) = nul_split a b c d ha.1 hb.1 (ground arith) in (ground arith, q)

kind_name-NoNul : (k : Kind) → NoNul (kind_name k)
unfolding kind_name text
kind_name-NoNul exact_command = omega arith
kind_name-NoNul command_prefix = omega arith
kind_name-NoNul exact_path = omega arith
kind_name-NoNul path_glob = omega arith

kind_name_inj : (k l : Kind) → kind_name k ≡ kind_name l → k ≡ l
unfolding kind_name text
kind_name_inj exact_command l e = ground arith
kind_name_inj command_prefix l e = ground arith
kind_name_inj exact_path l e = ground arith
kind_name_inj path_glob l e = ground arith

-- Rules of one key agree on all but the time stamp.
rule_key_inj :
    (r s : AllowRule)
    → NoNul r.tool
    → NoNul s.tool
    → rule_key r ≡ rule_key s
    → (r.tool ≡ s.tool) × (r.kind ≡ s.kind) × (r.value ≡ s.value)
unfolding rule_key
rule_key_inj r s hr hs e =
    let (p, rest) = nul_split r.tool s.tool _ _ hr hs e in
    let (k, v) =
      nul_split (kind_name r.kind) (kind_name s.kind) _ _ (kind_name-NoNul r.kind)
        (kind_name-NoNul s.kind) rest in
    (p, kind_name_inj r.kind s.kind k, v)

module _ (m : Matchers) (q : Request) where
  abbrev pub Missed : AllowRule → Type 0
  Missed r = allow_rule_matches m r q ≡ some false

  abbrev pub ToolNoNul : AllowRule → Type 0
  ToolNoNul r = NoNul r.tool

  same_match :
      (r s : AllowRule)
      → (r.tool ≡ s.tool) × (r.kind ≡ s.kind) × (r.value ≡ s.value)
      → allow_rule_matches m r q ≡ allow_rule_matches m s q
  unfolding allow_rule_matches
  same_match r s (a, b, c) =
      λ i. if text_eq (a i) q.tool then match_kind m (b i) (c i) q else some false

  seen-Missed :
      (seen : List AllowRule) (r : AllowRule)
      → All Missed seen
      → All ToolNoNul seen
      → ToolNoNul r
      → In (rule_key r) (map rule_key seen)
      → Missed r
  seen-Missed [] r hm hn h i = elim i [ ]
  seen-Missed (s ∷ seen) r hm hn h (inl e) = same_match r s (rule_key_inj r s h hn.0 (sym e)) ∙ hm.0
  seen-Missed (s ∷ seen) r hm hn h (inr i) = seen-Missed seen r hm.1 hn.1 h i

  dedupe_from-any :
      (seen rs : List AllowRule)
      → All Missed seen
      → All ToolNoNul seen
      → All ToolNoNul rs
      → any_matches m (dedupe_from (map rule_key seen) rs) q ≡ any_matches m rs q
  unfolding dedupe_from any_matches
  dedupe_from-any seen [] hm hn h = refl
  dedupe_from-any seen (r ∷ rs) hm hn (h, hs) =
      elim (Bool-cases (includes (map rule_key seen) (rule_key r))) [
        | inl old ↦
            let missed =
              seen-Missed seen r hm hn h ((includes_iff (map rule_key seen) (rule_key r)).0 old) in
            rw (old, missed) (dedupe_from-any seen rs hm hn hs)
        | inr new ↦ rw new (
            fresh (allow_rule_matches m r q) refl
              (λ miss. dedupe_from-any (r ∷ seen) rs (miss, hm) (h, hn) hs))
      ]
    where
      fresh :
          (o : Option Bool)
          → allow_rule_matches m r q ≡ o
          → (Missed r
              → any_matches m (dedupe_from (map rule_key (r ∷ seen)) rs) q ≡ any_matches m rs q)
          → (allow_rule_matches m r q >>= λ hit.
              if hit then some true else any_matches m (dedupe_from (map rule_key (r ∷ seen)) rs) q)
            ≡ (allow_rule_matches m r q >>= λ hit. if hit then some true else any_matches m rs q)
      fresh none e ih = rw e refl
      fresh (some true) e ih = rw e refl
      fresh (some false) e ih = rw e (ih e)

-- Deduplication changes no decision: the rules that it drops agree with one that it keeps, in
-- matches, in misses and in exceptions. No tool name of a rule holds a NUL.
pub dedupe_rules-any :
    (m : Matchers) (q : Request) (rs : List AllowRule)
    → All (λ r. NoNul r.tool) rs
    → any_matches m (dedupe_rules rs) q ≡ any_matches m rs q
unfolding dedupe_rules
dedupe_rules-any m q rs h = dedupe_from-any m q [] rs tt tt h
