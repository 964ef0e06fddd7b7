-- ===== src/Approval/Store/Memory.antt =====
-- What is remembered is found again: src/approval/store.ts.
use o_pi.Common.{
  subst, append_assoc, Text, text, text_eq, text_eq_iff, text_eq_refl, Bool, true, false, ◌||◌,
  List, [], ◌∷◌, ◌++◌, find, Option, none, some, ◌≡◌, refl, inl, inr, sym, ◌∙◌, arith, All,
  Bool-cases, Option-cases, if◌then◌else◌,
}
use o_pi.Approval.{
  Request, AllowRule, Matchers, exact_command, command_prefix, exact_path, path_glob,
}
use o_pi.Approval.Store.{
  Kind, normalize_path, Store, all_rules, matches_allow_rule, add_session_allow_rule,
  add_persistent_allow_rule, WriteOutcome, written, mkdir_failed, write_failed,
  write_persistent_rules, dedupe_rules, allow_rule_matches, any_matches, match_kind, match_path,
  create_exact_allow_rule, create_similar_allow_rule, command_target, path_target, has_prefix,
  command_prefix_of, known_prefixes, PosixPath, conservative_path_glob, similar_command,
  similar_path,
}
use o_pi.Approval.Store.Dedupe.{NoNul, dedupe_rules-any}

normalize_path_idem : (t : Text) → normalize_path (normalize_path t) ≡ normalize_path t
unfolding normalize_path
normalize_path_idem [] = refl
normalize_path_idem (c ∷ t) = ground (arith, normalize_path_idem t)

module _ (m : Matchers) (q : Request) where
  -- No remembered rule throws: picomatch compiles each stored glob.
  abbrev pub Runs : AllowRule → Type 0
  Runs r = (b : Bool) × (allow_rule_matches m r q ≡ some b)

  any_matches_hit :
      (rs later : List AllowRule) (r : AllowRule)
      → All Runs rs
      → allow_rule_matches m r q ≡ some true
      → any_matches m (rs ++ r ∷ later) q ≡ some true
  unfolding any_matches
  any_matches_hit [] later r h e = rw e refl
  any_matches_hit (s ∷ rs) later r ((true, k), h) e = rw k refl
  any_matches_hit (s ∷ rs) later r ((false, k), h) e = rw k (any_matches_hit rs later r h e)

  any_matches-append_congr :
      (rs xs ys : List AllowRule)
      → any_matches m xs q ≡ any_matches m ys q
      → any_matches m (rs ++ xs) q ≡ any_matches m (rs ++ ys) q
  unfolding any_matches
  any_matches-append_congr [] xs ys e = e
  any_matches-append_congr (r ∷ rs) xs ys e = rw (any_matches-append_congr rs xs ys e) refl

  All-append_left : (P : AllowRule → Type 0) (xs ys : List AllowRule) → All P (xs ++ ys) → All P xs
  All-append_left P [] ys h = tt
  All-append_left P (x ∷ xs) ys h = (h.0, All-append_left P xs ys h.1)

  -- A rule, if one is made, matches the request.
  abbrev Hits : Option AllowRule → Type 0
  Hits none = Unit
  Hits (some r) = allow_rule_matches m r q ≡ some true

  hit_of_Hits : (o : Option AllowRule) (r : AllowRule) → Hits o → o ≡ some r → Hits (some r)
  hit_of_Hits o r h e = subst Hits e h

  -- A rule with the request's own tool is decided by its kind.
  same_tool :
      (now tool v : Text) (k : Kind)
      → text_eq tool q.tool ≡ true
      → match_kind m k v q ≡ some true
      → Hits (some (record { created_at = now; tool = tool; kind = k; value = v }))
  unfolding allow_rule_matches
  same_tool now tool v k e h = rw e h

  bash_tool : text_eq q.tool (text "bash") ≡ true → text_eq (text "bash") q.tool ≡ true
  bash_tool e = (text_eq_iff (text "bash") q.tool).1 (sym ((text_eq_iff q.tool (text "bash")).0 e))

  exact_command_hits :
      (c : Text) → command_target q.targets ≡ some c → match_kind m exact_command c q ≡ some true
  unfolding match_kind
  exact_command_hits c e = rw (e, text_eq_refl c)

  exact_path_hits :
      (p : Text)
      → path_target q.targets ≡ some p
      → match_kind m exact_path (normalize_path p) q ≡ some true
  unfolding match_kind match_path
  exact_path_hits p e = rw (e, normalize_path_idem p, text_eq_refl (normalize_path p))

  prefix_hits :
      (c p : Text)
      → command_target q.targets ≡ some c
      → has_prefix c p ≡ true
      → match_kind m command_prefix p q ≡ some true
  unfolding match_kind
  prefix_hits c p e h = rw (e, h)

  exact-Hits : (now : Text) → Hits (create_exact_allow_rule now q)
  unfolding create_exact_allow_rule
  exact-Hits now = elim (Bool-cases (text_eq q.tool (text "bash"))) [
    | inl bash ↦ elim (Option-cases (command_target q.targets)) [
      | inl e ↦ rw (bash, e) tt
      | inr (c, e) ↦
          rw (bash, e)
            (same_tool now (text "bash") c exact_command (bash_tool bash) (exact_command_hits c e))
    ]
    | inr other ↦
        elim (Bool-cases (text_eq q.tool (text "write") || text_eq q.tool (text "edit"))) [
          | inl file ↦ elim (Option-cases (path_target q.targets)) [
            | inl e ↦ rw (other, file, e) tt
            | inr (p, e) ↦
                rw (other, file, e)
                  (same_tool now q.tool (normalize_path p) exact_path (text_eq_refl q.tool)
                    (exact_path_hits p e))
          ]
          | inr neither ↦ rw (other, neither) tt
        ]
  ]

  find_sound : (p : Text → Bool) (l : List Text) (t : Text) → find p l ≡ some t → p t ≡ true
  find_sound p [] t e = cc
  find_sound p (x ∷ l) t e = elim (Bool-cases (p x)) [
    | inl h ↦ ground arith
    | inr h ↦ find_sound p l t (ground arith)
  ]

  -- picomatch takes the glob that `conservativePathGlob` makes of the request's path, if it makes one,
  -- at this path.
  abbrev pub GlobCovers : PosixPath → Type 0
  GlobCovers px =
      (p g : Text)
      → path_target q.targets ≡ some p
      → conservative_path_glob px p ≡ some g
      → (accepts : Text → Bool) × (m.glob (normalize_path g) ≡ some accepts)
        × (accepts (normalize_path p) ≡ true)

  path_glob_hits :
      (px : PosixPath) (p g : Text)
      → GlobCovers px
      → path_target q.targets ≡ some p
      → conservative_path_glob px p ≡ some g
      → match_kind m path_glob g q ≡ some true
  unfolding match_kind match_path
  path_glob_hits px p g covers e made =
      let (accepts, compiled, yes') = covers p g e made in rw (e, compiled, yes') refl

  similar_path-Hits :
      (px : PosixPath) (now p : Text) (o : Option Text)
      → GlobCovers px
      → path_target q.targets ≡ some p
      → conservative_path_glob px p ≡ o
      → Hits (some (similar_path now q.tool p o))
  unfolding similar_path
  similar_path-Hits px now p none covers e made =
      same_tool now q.tool (normalize_path p) exact_path (text_eq_refl q.tool) (exact_path_hits p e)
  similar_path-Hits px now p (some g) covers e made =
      same_tool now q.tool g path_glob (text_eq_refl q.tool) (path_glob_hits px p g covers e made)

  similar_command-Hits :
      (now c : Text) (o : Option Text)
      → text_eq q.tool (text "bash") ≡ true
      → command_target q.targets ≡ some c
      → command_prefix_of c ≡ o
      → Hits (some (similar_command now c o))
  unfolding similar_command command_prefix_of
  similar_command-Hits now c none bash e made =
      same_tool now (text "bash") c exact_command (bash_tool bash) (exact_command_hits c e)
  similar_command-Hits now c (some p) bash e made =
      same_tool now (text "bash") p command_prefix (bash_tool bash)
        (prefix_hits c p e (find_sound (has_prefix c) known_prefixes p made))

  similar-Hits :
      (px : PosixPath) (now : Text) → GlobCovers px → Hits (create_similar_allow_rule px now q)
  unfolding create_similar_allow_rule
  similar-Hits px now covers = elim (Bool-cases (text_eq q.tool (text "bash"))) [
    | inl bash ↦ elim (Option-cases (command_target q.targets)) [
      | inl e ↦ rw (bash, e) tt
      | inr (c, e) ↦ rw (bash, e) (similar_command-Hits now c (command_prefix_of c) bash e refl)
    ]
    | inr other ↦
        elim (Bool-cases (text_eq q.tool (text "write") || text_eq q.tool (text "edit"))) [
          | inl file ↦ elim (Option-cases (path_target q.targets)) [
            | inl e ↦ rw (other, file, e) tt
            | inr (p, e) ↦
                rw (other, file, e)
                  (similar_path-Hits px now p (conservative_path_glob px p) covers e refl)
          ]
          | inr neither ↦ rw (other, neither) tt
        ]
  ]

-- A rule for the session that was made of a request lets the same request pass from then on,
-- unless an older rule throws.
pub session_rule_remembered :
    (m : Matchers) (q : Request) (s : Store) (now : Text) (r : AllowRule)
    → create_exact_allow_rule now q ≡ some r
    → All (Runs m q) (all_rules s)
    → matches_allow_rule m (add_session_allow_rule r s) q ≡ some true
unfolding matches_allow_rule add_session_allow_rule
session_rule_remembered m q s now r made runs =
    rw (append_assoc s.session_rules (r ∷ []) s.persistent_rules) (
      any_matches_hit m q s.session_rules s.persistent_rules r
        (All-append_left m q (Runs m q) s.session_rules s.persistent_rules runs)
        (hit_of_Hits m q _ r (exact-Hits m q now) made))

-- The rule that "Always allow similar" makes of a request lets the same request pass from then on,
-- whatever becomes of the file, if no rule throws on the request, no tool name of a persistent rule
-- holds a NUL, and the glob, if one is made, accepts the request's own path.
pub persistent_rule_remembered :
    (m : Matchers) (px : PosixPath) (q : Request) (s : Store) (now : Text) (r : AllowRule)
    (w : WriteOutcome)
    → create_similar_allow_rule px now q ≡ some r
    → GlobCovers m q px
    → All (Runs m q) (all_rules s)
    → All (λ t. NoNul t.tool) (s.persistent_rules ++ r ∷ [])
    → matches_allow_rule m (add_persistent_allow_rule w r s).0 q ≡ some true
unfolding matches_allow_rule add_persistent_allow_rule write_persistent_rules
persistent_rule_remembered m px q s now r w made covers runs clean = after w
  where
    hit : any_matches m (s.session_rules ++ (s.persistent_rules ++ r ∷ [])) q ≡ some true
    hit =
        subst (λ l. any_matches m l q ≡ some true)
          (append_assoc s.session_rules s.persistent_rules (r ∷ []))
          (any_matches_hit m q (s.session_rules ++ s.persistent_rules) [] r runs
            (hit_of_Hits m q _ r (similar-Hits m q px now covers) made))

    deduped :
        any_matches m (s.session_rules ++ dedupe_rules (s.persistent_rules ++ r ∷ [])) q ≡ some true
    deduped =
        any_matches-append_congr m q s.session_rules _ _
          (dedupe_rules-any m q (s.persistent_rules ++ r ∷ []) clean)
        ∙ hit

    after :
        (o : WriteOutcome) → matches_allow_rule m (add_persistent_allow_rule o r s).0 q ≡ some true
    after written = deduped
    after mkdir_failed = hit
    after write_failed = deduped

-- Only the tool and the targets of a request are compared with remembered rules.
pub matches_same_call :
    (m : Matchers) (q q' : Request) (s : Store)
    → q.tool ≡ q'.tool
    → q.targets ≡ q'.targets
    → matches_allow_rule m s q ≡ matches_allow_rule m s q'
unfolding matches_allow_rule any_matches allow_rule_matches match_kind
matches_same_call m q q' s e f = go (all_rules s)
  where
    kind : (k : Kind) (v : Text) → match_kind m k v q ≡ match_kind m k v q'
    kind exact_command v = simp f
    kind command_prefix v = simp f
    kind exact_path v = simp f
    kind path_glob v = simp f

    one : (r : AllowRule) → allow_rule_matches m r q ≡ allow_rule_matches m r q'
    one r = λ i. if text_eq r.tool (e i) then kind r.kind r.value i else some false

    go : (rs : List AllowRule) → any_matches m rs q ≡ any_matches m rs q'
    go [] = refl
    go (r ∷ rs) = rw (one r, go rs) refl
