-- ===== src/Approval/PatternGuard.antt =====
-- The deny patterns of the shell tool: src/bash-tool/pattern-guard.ts. The engine of `RegExp` is a
-- parameter: `none` where the constructor throws.
use o_pi.Common.{
  ℕ, Text, text, starts_with, Bool, ◌||◌, not, List, [], ◌∷◌, ◌++◌, any, Option, none, some,
  if◌then◌else◌, ◌>>=◌, ◌==◌,
}

pub record Guard : Type 0 where
  pub deny_patterns : List Text
  pub deny_regex : List Text

pub data MatchKind : Type 0 where
  pattern regex : MatchKind

pub record DenyMatch : Type 0 where
  pub kind : MatchKind
  pub rule : Text
  pub message : Text

pub record Engine : Type 0 where
  pub unicode : Text → Option (Text → Bool)
  pub plain : Text → Option (Text → Bool)

-- `text.includes(pattern)`
unfoldable pub contains_text : Text → Text → Bool
contains_text [] p = starts_with [] p
contains_text (c ∷ t) p = starts_with (c ∷ t) p || contains_text t p

-- `|\{}()[]^$+*?.`
is_special : ℕ → Bool
is_special c = any (λ d. d == c) (text "|\\{}()[]^$+*?.")

glob_unit : ℕ → Text
unfolding is_special
glob_unit c =
    if c == b'*'
    then text "[\\s\\S]*"
    else if c == b'?'
    then text "[\\s\\S]"
    else if is_special c
    then 92 ∷ c ∷ []
    else c ∷ []

unfoldable pub glob_source : Text → Text
unfolding glob_unit
glob_source [] = []
glob_source (c ∷ t) = glob_unit c ++ glob_source t

has_wildcard : Text → Bool
has_wildcard p = any (λ c. c == b'*' || c == b'?') p

module _ (engine : Engine) where
  glob_pattern_matches : Text → Text → Option Bool
  unfolding has_wildcard
  glob_pattern_matches t p =
      if not (has_wildcard p)
      then some (contains_text t p)
      else engine.unicode (glob_source p) >>= λ test. some (test t)

  regex_matches : Text → Text → Option Bool
  regex_matches t rule = engine.plain rule >>= λ test. some (test t)

  -- The first rule of the list that is hit.
  first_hit : (Text → Option Bool) → List Text → Option (Option Text)
  first_hit hits [] = some none
  first_hit hits (p ∷ ps) =
      let rest = first_hit hits ps in hits p >>= λ hit. if hit then some (some p) else rest

  abbrev pub pattern_match : Text → DenyMatch
  pattern_match p = record {
    kind = pattern;
    rule = p;
    message = text "Text blocked by deny pattern.";
  }

  abbrev pub regex_match : Text → DenyMatch
  regex_match p = record { kind = regex; rule = p; message = text "Text blocked by deny regex." }

  by_regex : Option Text → Option DenyMatch
  by_regex none = none
  by_regex (some p) = some (regex_match p)

  by_pattern : Guard → Text → Option Text → Option (Option DenyMatch)
  unfolding by_regex
  by_pattern g t (some p) = some (some (pattern_match p))
  by_pattern g t none = first_hit (regex_matches t) g.deny_regex >>= λ r. some (by_regex r)

  unfoldable pub check_denied_text : Text → Guard → Option (Option DenyMatch)
  unfolding by_pattern glob_pattern_matches regex_matches first_hit
  check_denied_text t g =
      first_hit (glob_pattern_matches t) g.deny_patterns >>= λ r. by_pattern g t r
