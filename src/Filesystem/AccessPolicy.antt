-- ===== src/Filesystem/AccessPolicy.antt =====
-- The mandatory path policy: src/filesystem/kernel/access-policy.ts. The paths of the host
-- (`path.normalize`, `path.isAbsolute`, `path.join`) are parameters.
pub mod Blocking
pub mod Meaning
use o_pi.Common.{
  ℕ, Text, text, text_eq, starts_with, ends_with, contains, includes, Bool, true, false, not, ◌&&◌,
  ◌||◌, List, [], ◌∷◌, ◌++◌, any, Option, none, some, if◌then◌else◌, ◌==◌, is_empty, map, reverse,
}

pub record HostPaths : Type 0 where
  pub normalize : Text → Text
  pub is_absolute : Text → Bool
  pub join : Text → Text → Text

pub record PathIdentity : Type 0 where
  pub display_path : Text
  pub absolute_path : Text
  pub workspace_path : Option Text

pub data Phase : Type 0 where
  lexical : Phase
  canonical : Phase
  parent : Phase

pub record BlockedPathMatch : Type 0 where
  pub input_path : Text
  pub matched_path : Text
  pub matched_rule : Text
  pub phase : Phase

pub record CompiledRule : Type 0 where
  pub source : Text
  pub path : Text
  pub absolute : Bool
  pub directory : Bool

abbrev pub slash : ℕ
slash = 47

abbrev pub backslash : ℕ
backslash = 92

-- `replaceAll("\\", "/")`
unfoldable pub to_slashes : Text → Text
to_slashes [] = []
to_slashes (c ∷ t) = (if c == backslash then slash else c) ∷ to_slashes t

unfoldable pub normalize_path : HostPaths → Text → Text
unfolding to_slashes
normalize_path h v = to_slashes (h.normalize v)

unfoldable pub normalize_logical_path : Text → Text
unfolding to_slashes
normalize_logical_path [] = text "."
normalize_logical_path (c ∷ t) = to_slashes (c ∷ t)

abbrev tilde : ℕ
tilde = 126

abbrev drop_two : Text → Text
drop_two [] = []
drop_two (a ∷ []) = []
drop_two (a ∷ b ∷ t) = t

-- The tilde stands for the home directory alone or before a separator.
unfoldable pub expand_home_path : HostPaths → Text → Text → Text
expand_home_path h home v =
    if text_eq v (tilde ∷ [])
    then home
    else if starts_with v (tilde ∷ slash ∷ []) || starts_with v (tilde ∷ backslash ∷ [])
    then h.join home (drop_two v)
    else v

-- `/[\\/]$/u`
unfoldable pub ends_in_separator : Text → Bool
ends_in_separator t = ends_with t (slash ∷ []) || ends_with t (backslash ∷ [])

unfoldable pub strip_leading : Text → Text
strip_leading [] = []
strip_leading (c ∷ t) = let rest = strip_leading t in if c == slash then rest else c ∷ t

unfoldable pub strip_trailing : Text → Text
unfolding strip_leading
strip_trailing t = reverse (strip_leading (reverse t))

unfoldable pub compile_rule : HostPaths → Text → Text → CompiledRule
unfolding expand_home_path ends_in_separator strip_trailing normalize_path
compile_rule h home rule =
    let expanded = expand_home_path h home rule in
    let absolute = h.is_absolute expanded in
    let normalized = strip_trailing (normalize_path h expanded) in
    record {
      source = rule;
      path = if absolute then normalized else strip_leading normalized;
      absolute = absolute;
      directory = ends_in_separator expanded;
    }

unfoldable pub match_candidate : Text → Text → Bool → Bool
match_candidate candidate [] directory = false
match_candidate candidate (c ∷ t) directory =
    let rule = c ∷ t in
    if text_eq candidate rule
    then true
    else if directory && starts_with candidate (rule ++ slash ∷ [])
    then true
    else if ends_with candidate (slash ∷ rule)
    then true
    else directory && contains candidate (slash ∷ rule ++ slash ∷ [])

-- `[...new Set(list)]`
unfoldable pub unique_from : List Text → List Text → List Text
unique_from seen [] = []
unique_from seen (t ∷ ts) =
    let skipped = unique_from seen ts in
    let added = unique_from (t ∷ seen) ts in if includes seen t then skipped else t ∷ added

unfoldable pub workspace_part : HostPaths → Option Text → List Text
unfolding normalize_path
workspace_part h none = []
workspace_part h (some w) = normalize_path h w ∷ []

unfoldable pub candidate_paths : HostPaths → PathIdentity → Bool → List Text
unfolding normalize_path workspace_part unique_from
candidate_paths h i true = normalize_path h i.absolute_path ∷ []
candidate_paths h i false = unique_from [] (
    normalize_path h i.display_path ∷ workspace_part h i.workspace_path
    ++ normalize_path h i.absolute_path ∷ [])

unfoldable pub identity_matches_rule : HostPaths → PathIdentity → CompiledRule → Bool
unfolding candidate_paths match_candidate
identity_matches_rule h i r =
    any (λ c. match_candidate c r.path r.directory) (candidate_paths h i r.absolute)

unfoldable pub first_match :
    HostPaths → Text → PathIdentity → Phase → List CompiledRule → Option BlockedPathMatch
unfolding identity_matches_rule
first_match h input i phase [] = none
first_match h input i phase (r ∷ rs) =
    let rest = first_match h input i phase rs in
    if is_empty r.path || not (identity_matches_rule h i r)
    then rest
    else some (record {
      input_path = input;
      matched_path = i.absolute_path;
      matched_rule = r.source;
      phase = phase;
    })

-- The policy with the rules of its options, compiled in order.
unfoldable pub blocked_match :
    HostPaths → Text → List Text → Text → PathIdentity → Phase → Option BlockedPathMatch
unfolding first_match compile_rule
blocked_match h home rules input i phase =
    first_match h input i phase (map (compile_rule h home) rules)

unfoldable pub path_matches_rule : HostPaths → Text → PathIdentity → Text → Bool
unfolding compile_rule identity_matches_rule
path_matches_rule h home i rule = identity_matches_rule h i (compile_rule h home rule)

unfoldable pub path_matches_any_rule : HostPaths → Text → PathIdentity → List Text → Bool
unfolding compile_rule identity_matches_rule
path_matches_any_rule h home i rules =
    any (λ rule. identity_matches_rule h i (compile_rule h home rule)) rules
