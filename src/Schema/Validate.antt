-- ===== src/Schema/Validate.antt =====
-- The validation itself: src/schema-validator.ts. References may run in a circle, which the code
-- follows without end, so that the depth of the recursion is bounded by fuel. Where the code reads a
-- record at a key that it does not know, it reads what is inherited too.
use o_pi.Common.{
  ℕ, zero, suc, Text, text, text_eq, starts_with, Bool, true, false, not, ◌&&◌, List, [], ◌∷◌, ◌++◌,
  any, Option, none, some, if◌then◌else◌, ◌==◌, ◌>>=◌,
}
use o_pi.Schema.Json.{
  Numbers, Json, bool, number, string, array, object, Items, nil, cons, Members, end, member, field,
  is_schema,
}
use o_pi.Schema.Keywords.{
  Run, done, thrown, stuck, valid, fail, chain, check, validate_string, validate_number,
  validate_const_and_enum, array_size, matches_type,
}

abbrev pub slash : ℕ
slash = 47

abbrev pub tilde : ℕ
tilde = 126

abbrev pub digit_zero : ℕ
digit_zero = 48

abbrev pub digit_one : ℕ
digit_one = 49

-- `split("/")`
abbrev first_part : List Text → ℕ → List Text
first_part [] c = (c ∷ []) ∷ []
first_part (p ∷ ps) c = (c ∷ p) ∷ ps

unfoldable pub split : Text → List Text
split [] = [] ∷ []
split (c ∷ t) = let rest = split t in if c == slash then [] ∷ rest else first_part rest c

-- A tilde and the digit become the character.
unfoldable pub replace : ℕ → ℕ → Text → Text
replace digit by [] = []
replace digit by (c ∷ []) = c ∷ []
replace digit by (c ∷ d ∷ t) =
    let behind = replace digit by t in
    let rest = replace digit by (d ∷ t) in
    if c == tilde && d == digit then by ∷ behind else c ∷ rest

unfoldable pub unescape : Text → Text
unfolding replace
unescape t = replace digit_zero tilde (replace digit_one slash t)

unfoldable pub escape : Text → Text
escape [] = []
escape (c ∷ t) =
    let rest = escape t in
    if c == tilde
    then tilde ∷ digit_zero ∷ rest
    else if c == slash
    then tilde ∷ digit_one ∷ rest
    else c ∷ rest

unfoldable pub append_path : Text → Text → Text
unfolding escape text
append_path path property = path ++ text "/" ++ escape property

abbrev drop_two : Text → Text
drop_two (a ∷ b ∷ t) = t
drop_two _ = []

-- What is read at a key: an own field, `Object.prototype`, or what is neither a schema nor a record
-- with own fields, since it is missing, null or a function.
pub data Found (N : Type 0) : Type 0 where
  own : Json N → Found N
  prototype : Found N
  nothing : Found N

module _ {N : Type 0} where
  -- The members of `Object.prototype` are functions, but for `__proto__`.
  abbrev inherited : Text → Found N
  inherited k = if text_eq k (text "__proto__") then prototype else nothing

  -- `record[key]` for a record that inherits from `Object.prototype`, as those of `JSON.parse` do
  unfoldable pub look_up : Text → Members N → Found N
  unfolding field text text_eq
  look_up k ms = elim (field k ms) [ some v ↦ own v | none ↦ inherited k ]

  -- One step of a reference; `__proto__` of `Object.prototype` is null.
  abbrev step_into : Text → Found N → Found N
  step_into k (own (object ms)) = look_up k ms
  step_into k _ = nothing

  unfoldable pub walk : List Text → Found N → Found N
  unfolding look_up unescape
  walk [] v = v
  walk (t ∷ ts) v = walk ts (step_into (unescape t) v)

  -- `Object.prototype` is a record and has no keyword of a schema.
  abbrev as_schema : Found N → Option (Json N)
  as_schema (own v) = if is_schema v then some v else none
  as_schema prototype = some (object end)
  as_schema nothing = none

  -- No result is an exception.
  unfoldable pub resolve_reference : Json N → Text → Option (Json N)
  unfolding walk split text
  resolve_reference root reference =
      if not (starts_with reference (text "#/"))
      then none
      else as_schema (walk (split (drop_two reference)) (own root))

abbrev pub Pattern : Type 0 → Type 0
Pattern N = (Text → Bool) × Json N

-- How a schema is applied to a value at a path.
abbrev pub Apply : Type 0 → Type 0
Apply N = Json N → Json N → Text → Run

module _ {N : Type 0} (n : Numbers N) (quote : Text → Text)
    (regex : Text → Option (Text → Bool)) where
  abbrev with_pattern : Option (Text → Bool) → Json N → List (Pattern N) → Option (List (Pattern N))
  with_pattern none s ps = none
  with_pattern (some test) s ps = some ((test, s) ∷ ps)

  unfoldable pub compile_members : Members N → Option (List (Pattern N))
  compile_members end = some []
  compile_members (member p s ms) =
      let rest = compile_members ms in
      if is_schema s then rest >>= with_pattern (regex p) s else none

  abbrev pub compile_pattern_properties : Option (Json N) → Option (List (Pattern N))
  compile_pattern_properties (some (object ms)) = compile_members ms
  compile_pattern_properties _ = some []

  module _ (all : Bool) (v : Apply N) where
    abbrev pub or_else : Run → Run → Run
    or_else (done true es) next = valid
    or_else (done false es) next = next
    or_else thrown next = thrown
    or_else stuck next = stuck

    unfoldable pub any_items : Items N → Json N → Text → Run
    unfolding fail text
    any_items nil x path = fail path (text "anyOf")
    any_items (cons c cs) x path =
        let rest = any_items cs x path in if is_schema c then or_else (v c x path) rest else thrown

    abbrev pub any_of : Option (Json N) → Json N → Text → Run
    any_of (some (array cs)) x path = any_items cs x path
    any_of _ x path = valid

    unfoldable pub each_item : Json N → Items N → ℕ → Text → Run
    unfolding chain text
    each_item s nil i path = valid
    each_item s (cons x xs) i path =
        chain all (v s x (path ++ text "/" ++ n.write (n.of_nat i))) (each_item s xs (suc i) path)

    abbrev pub items_run : Option (Json N) → Items N → Text → Run
    items_run none xs path = valid
    items_run (some s) xs path = if is_schema s then each_item s xs 0 path else valid

    unfoldable pub validate_array : Members N → Items N → Text → Run
    unfolding each_item array_size field text
    validate_array s xs path =
        array_size n quote regex all s xs path (items_run (field (text "items") s) xs path)

    abbrev pub has : Text → Members N → Bool
    has k ms = elim (field k ms) [ none ↦ false | some x ↦ true ]

    abbrev pub required_one : Json N → Members N → Text → Run
    required_one (string k) ms path = check (has k ms) path (text "required")
    required_one _ ms path = valid

    unfoldable pub each_required : Items N → Members N → Text → Run
    unfolding chain fail field text
    each_required nil ms path = valid
    each_required (cons k ks) ms path =
        chain all (required_one k ms path) (each_required ks ms path)

    abbrev pub required_run : Option (Json N) → Members N → Text → Run
    required_run (some (array ks)) ms path = each_required ks ms path
    required_run _ ms path = valid

    -- Without a record of properties the code reads an empty one.
    unfoldable pub property_schema : Option (Json N) → Text → Option (Json N)
    unfolding look_up
    property_schema (some (object ps)) k = as_schema (look_up k ps)
    property_schema _ k = as_schema (look_up k end)

    abbrev pub property_run : Option (Json N) → Json N → Text → Run
    property_run none x path = valid
    property_run (some s) x path = v s x path

    unfoldable pub patterns_run : List (Pattern N) → Text → Json N → Text → Run
    unfolding chain
    patterns_run [] k x path = valid
    patterns_run ((test, s) ∷ ps) k x path =
        let rest = patterns_run ps k x path in if test k then chain all (v s x path) rest else rest

    abbrev pub is_matched : Option (Json N) → List (Pattern N) → Text → Bool
    is_matched (some s) ps k = true
    is_matched none ps k = any (λ p. p.0 k) ps

    abbrev pub additional_run : Option (Json N) → Json N → Text → Text → Run
    additional_run none x path inner = valid
    additional_run (some (bool true)) x path inner = valid
    additional_run (some (bool false)) x path inner = fail path (text "additionalProperties")
    additional_run (some (object s)) x path inner = v (object s) x inner
    additional_run (some _) x path inner = valid

    -- One property of a record: its own schema, those of the patterns, and else the additional one.
    unfoldable pub property : Members N → List (Pattern N) → Text → Json N → Text → Run
    unfolding chain patterns_run append_path field fail text property_schema
    property s ps k x path =
        let own = property_schema (field (text "properties") s) k in
        chain all (property_run own x (append_path path k)) (
          chain all (patterns_run ps k x (append_path path k)) (
            if is_matched own ps k
            then valid
            else additional_run (field (text "additionalProperties") s) x path
                (append_path path k)))

    unfoldable pub each_property : Members N → List (Pattern N) → Members N → Text → Run
    unfolding chain property
    each_property s ps end path = valid
    each_property s ps (member k x ms) path =
        chain all (property s ps k x path) (each_property s ps ms path)

    abbrev pub properties_run : Members N → Option (List (Pattern N)) → Members N → Text → Run
    properties_run s none ms path = thrown
    properties_run s (some ps) ms path = each_property s ps ms path

    unfoldable pub validate_object : Members N → Members N → Text → Run
    unfolding chain each_required each_property compile_members field text
    validate_object s ms path =
        chain all (required_run (field (text "required") s) ms path) (
          properties_run s (compile_pattern_properties (field (text "patternProperties") s)) ms
            path)

    abbrev pub by_kind : Members N → Json N → Text → Run
    by_kind s (string t) path = validate_string n quote regex all s t path
    by_kind s (number x) path = validate_number n quote regex all s x path
    by_kind s (array xs) path = validate_array s xs path
    by_kind s (object ms) path = validate_object s ms path
    by_kind s _ path = valid

    abbrev pub typed : Option (Json N) → Members N → Json N → Text → Run
    typed none s x path = by_kind s x path
    typed (some t) s x path =
        if matches_type n quote regex t x then by_kind s x path else fail path (text "type")

    unfoldable pub validate_keywords : Members N → Json N → Text → Run
    unfolding chain any_items validate_const_and_enum validate_string validate_number validate_array
        validate_object matches_type fail field text
    validate_keywords s x path = chain all (any_of (field (text "anyOf") s) x path) (
        chain all (validate_const_and_enum n quote regex s x path)
          (typed (field (text "type") s) s x path))

    abbrev pub apply_resolved : Option (Json N) → Json N → Text → Run
    apply_resolved none x path = thrown
    apply_resolved (some s) x path = v s x path

    abbrev pub by_reference : Json N → Option (Json N) → Members N → Json N → Text → Run
    by_reference root (some (string r)) s x path = apply_resolved (resolve_reference root r) x path
    by_reference root _ s x path = validate_keywords s x path

    -- A schema is a Boolean or a record; nothing else is applied.
    unfoldable pub apply_schema : Json N → Json N → Json N → Text → Run
    unfolding validate_keywords resolve_reference fail field text
    apply_schema root (bool true) x path = valid
    apply_schema root (bool false) x path = fail path (text "false schema")
    apply_schema root (object s) x path = by_reference root (field (text "$ref") s) s x path
    apply_schema root _ x path = thrown

  unfoldable pub validate_schema : ℕ → Bool → Json N → Json N → Json N → Text → Run
  unfolding apply_schema
  validate_schema zero all root s x path = stuck
  validate_schema (suc fuel) all root s x path =
      apply_schema all (validate_schema fuel all root) root s x path

  -- The validator that is compiled of a schema.
  unfoldable pub validate : ℕ → Bool → Json N → Json N → Run
  unfolding validate_schema
  validate fuel all root x = validate_schema fuel all root root x []
