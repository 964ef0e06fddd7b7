-- ===== src/Schema/Modes.antt =====
-- The two modes of the validation and its verdicts: src/schema-validator.ts.
use o_pi.Common.{
  ℕ, zero, suc, Text, text, Bool, true, false, List, [], ◌∷◌, Option, none, some, if◌then◌else◌,
  refl, Bool-cases, inl, inr,
}
use o_pi.Schema.Json.{
  Numbers, Json, null, bool, number, string, array, object, Items, nil, cons, Members, end, member,
  field, is_schema,
}
use o_pi.Schema.Keywords.{Run, done, thrown, stuck, valid, matches_type}
use o_pi.Schema.Validate.{
  Pattern, Apply, resolve_reference, compile_pattern_properties, or_else, any_items, any_of,
  each_item, items_run, validate_array, required_one, has, each_required, required_run,
  property_schema, property_run, patterns_run, is_matched, additional_run, property, each_property,
  properties_run, validate_object, by_kind, typed, validate_keywords, apply_resolved, by_reference,
  apply_schema, validate_schema, validate, append_path,
}
use o_pi.Schema.Soundness.{Agree, chain-Agree, Stopped-thrown, Stopped-stuck, Agree-Stopped}
use o_pi.Schema.KeywordModes.{
  valid-Agree, fail-Agree, check-Agree, validate_string-Agree, validate_number-Agree,
  const_and_enum-Agree, array_size-Agree,
}

module _ {N : Type 0} (n : Numbers N) (quote : Text → Text)
    (regex : Text → Option (Text → Bool)) where
  module _ (v v' : Apply N)
      (agree : (s x : Json N) (path : Text) → Agree (v s x path) (v' s x path)) where
    or_else-Agree :
        (r r' s s' : Run)
        → Agree r r'
        → Agree s s'
        → Agree (or_else n quote regex true v r s) (or_else n quote regex false v' r' s')
    or_else-Agree (done true es) (done true fs) s s' h k = valid-Agree
    or_else-Agree (done true es) (done false fs) s s' h k = cc
    or_else-Agree (done false es) (done true fs) s s' h k = cc
    or_else-Agree (done false es) (done false fs) s s' h k = k
    or_else-Agree (done b es) thrown s s' h k = elim h [ ]
    or_else-Agree (done b es) stuck s s' h k = elim h [ ]
    or_else-Agree thrown (done true fs) s s' h k = refl
    or_else-Agree thrown (done false fs) s s' h k = Stopped-thrown s' (Agree-Stopped s s' k)
    or_else-Agree thrown thrown s s' h k = tt
    or_else-Agree thrown stuck s s' h k = tt
    or_else-Agree stuck (done true fs) s s' h k = refl
    or_else-Agree stuck (done false fs) s s' h k = Stopped-stuck s' (Agree-Stopped s s' k)
    or_else-Agree stuck thrown s s' h k = tt
    or_else-Agree stuck stuck s s' h k = tt

    any_items-Agree :
        (cs : Items N) (x : Json N) (path : Text)
        → Agree
            (any_items n quote regex true v cs x path)
            (any_items n quote regex false v' cs x path)
    unfolding any_items
    any_items-Agree nil x path = fail-Agree path (text "anyOf")
    any_items-Agree (cons c cs) x path = elim (Bool-cases (is_schema c)) [
      | inl e ↦ rw e (or_else-Agree _ _ _ _ (agree c x path) (any_items-Agree cs x path))
      | inr e ↦ rw e tt
    ]

    each_item-Agree :
        (s : Json N) (xs : Items N) (i : ℕ) (path : Text)
        → Agree
            (each_item n quote regex true v s xs i path)
            (each_item n quote regex false v' s xs i path)
    unfolding each_item
    each_item-Agree s nil i path = valid-Agree
    each_item-Agree s (cons x xs) i path =
        chain-Agree _ _ _ _ (agree s x _) (each_item-Agree s xs (suc i) path)

    any_of-Agree :
        (o : Option (Json N)) (x : Json N) (path : Text)
        → Agree (any_of n quote regex true v o x path) (any_of n quote regex false v' o x path)
    any_of-Agree none x path = valid-Agree
    any_of-Agree (some (array cs)) x path = any_items-Agree cs x path
    any_of-Agree (some null) x path = valid-Agree
    any_of-Agree (some (bool b)) x path = valid-Agree
    any_of-Agree (some (number y)) x path = valid-Agree
    any_of-Agree (some (string t)) x path = valid-Agree
    any_of-Agree (some (object ms)) x path = valid-Agree

    items_run-Agree :
        (o : Option (Json N)) (xs : Items N) (path : Text)
        → Agree
            (items_run n quote regex true v o xs path)
            (items_run n quote regex false v' o xs path)
    items_run-Agree none xs path = valid-Agree
    items_run-Agree (some s) xs path = elim (Bool-cases (is_schema s)) [
      | inl e ↦ rw e (each_item-Agree s xs 0 path)
      | inr e ↦ rw e valid-Agree
    ]

    required_one-Agree :
        (k : Json N) (ms : Members N) (path : Text)
        → Agree
            (required_one n quote regex true v k ms path)
            (required_one n quote regex false v' k ms path)
    required_one-Agree (string k) ms path =
        check-Agree (has n quote regex true v k ms) path (text "required")
    required_one-Agree null ms path = valid-Agree
    required_one-Agree (bool b) ms path = valid-Agree
    required_one-Agree (number y) ms path = valid-Agree
    required_one-Agree (array xs) ms path = valid-Agree
    required_one-Agree (object xs) ms path = valid-Agree

    each_required-Agree :
        (ks : Items N) (ms : Members N) (path : Text)
        → Agree
            (each_required n quote regex true v ks ms path)
            (each_required n quote regex false v' ks ms path)
    unfolding each_required
    each_required-Agree nil ms path = valid-Agree
    each_required-Agree (cons k ks) ms path =
        chain-Agree _ _ _ _ (required_one-Agree k ms path) (each_required-Agree ks ms path)

    required_run-Agree :
        (o : Option (Json N)) (ms : Members N) (path : Text)
        → Agree
            (required_run n quote regex true v o ms path)
            (required_run n quote regex false v' o ms path)
    required_run-Agree none ms path = valid-Agree
    required_run-Agree (some (array ks)) ms path = each_required-Agree ks ms path
    required_run-Agree (some null) ms path = valid-Agree
    required_run-Agree (some (bool b)) ms path = valid-Agree
    required_run-Agree (some (number y)) ms path = valid-Agree
    required_run-Agree (some (string t)) ms path = valid-Agree
    required_run-Agree (some (object xs)) ms path = valid-Agree

    property_run-Agree :
        (o : Option (Json N)) (x : Json N) (path : Text)
        → Agree
            (property_run n quote regex true v o x path)
            (property_run n quote regex false v' o x path)
    property_run-Agree none x path = valid-Agree
    property_run-Agree (some s) x path = agree s x path

    patterns_run-Agree :
        (ps : List (Pattern N)) (k : Text) (x : Json N) (path : Text)
        → Agree
            (patterns_run n quote regex true v ps k x path)
            (patterns_run n quote regex false v' ps k x path)
    unfolding patterns_run
    patterns_run-Agree [] k x path = valid-Agree
    patterns_run-Agree ((test, s) ∷ ps) k x path = elim (Bool-cases (test k)) [
      | inl e ↦ rw e (chain-Agree _ _ _ _ (agree s x path) (patterns_run-Agree ps k x path))
      | inr e ↦ rw e (patterns_run-Agree ps k x path)
    ]

    additional_run-Agree :
        (o : Option (Json N)) (x : Json N) (path inner : Text)
        → Agree
            (additional_run n quote regex true v o x path inner)
            (additional_run n quote regex false v' o x path inner)
    additional_run-Agree none x path inner = valid-Agree
    additional_run-Agree (some (bool true)) x path inner = valid-Agree
    additional_run-Agree (some (bool false)) x path inner =
        fail-Agree path (text "additionalProperties")
    additional_run-Agree (some (object s)) x path inner = agree (object s) x inner
    additional_run-Agree (some null) x path inner = valid-Agree
    additional_run-Agree (some (number y)) x path inner = valid-Agree
    additional_run-Agree (some (string t)) x path inner = valid-Agree
    additional_run-Agree (some (array ys)) x path inner = valid-Agree

    if-Agree :
        (b : Bool) (r r' : Run)
        → Agree r r'
        → Agree (if b then valid else r) (if b then valid else r')
    if-Agree true r r' h = valid-Agree
    if-Agree false r r' h = h

    property-Agree :
        (s : Members N) (ps : List (Pattern N)) (k : Text) (x : Json N) (path : Text)
        → Agree
            (property n quote regex true v s ps k x path)
            (property n quote regex false v' s ps k x path)
    unfolding property
    property-Agree s ps k x path =
        chain-Agree _ _ _ _
          (property_run-Agree (property_schema n quote regex true v (field (text "properties") s) k)
            x (append_path path k))
          (chain-Agree _ _ _ _ (patterns_run-Agree ps k x (append_path path k)) (
            if-Agree
              (is_matched n quote regex true v
                (property_schema n quote regex true v (field (text "properties") s) k) ps k)
              _ _
              (additional_run-Agree (field (text "additionalProperties") s) x path
                (append_path path k))))

    each_property-Agree :
        (s : Members N) (ps : List (Pattern N)) (ms : Members N) (path : Text)
        → Agree
            (each_property n quote regex true v s ps ms path)
            (each_property n quote regex false v' s ps ms path)
    unfolding each_property
    each_property-Agree s ps end path = valid-Agree
    each_property-Agree s ps (member k x ms) path =
        chain-Agree _ _ _ _ (property-Agree s ps k x path) (each_property-Agree s ps ms path)

    properties_run-Agree :
        (s : Members N) (o : Option (List (Pattern N))) (ms : Members N) (path : Text)
        → Agree
            (properties_run n quote regex true v s o ms path)
            (properties_run n quote regex false v' s o ms path)
    properties_run-Agree s none ms path = tt
    properties_run-Agree s (some ps) ms path = each_property-Agree s ps ms path

    by_kind-Agree :
        (s : Members N) (x : Json N) (path : Text)
        → Agree (by_kind n quote regex true v s x path) (by_kind n quote regex false v' s x path)
    unfolding validate_array validate_object
    by_kind-Agree s null path = valid-Agree
    by_kind-Agree s (bool b) path = valid-Agree
    by_kind-Agree s (string t) path = validate_string-Agree n quote regex s t path
    by_kind-Agree s (number x) path = validate_number-Agree n quote regex s x path
    by_kind-Agree s (array xs) path =
        array_size-Agree n quote regex s xs path
          (items_run n quote regex true v (field (text "items") s) xs path)
          (items_run n quote regex false v' (field (text "items") s) xs path)
          (items_run-Agree (field (text "items") s) xs path)
    by_kind-Agree s (object ms) path =
        chain-Agree _ _ _ _ (required_run-Agree (field (text "required") s) ms path) (
          properties_run-Agree s
            (compile_pattern_properties n quote regex (field (text "patternProperties") s)) ms path)

    typed-Agree :
        (o : Option (Json N)) (s : Members N) (x : Json N) (path : Text)
        → Agree (typed n quote regex true v o s x path) (typed n quote regex false v' o s x path)
    typed-Agree none s x path = by_kind-Agree s x path
    typed-Agree (some t) s x path = elim (Bool-cases (matches_type n quote regex t x)) [
      | inl e ↦ rw e (by_kind-Agree s x path)
      | inr e ↦ rw e (fail-Agree path (text "type"))
    ]

    validate_keywords-Agree :
        (s : Members N) (x : Json N) (path : Text)
        → Agree
            (validate_keywords n quote regex true v s x path)
            (validate_keywords n quote regex false v' s x path)
    unfolding validate_keywords
    validate_keywords-Agree s x path =
        chain-Agree _ _ _ _ (any_of-Agree (field (text "anyOf") s) x path) (
          chain-Agree _ _ _ _ (const_and_enum-Agree n quote regex s x path)
            (typed-Agree (field (text "type") s) s x path))

    apply_resolved-Agree :
        (o : Option (Json N)) (x : Json N) (path : Text)
        → Agree
            (apply_resolved n quote regex true v o x path)
            (apply_resolved n quote regex false v' o x path)
    apply_resolved-Agree none x path = tt
    apply_resolved-Agree (some s) x path = agree s x path

    by_reference-Agree :
        (root : Json N) (o : Option (Json N)) (s : Members N) (x : Json N) (path : Text)
        → Agree
            (by_reference n quote regex true v root o s x path)
            (by_reference n quote regex false v' root o s x path)
    by_reference-Agree root none s x path = validate_keywords-Agree s x path
    by_reference-Agree root (some (string r)) s x path =
        apply_resolved-Agree (resolve_reference root r) x path
    by_reference-Agree root (some null) s x path = validate_keywords-Agree s x path
    by_reference-Agree root (some (bool b)) s x path = validate_keywords-Agree s x path
    by_reference-Agree root (some (number y)) s x path = validate_keywords-Agree s x path
    by_reference-Agree root (some (array ys)) s x path = validate_keywords-Agree s x path
    by_reference-Agree root (some (object ys)) s x path = validate_keywords-Agree s x path

    apply_schema-Agree :
        (root s x : Json N) (path : Text)
        → Agree
            (apply_schema n quote regex true v root s x path)
            (apply_schema n quote regex false v' root s x path)
    unfolding apply_schema
    apply_schema-Agree root null x path = tt
    apply_schema-Agree root (bool true) x path = valid-Agree
    apply_schema-Agree root (bool false) x path = fail-Agree path (text "false schema")
    apply_schema-Agree root (number y) x path = tt
    apply_schema-Agree root (string t) x path = tt
    apply_schema-Agree root (array ys) x path = tt
    apply_schema-Agree root (object s) x path =
        by_reference-Agree root (field (text "$ref") s) s x path

  validate_schema-Agree :
      (fuel : ℕ) (root s x : Json N) (path : Text)
      → Agree
          (validate_schema n quote regex fuel true root s x path)
          (validate_schema n quote regex fuel false root s x path)
  unfolding validate_schema
  validate_schema-Agree zero root s x path = tt
  validate_schema-Agree (suc fuel) root s x path =
      apply_schema-Agree (validate_schema n quote regex fuel true root)
        (validate_schema n quote regex fuel false root) (validate_schema-Agree fuel root) root s x
        path

  -- If the validation that collects all errors ends, the one that stops at the first error ends with
  -- the same verdict and a beginning of the same errors; and a value is valid in either mode exactly
  -- when that mode has no errors.
  pub validate-Agree :
      (fuel : ℕ) (root x : Json N)
      → Agree (validate n quote regex fuel true root x) (validate n quote regex fuel false root x)
  unfolding validate
  validate-Agree fuel root x = validate_schema-Agree fuel root root x []
