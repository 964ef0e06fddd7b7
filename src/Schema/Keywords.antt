-- ===== src/Schema/Keywords.antt =====
-- The keywords of a schema for each kind of value: src/schema-validator.ts. A check returns whether
-- the value is valid and the errors that it adds, or throws.
use o_pi.Common.{
  ℕ, suc, Text, text, text_eq, Bool, true, false, not, ◌&&◌, ◌||◌, List, [], ◌∷◌, ◌++◌, Option,
  none, some, if◌then◌else◌, ◌==◌, length, includes,
}
use o_pi.Schema.Json.{
  Numbers, Json, null, bool, number, string, array, object, Items, nil, cons, Members, field, count,
  stable_json, stable_items, json_equal,
}

-- The parameters and the message of an error are left out.
pub record Error : Type 0 where
  pub instance_path : Text
  pub keyword : Text

-- `stuck` is a chain of references that is longer than the fuel.
pub data Run : Type 0 where
  done : Bool → List Error → Run
  thrown : Run
  stuck : Run

abbrev pub valid : Run
valid = done true []

unfoldable pub fail : Text → Text → Run
fail path keyword = done false (record { instance_path = path; keyword = keyword } ∷ [])

unfoldable pub add : Bool → List Error → Run → Run
add b es (done c fs) = done (b && c) (es ++ fs)
add b es thrown = thrown
add b es stuck = stuck

-- `valid = first && valid; if (!valid && !allErrors) return false;` and what follows.
unfoldable pub chain : Bool → Run → Run → Run
unfolding add
chain all (done true es) next = add true es next
chain true (done false es) next = add false es next
chain false (done false es) next = done false es
chain all thrown next = thrown
chain all stuck next = stuck

abbrev pub check : Bool → Text → Text → Run
check true path keyword = valid
check false path keyword = fail path keyword

module _ {N : Type 0} (n : Numbers N) (quote : Text → Text)
    (regex : Text → Option (Text → Bool)) where
  -- A numeric keyword that is present and a number must pass the test.
  abbrev pub limit : Option (Json N) → (N → Bool) → Text → Text → Run
  limit (some (number x)) test path keyword = check (test x) path keyword
  limit _ test path keyword = valid

  abbrev pub pattern_ok : Option (Text → Bool) → Text → Text → Run
  pattern_ok none t path = thrown
  pattern_ok (some test) t path = check (test t) path (text "pattern")

  abbrev pub pattern_check : Option (Json N) → Text → Text → Run
  pattern_check (some (string p)) t path = pattern_ok (regex p) t path
  pattern_check _ t path = valid

  unfoldable pub validate_string : Bool → Members N → Text → Text → Run
  unfolding chain fail field text
  validate_string all s t path =
      chain all
        (limit (field (text "minLength") s) (λ x. not (n.less (n.of_nat (length t)) x)) path
          (text "minLength"))
        (chain all
          (limit (field (text "maxLength") s) (λ x. not (n.less x (n.of_nat (length t)))) path
            (text "maxLength"))
          (pattern_check (field (text "pattern") s) t path))

  unfoldable pub validate_number : Bool → Members N → N → Text → Run
  unfolding chain fail field text
  validate_number all s v path =
      chain all (limit (field (text "minimum") s) (λ x. not (n.less v x)) path (text "minimum")) (
        chain all
          (limit (field (text "exclusiveMinimum") s) (λ x. not (n.at_most v x)) path
            (text "exclusiveMinimum"))
          (limit (field (text "maximum") s) (λ x. not (n.less x v)) path (text "maximum")))

  abbrev pub constant : Option (Json N) → Json N → Bool
  constant none v = true
  constant (some c) v = json_equal n quote v c

  unfoldable pub some_equal : Json N → Items N → Bool
  unfolding json_equal
  some_equal v nil = false
  some_equal v (cons c cs) = json_equal n quote v c || some_equal v cs

  abbrev pub chosen : Option (Json N) → Json N → Bool
  chosen (some (array cs)) v = some_equal v cs
  chosen _ v = true

  unfoldable pub validate_const_and_enum : Members N → Json N → Text → Run
  unfolding fail field text some_equal
  validate_const_and_enum s v path =
      if not (constant (field (text "const") s) v)
      then fail path (text "const")
      else check (chosen (field (text "enum") s) v) path (text "enum")

  -- The number of different texts.
  unfoldable pub set_size : List Text → List Text → ℕ
  set_size seen [] = 0
  set_size seen (t ∷ ts) =
      let skipped = set_size seen ts in
      let counted = set_size (t ∷ seen) ts in if includes seen t then skipped else suc counted

  abbrev pub unique : Option (Json N) → Items N → Bool
  unique (some (bool true)) vs = set_size [] (stable_items n quote vs) == count vs
  unique _ vs = true

  -- The checks of an array before those of its items.
  unfoldable pub array_size : Bool → Members N → Items N → Text → Run → Run
  unfolding chain fail field text set_size stable_json count
  array_size all s vs path next =
      chain all
        (limit (field (text "minItems") s) (λ x. not (n.less (n.of_nat (count vs)) x)) path
          (text "minItems"))
        (chain all
          (limit (field (text "maxItems") s) (λ x. not (n.less x (n.of_nat (count vs)))) path
            (text "maxItems"))
          (chain all (check (unique (field (text "uniqueItems") s) vs) path (text "uniqueItems"))
            next))

  -- `matchesType` for a name of a type, and for a list of them.
  unfoldable pub matches_name : Text → Json N → Bool
  unfolding text
  matches_name t null = text_eq t (text "null")
  matches_name t (array vs) = text_eq t (text "array")
  matches_name t (object ms) = text_eq t (text "object")
  matches_name t (number x) =
      (text_eq t (text "integer") && n.is_finite x && n.is_integer x)
      || (text_eq t (text "number") && n.is_finite x)
  matches_name t (string s) = text_eq t (text "string")
  matches_name t (bool b) = text_eq t (text "boolean")

  unfoldable mutual
    unfolding matches_name

    pub matches_type : Json N → Json N → Bool
    matches_type (array ts) v = matches_some ts v
    matches_type (string t) v = matches_name t v
    matches_type _ v = false

    pub matches_some : Items N → Json N → Bool
    matches_some nil v = false
    matches_some (cons t ts) v = matches_type t v || matches_some ts v
