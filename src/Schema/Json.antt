-- ===== src/Schema/Json.antt =====
-- JSON values, their normal text and their equality: src/schema-validator.ts. The numbers are those
-- of JavaScript, with what the code asks of them as parameters.
use o_pi.Common.{
  ℕ, suc, Text, text, text_eq, Bool, true, false, ◌&&◌, ◌||◌, List, [], ◌∷◌, ◌++◌, Option, none,
  some, if◌then◌else◌, ltb, ◌==◌,
}

pub record Numbers (N : Type 0) : Type 0 where
  pub of_nat : ℕ → N
  pub less : N → N → Bool
  pub at_most : N → N → Bool
  pub is_finite : N → Bool
  pub is_integer : N → Bool
  -- `JSON.stringify`
  pub write : N → Text

module _ (N : Type 0) where
  mutual
    pub data Json : Type 0 where
      null : Json
      bool : Bool → Json
      number : N → Json
      string : Text → Json
      array : Items → Json
      object : Members → Json

    pub data Items : Type 0 where
      nil : Items
      cons : Json → Items → Items

    pub data Members : Type 0 where
      end : Members
      member : Text → Json → Members → Members

module _ {N : Type 0} where
  -- `value[key]`; a key that is missing is undefined.
  unfoldable pub field : Text → Members N → Option (Json N)
  field k end = none
  field k (member j v ms) = let rest = field k ms in if text_eq j k then some v else rest

  unfoldable pub count : Items N → ℕ
  count nil = 0
  count (cons v vs) = suc (count vs)

  abbrev pub is_record : Json N → Bool
  is_record (object ms) = true
  is_record _ = false

  abbrev pub is_schema : Json N → Bool
  is_schema (bool b) = true
  is_schema (object ms) = true
  is_schema _ = false

-- The order of texts by code units, as `sort()` uses it.
unfoldable pub text_less : Text → Text → Bool
text_less [] [] = false
text_less [] (b ∷ t) = true
text_less (a ∷ s) [] = false
text_less (a ∷ s) (b ∷ t) = let rest = text_less s t in ltb a b || a == b && rest

abbrev pub Entry : Type 0
Entry = Text × Text

unfoldable pub insert : Entry → List Entry → List Entry
unfolding text_less
insert e [] = e ∷ []
insert e (f ∷ fs) = let rest = insert e fs in if text_less f.0 e.0 then f ∷ rest else e ∷ f ∷ fs

unfoldable pub join : List Text → Text
join [] = []
join (t ∷ []) = t
join (t ∷ u ∷ ts) = t ++ text "," ++ join (u ∷ ts)

module _ {N : Type 0} (n : Numbers N) (quote : Text → Text) where
  abbrev write_entry : Entry → Text
  write_entry (k, v) = quote k ++ text ":" ++ v

  abbrev write_entries : List Entry → List Text
  write_entries [] = []
  write_entries (e ∷ es) = write_entry e ∷ write_entries es

  unfoldable mutual
    unfolding join insert text

    -- The text of a value with the keys of its records in order.
    pub stable_json : Json N → Text
    stable_json null = text "null"
    stable_json (bool true) = text "true"
    stable_json (bool false) = text "false"
    stable_json (number x) = n.write x
    stable_json (string t) = quote t
    stable_json (array vs) = text "[" ++ join (stable_items vs) ++ text "]"
    stable_json (object ms) = text "{" ++ join (write_entries (stable_members ms)) ++ text "}"

    pub stable_items : Items N → List Text
    stable_items nil = []
    stable_items (cons v vs) = stable_json v ∷ stable_items vs

    pub stable_members : Members N → List Entry
    stable_members end = []
    stable_members (member k v ms) = insert (k, stable_json v) (stable_members ms)

  -- `Object.is` adds nothing to the comparison of the texts of JSON values.
  unfoldable pub json_equal : Json N → Json N → Bool
  unfolding stable_json
  json_equal a b = text_eq (stable_json a) (stable_json b)
