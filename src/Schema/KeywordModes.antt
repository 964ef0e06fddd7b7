-- ===== src/Schema/KeywordModes.antt =====
-- The checks of each kind of value in the two modes: src/schema-validator.ts.
use o_pi.Common.{
  Text, text, Bool, true, false, not, [], Option, none, some, refl, Bool-cases, length, inl, inr,
}
use o_pi.Schema.Json.{
  Numbers, Json, null, bool, number, string, array, object, Items, Members, field, count,
}
use o_pi.Schema.Keywords.{
  Run, valid, fail, check, limit, pattern_ok, pattern_check, validate_string, validate_number,
  validate_const_and_enum, constant, chosen, array_size, unique,
}
use o_pi.Schema.Soundness.{Agree, chain-Agree}

pub valid-Agree : Agree valid valid
valid-Agree = (refl, refl, refl, ([], refl))

pub fail-Agree : (path k : Text) → Agree (fail path k) (fail path k)
unfolding fail
fail-Agree path k = (refl, (λ p. cc), (λ p. cc), ([], refl))

pub check-Agree : (b : Bool) (path k : Text) → Agree (check b path k) (check b path k)
check-Agree true path k = valid-Agree
check-Agree false path k = fail-Agree path k

module _ {N : Type 0} (n : Numbers N) (quote : Text → Text)
    (regex : Text → Option (Text → Bool)) where
  limit-Agree :
      (o : Option (Json N)) (test : N → Bool) (path k : Text)
      → Agree (limit n quote regex o test path k) (limit n quote regex o test path k)
  limit-Agree none test path k = valid-Agree
  limit-Agree (some (number x)) test path k = check-Agree (test x) path k
  limit-Agree (some null) test path k = valid-Agree
  limit-Agree (some (bool b)) test path k = valid-Agree
  limit-Agree (some (string t)) test path k = valid-Agree
  limit-Agree (some (array xs)) test path k = valid-Agree
  limit-Agree (some (object ms)) test path k = valid-Agree

  pattern_ok-Agree :
      (o : Option (Text → Bool)) (t path : Text)
      → Agree (pattern_ok n quote regex o t path) (pattern_ok n quote regex o t path)
  pattern_ok-Agree none t path = tt
  pattern_ok-Agree (some test) t path = check-Agree (test t) path (text "pattern")

  pattern_check-Agree :
      (o : Option (Json N)) (t path : Text)
      → Agree (pattern_check n quote regex o t path) (pattern_check n quote regex o t path)
  pattern_check-Agree none t path = valid-Agree
  pattern_check-Agree (some (string p)) t path = pattern_ok-Agree (regex p) t path
  pattern_check-Agree (some (number x)) t path = valid-Agree
  pattern_check-Agree (some null) t path = valid-Agree
  pattern_check-Agree (some (bool b)) t path = valid-Agree
  pattern_check-Agree (some (array xs)) t path = valid-Agree
  pattern_check-Agree (some (object ms)) t path = valid-Agree

  pub validate_string-Agree :
      (s : Members N) (t path : Text)
      → Agree
          (validate_string n quote regex true s t path)
          (validate_string n quote regex false s t path)
  unfolding validate_string
  validate_string-Agree s t path =
      chain-Agree _ _ _ _
        (limit-Agree (field (text "minLength") s) (λ y. not (n.less (n.of_nat (length t)) y)) path
          (text "minLength"))
        (chain-Agree _ _ _ _
          (limit-Agree (field (text "maxLength") s) (λ y. not (n.less y (n.of_nat (length t)))) path
            (text "maxLength"))
          (pattern_check-Agree (field (text "pattern") s) t path))

  pub validate_number-Agree :
      (s : Members N) (x : N) (path : Text)
      → Agree
          (validate_number n quote regex true s x path)
          (validate_number n quote regex false s x path)
  unfolding validate_number
  validate_number-Agree s x path =
      chain-Agree _ _ _ _
        (limit-Agree (field (text "minimum") s) (λ y. not (n.less x y)) path (text "minimum"))
        (chain-Agree _ _ _ _
          (limit-Agree (field (text "exclusiveMinimum") s) (λ y. not (n.at_most x y)) path
            (text "exclusiveMinimum"))
          (limit-Agree (field (text "maximum") s) (λ y. not (n.less y x)) path (text "maximum")))

  pub const_and_enum-Agree :
      (s : Members N) (x : Json N) (path : Text)
      → Agree
          (validate_const_and_enum n quote regex s x path)
          (validate_const_and_enum n quote regex s x path)
  unfolding validate_const_and_enum
  const_and_enum-Agree s x path =
      elim (Bool-cases (not (constant n quote regex (field (text "const") s) x))) [
        | inl e ↦ rw e (fail-Agree path (text "const"))
        | inr e ↦
            rw e (check-Agree (chosen n quote regex (field (text "enum") s) x) path (text "enum"))
      ]

  pub array_size-Agree :
      (s : Members N) (xs : Items N) (path : Text) (r r' : Run)
      → Agree r r'
      → Agree
          (array_size n quote regex true s xs path r)
          (array_size n quote regex false s xs path r')
  unfolding array_size
  array_size-Agree s xs path r r' h =
      chain-Agree _ _ _ _
        (limit-Agree (field (text "minItems") s) (λ y. not (n.less (n.of_nat (count xs)) y)) path
          (text "minItems"))
        (chain-Agree _ _ _ _
          (limit-Agree (field (text "maxItems") s) (λ y. not (n.less y (n.of_nat (count xs)))) path
            (text "maxItems"))
          (chain-Agree _ _ _ _
            (check-Agree (unique n quote regex (field (text "uniqueItems") s) xs) path
              (text "uniqueItems"))
            h))
