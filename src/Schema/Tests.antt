-- ===== src/Schema/Tests.antt =====
-- The theorems on the validation at concrete inputs.
use o_pi.Common.{ℕ, text, text_eq, true, false, [], ◌∷◌, none, ltb, leb, ◌≡◌, refl}
use o_pi.Schema.Json.{Numbers, Json, field, bool, number, object, end, member}
use o_pi.Schema.Validate.{validate, look_up, unescape, escape}
use o_pi.Schema.Keywords.{valid}
use o_pi.Schema.Soundness.{Agree}
use o_pi.Schema.Modes.{validate-Agree}
use o_pi.Schema.Pointers.{unescape-escape}

abbrev naturals : Numbers ℕ
naturals = record {
  of_nat = λ n. n;
  less = ltb;
  at_most = leb;
  is_finite = λ n. true;
  is_integer = λ n. true;
  write = λ n. n ∷ [];
}

-- At least 3, and 2.
abbrev schema : Json ℕ
schema = object (member (text "minimum") (number 3) end)

validate-Agree_example :
    Agree
      (validate naturals (λ t. t) (λ p. none) 4 true schema (number 2))
      (validate naturals (λ t. t) (λ p. none) 4 false schema (number 2))
validate-Agree_example = validate-Agree naturals (λ t. t) (λ p. none) 4 schema (number 2)

-- No additional property is allowed, but `__proto__` is not taken for one.
closed_schema :
    validate naturals
      (λ t. t)
      (λ p. none)
      4
      false
      (object (member (text "additionalProperties") (bool false) end))
      (object (member (text "__proto__") (number 2) end))
    ≡ valid
unfolding validate look_up field text text_eq
closed_schema = refl

unescape-escape_example : unescape (escape (text "a/b~1")) ≡ text "a/b~1"
unescape-escape_example = unescape-escape (text "a/b~1")
