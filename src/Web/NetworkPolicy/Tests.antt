-- ===== src/Web/NetworkPolicy/Tests.antt =====
-- A lookup at a concrete input.
use o_pi.Common.{text, starts_with, true, not, List, [], ◌∷◌, Option, some}
use o_pi.Web.NetworkPolicy.{Addresses, LookupAddress, secure_lookup}
use o_pi.Web.NetworkPolicy.Allowed.{Looked, secure_lookup-Looked}

-- The addresses below 10 are private, and a range is a beginning of an address.
abbrev addresses : Addresses
addresses = record {
  is_valid = λ a. true;
  is_unicast = λ a. not (starts_with a (text "10."));
  match = λ a range. some (starts_with a range);
}

abbrev answer : Option (List LookupAddress)
answer = some (
    record { address = text "2001:db8::1"; family = 6 }
    ∷ record { address = text "10.0.0.1"; family = 4 }
    ∷ [])

secure_lookup-Looked_example :
    Looked addresses
      (text "10.0." ∷ [])
      true
      answer
      (secure_lookup addresses (text "10.0." ∷ []) true answer)
secure_lookup-Looked_example = secure_lookup-Looked addresses (text "10.0." ∷ []) true answer
