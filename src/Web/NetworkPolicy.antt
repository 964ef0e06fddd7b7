-- ===== src/Web/NetworkPolicy.antt =====
-- Which addresses may be asked: src/web-tools/network/network-policy.ts. The library on addresses and
-- the answer of the name service are parameters.
pub mod Allowed
mod Tests
use o_pi.Common.{
  ℕ, ◌≤◌, Text, Bool, true, false, not, ◌&&◌, ◌||◌, List, [], ◌∷◌, any, is_empty, Option, none,
  some, if◌then◌else◌, leb, ◌==◌,
}

-- `ipaddr.isValid`, whether `ipaddr.process(address).range()` is "unicast", and whether the address
-- matches a range, which is none if that throws.
pub record Addresses : Type 0 where
  pub is_valid : Text → Bool
  pub is_unicast : Text → Bool
  pub match : Text → Text → Option Bool

pub record LookupAddress : Type 0 where
  pub address : Text
  pub family : ℕ

pub data LookupError : Type 0 where
  dns_failed : LookupError
  blocked_address : Text → LookupError

pub data Resolved : Type 0 where
  throws : LookupError → Resolved
  resolves : List LookupAddress → Resolved

-- What the callback of a lookup is called with.
pub data Answer : Type 0 where
  access_denied : Answer
  not_found : Answer
  all_of : List LookupAddress → Answer
  one_of : LookupAddress → Answer

abbrev pub normal : LookupAddress → LookupAddress
normal a = record { address = a.address; family = if a.family == 6 then 6 else 4 }

-- `.sort((a, b) => a.family - b.family)`, which is stable.
unfoldable pub insert : LookupAddress → List LookupAddress → List LookupAddress
insert a [] = a ∷ []
insert a (b ∷ l) = let rest = insert a l in if leb a.family b.family then a ∷ b ∷ l else b ∷ rest

unfoldable pub sorted : List LookupAddress → List LookupAddress
unfolding insert
sorted [] = []
sorted (a ∷ l) = insert (normal a) (sorted l)

abbrev pub unless_blocked : List LookupAddress → Option Text → Resolved
unless_blocked l none = resolves l
unless_blocked l (some address) = throws (blocked_address address)

abbrev pub answer_of : Bool → Resolved → Answer
answer_of all (throws dns_failed) = not_found
answer_of all (throws (blocked_address a)) = access_denied
answer_of true (resolves l) = all_of l
answer_of false (resolves []) = not_found
answer_of false (resolves (a ∷ l)) = one_of a

abbrev or_false : Option Bool → Bool
or_false none = false
or_false (some b) = b

module _ (ip : Addresses) where
  unfoldable pub is_public_address : Text → Bool
  is_public_address address = ip.is_valid address && ip.is_unicast address

  unfoldable pub is_allowed_resolved_address : List Text → Text → Bool
  unfolding is_public_address
  is_allowed_resolved_address ranges address =
      is_public_address address
      || (not (is_empty ranges)
          && ip.is_valid address
          && any (λ range. or_false (ip.match address range)) ranges)

  unfoldable pub find_blocked : List Text → List LookupAddress → Option Text
  unfolding is_allowed_resolved_address
  find_blocked ranges [] = none
  find_blocked ranges (a ∷ l) =
      let rest = find_blocked ranges l in
      if is_allowed_resolved_address ranges a.address then rest else some a.address

  -- The answer of the name service is none if the lookup throws.
  unfoldable pub resolve_allowed_addresses : List Text → Option (List LookupAddress) → Resolved
  unfolding sorted find_blocked
  resolve_allowed_addresses ranges none = throws dns_failed
  resolve_allowed_addresses ranges (some []) = throws dns_failed
  resolve_allowed_addresses ranges (some (a ∷ l)) =
      unless_blocked (sorted (a ∷ l)) (find_blocked ranges (sorted (a ∷ l)))

  -- The function that `createSecureLookup` returns.
  unfoldable pub secure_lookup : List Text → Bool → Option (List LookupAddress) → Answer
  unfolding resolve_allowed_addresses
  secure_lookup ranges all addresses = answer_of all (resolve_allowed_addresses ranges addresses)
