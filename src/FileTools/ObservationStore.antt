-- ===== src/FileTools/ObservationStore.antt =====
-- The observations of a session by canonical file: src/file-tools/runtime/observation-store.ts.
-- A bridge is an object and stands as a name here; what it says of a reference, and the folding of
-- case on Windows, are parameters.
pub mod Attached
use o_pi.Common.{
  ℕ, suc, ◌+◌, ◌-◌, Text, text_eq, Bool, true, false, List, [], ◌∷◌, Option, none, some,
  if◌then◌else◌, leb, ◌>>=◌, is_empty,
}
use o_pi.Common.OrderedMap.{OrderedMap, get, put, delete}

pub record Version : Type 0 where
  pub hash : Text
  pub size_bytes : ℕ

-- `native_identity bridge ref` is the canonical path, if the bridge knows the reference.
pub record Bridges (Ref : Type 0) : Type 0 where
  pub native_identity : Text → Ref → Option Text
  pub fold_case : Text → Text

pub record Store : Type 0 where
  pub observations : OrderedMap Version
  pub bridges : OrderedMap ℕ
  pub is_disposed : Bool
  -- The attachments that were not taken back yet, one for each.
  pub attached : List Text

abbrev pub new_store : Store
new_store = record { observations = []; bridges = []; is_disposed = false; attached = [] }

abbrev pub or_zero : Option ℕ → ℕ
or_zero none = 0
or_zero (some n) = n

unfoldable pub attach : Text → Store → Store
attach b s = if s.is_disposed then s else record s {
  bridges = put b (or_zero (get b s.bridges) + 1) s.bridges;
  attached = b ∷ s.attached;
}

unfoldable pub take_one : Text → List Text → List Text
take_one b [] = []
take_one b (a ∷ l) = let rest = take_one b l in if text_eq a b then l else a ∷ rest

unfoldable pub is_attached : Text → List Text → Bool
is_attached b [] = false
is_attached b (a ∷ l) = let rest = is_attached b l in if text_eq a b then true else rest

-- Calling a function that `attach` returned, for the first time; later calls do nothing.
unfoldable pub detach : Text → Store → Store
detach b s =
    if is_attached b s.attached
    then (let count = or_zero (get b s.bridges) in
        record s {
          bridges = if leb count 1 then delete b s.bridges else put b (count - 1) s.bridges;
          attached = take_one b s.attached;
        })
    else s

module _ {Ref : Type 0} (e : Bridges Ref) where
  abbrev pub folded : Option Text → Option Text → Option Text
  folded none later = later
  folded (some path) later = some (e.fold_case path)

  unfoldable pub first_identity : OrderedMap ℕ → Ref → Option Text
  first_identity [] ref = none
  first_identity ((b, n) ∷ bs) ref = folded (e.native_identity b ref) (first_identity bs ref)

  unfoldable pub key_for : Store → Ref → Option Text
  unfolding first_identity
  key_for s ref = if s.is_disposed then none else first_identity s.bridges ref

  abbrev pub remember_at : Store → Version → Option Text → Store × Bool
  remember_at s v none = (s, false)
  remember_at s v (some key) = (record s { observations = put key v s.observations }, true)

  unfoldable pub remember : Ref → Version → Store → Store × Bool
  unfolding key_for
  remember ref v s = remember_at s v (key_for s ref)

  unfoldable pub recall : Ref → Store → Option Version
  unfolding key_for get
  recall ref s = key_for s ref >>= λ key. get key s.observations

  abbrev pub found : Option Version → Bool
  found none = false
  found (some v) = true

  abbrev pub forget_at : Store → Option Text → Store × Bool
  forget_at s none = (s, false)
  forget_at s (some key) =
      (record s { observations = delete key s.observations }, found (get key s.observations))

  unfoldable pub forget : Ref → Store → Store × Bool
  unfolding key_for
  forget ref s = forget_at s (key_for s ref)

unfoldable pub clear : Store → Store
clear s = record s { observations = [] }

unfoldable pub dispose : Store → Store
dispose s =
    if s.is_disposed then s else record s { observations = []; bridges = []; is_disposed = true }
