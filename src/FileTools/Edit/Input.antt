-- ===== src/FileTools/Edit/Input.antt =====
-- The input of an edit: src/file-tools/edit/command.ts. The parameters of a call are a JSON value.
use o_pi.Common.{
  ℕ, suc, ◌<◌, Text, text, includes, Bool, false, List, [], ◌∷◌, length, Option, none, some,
  if◌then◌else◌, ◌≡◌, subst, arith, inl, inr,
}
use o_pi.Schema.Json.{
  Json, null, bool, number, string, array, object, Items, nil, cons, Members, end, member, field,
}
use o_pi.FileTools.Edit.{Replacement, Result, ok, failed, ◌>>=◌}
use o_pi.FileTools.Edit.Collecting.{NotEmpty, Result-cases}

-- The failures of the checks, with the index of the edit and the name of the field.
pub data InputError : Type 0 where
  input_not_object : InputError
  unsupported_field : Text → InputError
  path_not_string : InputError
  edits_missing : InputError
  entry_not_object : ℕ → InputError
  unsupported_entry_field : ℕ → Text → InputError
  old_not_string : ℕ → InputError
  empty_old_text : ℕ → InputError
  new_not_string : ℕ → InputError
  replace_all_not_boolean : ℕ → InputError

pub record EditParams : Type 0 where
  pub path : Text
  pub edits : List Replacement

module _ {N : Type 0} where
  -- The first key that is none of the known ones.
  unfoldable pub unknown_key : List Text → Members N → Option Text
  unfolding includes
  unknown_key known end = none
  unknown_key known (member k v ms) =
      let rest = unknown_key known ms in if includes known k then rest else some k

  abbrev old_of : ℕ → Option (Json N) → Result InputError Text
  old_of index (some (string [])) = failed (empty_old_text index)
  old_of index (some (string (c ∷ t))) = ok (c ∷ t)
  old_of index _ = failed (old_not_string index)

  abbrev new_of : ℕ → Option (Json N) → Result InputError Text
  new_of index (some (string t)) = ok t
  new_of index _ = failed (new_not_string index)

  abbrev replace_all_of : ℕ → Option (Json N) → Result InputError Bool
  replace_all_of index none = ok false
  replace_all_of index (some (bool b)) = ok b
  replace_all_of index _ = failed (replace_all_not_boolean index)

  abbrev known_entry : Option Text → ℕ → Members N → Result InputError Replacement
  known_entry (some k) index ms = failed (unsupported_entry_field index k)
  known_entry none index ms = old_of index (field (text "old") ms) >>= λ old.
      new_of index (field (text "new") ms) >>= λ new.
      replace_all_of index (field (text "replace_all") ms) >>= λ all.
      ok (record { old = old; new = new; replace_all = all })

  abbrev pub validate_replacement : ℕ → Json N → Result InputError Replacement
  validate_replacement index (object ms) =
      known_entry (unknown_key (text "old" ∷ text "new" ∷ text "replace_all" ∷ []) ms) index ms
  validate_replacement index _ = failed (entry_not_object index)

  -- The loop over the edits.
  unfoldable pub validate_edits : ℕ → Items N → Result InputError (List Replacement)
  unfolding unknown_key field
  validate_edits index nil = ok []
  validate_edits index (cons v vs) =
      let rest = validate_edits (suc index) vs in
      validate_replacement index v >>= λ r. rest >>= λ rs. ok (r ∷ rs)

  abbrev edits_of : Text → Option (Json N) → Result InputError EditParams
  edits_of path (some (array (cons v vs))) =
      validate_edits 0 (cons v vs) >>= λ edits. ok (record { path = path; edits = edits })
  edits_of path _ = failed edits_missing

  abbrev path_of : Option (Json N) → Members N → Result InputError EditParams
  path_of (some (string path)) ms = edits_of path (field (text "edits") ms)
  path_of _ ms = failed path_not_string

  abbrev known_input : Option Text → Members N → Result InputError EditParams
  known_input (some k) ms = failed (unsupported_field k)
  known_input none ms = path_of (field (text "path") ms) ms

  abbrev input_of : Json N → Result InputError EditParams
  input_of (object ms) = known_input (unknown_key (text "path" ∷ text "edits" ∷ []) ms) ms
  input_of _ = failed input_not_object

  unfoldable pub validate_edit_input : Json N → Result InputError EditParams
  unfolding unknown_key field validate_edits
  validate_edit_input params = input_of params

module _ {N : Type 0} where
  old_of-nonempty :
      (index : ℕ) (v : Option (Json N)) (t : Text) → old_of index v ≡ ok t → 0 < length t
  old_of-nonempty index none t h = absurd cc
  old_of-nonempty index (some null) t h = absurd cc
  old_of-nonempty index (some (bool b)) t h = absurd cc
  old_of-nonempty index (some (number n)) t h = absurd cc
  old_of-nonempty index (some (array vs)) t h = absurd cc
  old_of-nonempty index (some (object ms)) t h = absurd cc
  old_of-nonempty index (some (string [])) t h = absurd cc
  old_of-nonempty index (some (string (c ∷ u))) t h =
      let e : c ∷ u ≡ t = cc in subst (λ l. 0 < length l) e (omega arith)

  known_entry-nonempty :
      (k : Option Text) (index : ℕ) (ms : Members N) (r : Replacement)
      → known_entry k index ms ≡ ok r
      → 0 < length r.old
  known_entry-nonempty (some k) index ms r h = absurd cc
  known_entry-nonempty none index ms r h =
      elim (Result-cases (old_of index (field (text "old") ms))) [
        | inr (x, e) ↦ absurd cc
        | inl (old, e) ↦ elim (Result-cases (new_of index (field (text "new") ms))) [
          | inr (x, f) ↦ absurd cc
          | inl (new, f) ↦
              elim (Result-cases (replace_all_of index (field (text "replace_all") ms))) [
                | inr (x, g) ↦ absurd cc
                | inl (all, g) ↦
                    let same : record { old = old; new = new; replace_all = all } ≡ r = cc in
                    subst (λ x. 0 < length x.old) same
                      (old_of-nonempty index (field (text "old") ms) old e)
              ]
        ]
      ]

  validate_replacement-nonempty :
      (index : ℕ) (v : Json N) (r : Replacement)
      → validate_replacement index v ≡ ok r
      → 0 < length r.old
  validate_replacement-nonempty index null r h = absurd cc
  validate_replacement-nonempty index (bool b) r h = absurd cc
  validate_replacement-nonempty index (number n) r h = absurd cc
  validate_replacement-nonempty index (string t) r h = absurd cc
  validate_replacement-nonempty index (array vs) r h = absurd cc
  validate_replacement-nonempty index (object ms) r h = known_entry-nonempty _ index ms r h

  validate_edits-NotEmpty :
      (index : ℕ) (vs : Items N) (rs : List Replacement)
      → validate_edits index vs ≡ ok rs
      → NotEmpty rs
  unfolding validate_edits
  validate_edits-NotEmpty index nil rs h = let e : [] ≡ rs = cc in subst NotEmpty e tt
  validate_edits-NotEmpty index (cons v vs) rs h =
      elim (Result-cases (validate_replacement index v)) [
        | inr (x, e) ↦ absurd cc
        | inl (r, e) ↦ elim (Result-cases (validate_edits (suc index) vs)) [
          | inr (x, f) ↦ absurd cc
          | inl (rest, f) ↦
              let same : r ∷ rest ≡ rs = cc in
              subst NotEmpty same (
                validate_replacement-nonempty index v r e,
                validate_edits-NotEmpty (suc index) vs rest f,
              )
        ]
      ]

  edits_of-NotEmpty :
      (path : Text) (v : Option (Json N)) (input : EditParams)
      → edits_of path v ≡ ok input
      → NotEmpty input.edits
  edits_of-NotEmpty path none input h = absurd cc
  edits_of-NotEmpty path (some null) input h = absurd cc
  edits_of-NotEmpty path (some (bool b)) input h = absurd cc
  edits_of-NotEmpty path (some (number n)) input h = absurd cc
  edits_of-NotEmpty path (some (string t)) input h = absurd cc
  edits_of-NotEmpty path (some (object ms)) input h = absurd cc
  edits_of-NotEmpty path (some (array nil)) input h = absurd cc
  edits_of-NotEmpty path (some (array (cons v vs))) input h =
      elim (Result-cases (validate_edits 0 (cons v vs))) [
        | inr (x, e) ↦ absurd cc
        | inl (edits, e) ↦
            let same : record { path = path; edits = edits } ≡ input = cc in
            subst (λ i. NotEmpty i.edits) same (validate_edits-NotEmpty 0 (cons v vs) edits e)
      ]

  path_of-NotEmpty :
      (v : Option (Json N)) (ms : Members N) (input : EditParams)
      → path_of v ms ≡ ok input
      → NotEmpty input.edits
  path_of-NotEmpty none ms input h = absurd cc
  path_of-NotEmpty (some null) ms input h = absurd cc
  path_of-NotEmpty (some (bool b)) ms input h = absurd cc
  path_of-NotEmpty (some (number n)) ms input h = absurd cc
  path_of-NotEmpty (some (array vs)) ms input h = absurd cc
  path_of-NotEmpty (some (object m)) ms input h = absurd cc
  path_of-NotEmpty (some (string path)) ms input h = edits_of-NotEmpty path _ input h

  known_input-NotEmpty :
      (k : Option Text) (ms : Members N) (input : EditParams)
      → known_input k ms ≡ ok input
      → NotEmpty input.edits
  known_input-NotEmpty (some k) ms input h = absurd cc
  known_input-NotEmpty none ms input h = path_of-NotEmpty _ ms input h

  -- Input that passes the checks has no empty old text.
  pub validate_edit_input-NotEmpty :
      (params : Json N) (input : EditParams)
      → validate_edit_input params ≡ ok input
      → NotEmpty input.edits
  unfolding validate_edit_input
  validate_edit_input-NotEmpty null input h = absurd cc
  validate_edit_input-NotEmpty (bool b) input h = absurd cc
  validate_edit_input-NotEmpty (number n) input h = absurd cc
  validate_edit_input-NotEmpty (string t) input h = absurd cc
  validate_edit_input-NotEmpty (array vs) input h = absurd cc
  validate_edit_input-NotEmpty (object ms) input h = known_input-NotEmpty _ ms input h
