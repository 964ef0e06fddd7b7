-- ===== src/FileTools/Edit/Committed.antt =====
-- What an edit commits to the file: src/file-tools/edit/command.ts.
use o_pi.Common.{
  ℕ, ◌+◌, ◌≤◌, Text, text_eq, text_eq_iff, Bool, true, List, [], ◌++◌, length, length-append,
  Option, some, Option-cases, Bool-cases, if◌then◌else◌, leb, ◌≡◌, refl, ap, subst, arith, inl, inr,
}
use o_pi.Schema.Json.{Json}
use o_pi.FileTools.Edit.{Replacement, EditError, Updated, Result, ok, failed, apply_replacements}
use o_pi.FileTools.Edit.Collecting.{Result-cases}
use o_pi.FileTools.Edit.Outcome.{Outcome, apply_replacements-Outcome}
use o_pi.FileTools.Edit.Input.{EditParams, validate_edit_input, validate_edit_input-NotEmpty}
use o_pi.FileTools.Edit.Snapshot.{
  Codec, MutationSnapshot, Prepared, utf8_bom, replaced, prepare_snapshot, validate_text_size,
  build_text_bytes, prepare_edit,
}

module _ {Fault : Type 0} (codec : Codec Fault) where
  -- The snapshot is the version that was read, and the text is the replaced one.
  pub record Ready (s : MutationSnapshot) (edits : List Replacement) (observation : Option Text)
      (p : Prepared) : Type 0 where
    pub is_there : s.is_there ≡ true
    pub seen : observation ≡ some s.hash
    pub decodes : codec.decode_text s.bytes ≡ ok (p.before, p.has_bom)
    pub replaces : apply_replacements p.before edits ≡ ok p.updated

  replaced-ok :
      (before : Text) (bom : Bool) (u : Result EditError Updated) (p : Prepared)
      → replaced codec before bom u ≡ ok p
      → (p.before ≡ before) × (p.has_bom ≡ bom) × (u ≡ ok p.updated)
  replaced-ok before bom (failed e) p h = absurd cc
  replaced-ok before bom (ok u) p h =
      let same : record { before = before; has_bom = bom; updated = u } ≡ p = cc in
      subst
        (λ q.
          (q.before ≡ before)
          × (q.has_bom ≡ bom)
          × (◌≡◌ {A = Result EditError Updated} (ok u) (ok q.updated)))
        same (refl, refl, refl)

  prepare_snapshot-Ready :
      (s : MutationSnapshot) (edits : List Replacement) (observation : Option Text) (p : Prepared)
      → prepare_snapshot codec s edits observation ≡ ok p
      → Ready s edits observation p
  unfolding prepare_snapshot
  prepare_snapshot-Ready s edits observation p h = elim (Bool-cases s.is_there) [
    | inr e ↦ absurd cc
    | inl e ↦ elim (Result-cases (codec.decode_text s.bytes)) [
      | inr (x, f) ↦ absurd cc
      | inl ((before, bom), f) ↦ elim (Option-cases observation) [
        | inl g ↦ absurd cc
        | inr (expected, g) ↦ elim (Bool-cases (text_eq expected s.hash)) [
          | inr same ↦ absurd cc
          | inl same ↦
              let (b, m, u) = replaced-ok before bom (apply_replacements before edits) p cc in
              record {
                is_there = e;
                seen = rw g (ap some ((text_eq_iff expected s.hash).0 same));
                decodes = rw (b, m) f;
                replaces = rw b u;
              }
        ]
      ]
    ]
  ]

  build_text_bytes-fits :
      (t : Text) (bom : Bool) (max_bytes : ℕ) (bytes : List ℕ)
      → codec.byte_length t ≡ length (codec.encode t)
      → build_text_bytes codec t bom max_bytes ≡ ok bytes
      → (bytes ≡ (if bom then utf8_bom else []) ++ codec.encode t) × (length bytes ≤ max_bytes)
  unfolding build_text_bytes validate_text_size
  build_text_bytes-fits t bom max_bytes bytes l h =
      let mark = if bom then utf8_bom else [] in
      elim (Bool-cases (leb (codec.byte_length t + length mark) max_bytes)) [
        | inr e ↦ absurd cc
        | inl e ↦
            let same : bytes ≡ mark ++ codec.encode t = cc in
            let fits : codec.byte_length t + length mark ≤ max_bytes = ground arith in
            (same, rw same (omega (arith, length-append mark (codec.encode t), l)))
      ]

  pub record Commits (s : MutationSnapshot) (edits : List Replacement) (observation : Option Text)
      (max_bytes : ℕ) (bytes : List ℕ) : Type 0 where
    pub prepared : Prepared
    pub ready : Ready s edits observation prepared
    pub outcome : Outcome prepared.before edits (ok prepared.updated)
    pub written :
        bytes ≡ (if prepared.has_bom then utf8_bom else []) ++ codec.encode prepared.updated.text
    pub fits : length bytes ≤ max_bytes

  -- If the byte length is that of the encoding: what an edit with checked parameters commits is the
  -- decoded text of a file that still has the hash that was read, with exactly the matched places
  -- rewritten, encoded with the byte order mark if there was one, and within the limit.
  pub prepare_edit-Commits :
      {N : Type 0} (params : Json N) (input : EditParams) (s : MutationSnapshot)
      (observation : Option Text) (max_bytes : ℕ) (bytes : List ℕ)
      → ((t : Text) → codec.byte_length t ≡ length (codec.encode t))
      → validate_edit_input params ≡ ok input
      → prepare_edit codec s input.edits observation max_bytes ≡ ok bytes
      → Commits s input.edits observation max_bytes bytes
  unfolding prepare_edit
  prepare_edit-Commits params input s observation max_bytes bytes l v h =
      elim (Result-cases (prepare_snapshot codec s input.edits observation)) [
        | inr (x, e) ↦ absurd cc
        | inl (p, e) ↦
            let ready = prepare_snapshot-Ready s input.edits observation p e in
            let (w, f) =
              build_text_bytes-fits p.updated.text p.has_bom max_bytes bytes (l p.updated.text)
                cc in
            record {
              prepared = p;
              ready = ready;
              outcome = subst (Outcome p.before input.edits) ready.replaces (
                  apply_replacements-Outcome p.before input.edits
                    (validate_edit_input-NotEmpty params input v));
              written = w;
              fits = f;
            }
      ]
