-- ===== src/FileTools/Edit/Snapshot.antt =====
-- The edit of a snapshot of the file: src/file-tools/edit/command.ts. Decoding and encoding, which the
-- file system offers, are parameters.
use o_pi.Common.{
  ℕ, ◌+◌, Text, text_eq, Bool, List, [], ◌∷◌, ◌++◌, length, Option, none, some, if◌then◌else◌, leb,
}
use o_pi.FileTools.Edit.{
  Replacement, EditError, Updated, Result, ok, failed, ◌>>=◌, apply_replacements,
}

-- What the code asks of the file system and the host.
pub record Codec (Fault : Type 0) : Type 0 where
  -- `content.decodeText`: the text without a byte order mark, and whether there was one.
  pub decode_text : List ℕ → Result Fault (Text × Bool)
  -- `TextEncoder.encode`
  pub encode : Text → List ℕ
  -- `Buffer.byteLength`
  pub byte_length : Text → ℕ

pub data Failure (Fault : Type 0) : Type 0 where
  file_not_found : Failure Fault
  undecodable : Fault → Failure Fault
  read_required : Failure Fault
  -- The hash that was read and the one that is there.
  stale_read : Text → Text → Failure Fault
  not_replaced : EditError → Failure Fault
  -- The limit and the size.
  output_limit_exceeded : ℕ → ℕ → Failure Fault

pub record MutationSnapshot : Type 0 where
  pub is_there : Bool
  pub bytes : List ℕ
  pub hash : Text

pub record Prepared : Type 0 where
  pub before : Text
  pub has_bom : Bool
  pub updated : Updated

abbrev pub utf8_bom : List ℕ
utf8_bom = 239 ∷ 187 ∷ 191 ∷ []

module _ {Fault : Type 0} (codec : Codec Fault) where
  abbrev pub replaced : Text → Bool → Result EditError Updated → Result (Failure Fault) Prepared
  replaced before bom (failed e) = failed (not_replaced e)
  replaced before bom (ok u) = ok (record { before = before; has_bom = bom; updated = u })

  -- The observation is the hash that the session remembers of the file.
  abbrev checked_against :
      Option Text → Text → Text → Bool → List Replacement → Result (Failure Fault) Prepared
  checked_against none hash before bom edits = failed read_required
  checked_against (some expected) hash before bom edits =
      if text_eq expected hash
      then replaced before bom (apply_replacements before edits)
      else failed (stale_read expected hash)

  abbrev decoded :
      Option Text
      → Text
      → Result Fault (Text × Bool)
      → List Replacement
      → Result (Failure Fault) Prepared
  decoded observation hash (failed e) edits = failed (undecodable e)
  decoded observation hash (ok (before, bom)) edits =
      checked_against observation hash before bom edits

  unfoldable pub prepare_snapshot :
      MutationSnapshot → List Replacement → Option Text → Result (Failure Fault) Prepared
  unfolding apply_replacements text_eq
  prepare_snapshot s edits observation =
      if s.is_there
      then decoded observation s.hash (codec.decode_text s.bytes) edits
      else failed file_not_found

  abbrev bom_of : Bool → List ℕ
  bom_of bom = if bom then utf8_bom else []

  unfoldable pub validate_text_size : Text → Bool → ℕ → Option (Failure Fault)
  validate_text_size t bom max_bytes =
      let size = codec.byte_length t + length (bom_of bom) in
      if leb size max_bytes then none else some (output_limit_exceeded max_bytes size)

  abbrev bytes_or : Text → Bool → Option (Failure Fault) → Result (Failure Fault) (List ℕ)
  bytes_or t bom (some e) = failed e
  bytes_or t bom none = ok (bom_of bom ++ codec.encode t)

  unfoldable pub build_text_bytes : Text → Bool → ℕ → Result (Failure Fault) (List ℕ)
  unfolding validate_text_size
  build_text_bytes t bom max_bytes = bytes_or t bom (validate_text_size t bom max_bytes)

  -- The callback of the mutation: the bytes that are committed, or why the mutation is rejected.
  unfoldable pub prepare_edit :
      MutationSnapshot → List Replacement → Option Text → ℕ → Result (Failure Fault) (List ℕ)
  unfolding prepare_snapshot build_text_bytes
  prepare_edit s edits observation max_bytes = prepare_snapshot s edits observation >>= λ p.
      build_text_bytes p.updated.text p.has_bom max_bytes
