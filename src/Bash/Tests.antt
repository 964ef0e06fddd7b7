-- ===== src/Bash/Tests.antt =====
-- The theorems on the shell tool at concrete inputs.
use o_pi.Common.{ℕ, List, [], ◌∷◌, arith, ◌≡◌}
use o_pi.Bash.OutputCapture.{
  Bytes, Decoder, Capture, new_capture, append_preview, char_bytes, byte_length, take_head_bytes,
}
use o_pi.Bash.OutputCapture.Bounds.{IsHead, take_head_bytes-IsHead, head_skips}
use o_pi.Bash.OutputCapture.Kept.{Kept, append_all, joined, decode_all, captured-Kept}

-- Output of which every byte is a character.
abbrev ascii : Decoder ℕ
ascii = record { fresh = 0; write = λ n bytes. (n, bytes); end = λ n. [] }

take_head_bytes-IsHead_example : IsHead (97 ∷ 8364 ∷ []) 3 (take_head_bytes (97 ∷ 8364 ∷ []) 3)
take_head_bytes-IsHead_example = take_head_bytes-IsHead (97 ∷ 8364 ∷ []) 3

abbrev chunks : List Bytes
chunks = (97 ∷ 98 ∷ []) ∷ (99 ∷ 10 ∷ []) ∷ []

captured-Kept_example :
    Kept ascii 3 0
      (append_all ascii chunks (new_capture ascii 3 0))
      (joined chunks)
      (decode_all ascii 3 0 (0, []) chunks)
captured-Kept_example = captured-Kept ascii 3 0 chunks

-- One byte is left in the head: the sign of three bytes is skipped and the letter kept.
abbrev nearly_full : Capture ℕ
nearly_full = record (new_capture ascii 9 0) { head = 97 ∷ 98 ∷ []; preview_limit = 6 }

head_skips_example :
    (append_preview ascii (99 ∷ []) (append_preview ascii (8364 ∷ []) nearly_full)).head
    ≡ 97 ∷ 98 ∷ 99 ∷ []
unfolding new_capture char_bytes byte_length
head_skips_example = head_skips ascii nearly_full 8364 99 (omega arith) (omega arith) (omega arith)
