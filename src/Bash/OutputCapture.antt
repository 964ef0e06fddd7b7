-- ===== src/Bash/OutputCapture.antt =====
-- The capture of a command's output: src/bash-tool/output-capture.ts. The bytes that are written to
-- the log stand in `written`; decoded text is its code points, as `for (const char of text)` visits
-- them; the decoder of Node is a parameter.
pub mod Bounds
pub mod Kept
use o_pi.Common.{
  ℕ, zero, suc, ◌+◌, ◌-◌, ◌/◌, max, Bool, true, false, not, ◌&&◌, ◌||◌, List, [], ◌∷◌, ◌++◌,
  reverse, length, Option, none, some, if◌then◌else◌, ltb, leb, ◌==◌, text_eq, is_empty,
}

-- Bytes, and code points.
abbrev pub Bytes : Type 0
Bytes = List ℕ

abbrev pub Chars : Type 0
Chars = List ℕ

pub record Decoder (D : Type 0) : Type 0 where
  pub fresh : D
  pub write : D → Bytes → D × Chars
  pub end : D → Chars

-- `Buffer.byteLength(char, "utf8")`
unfoldable pub char_bytes : ℕ → ℕ
char_bytes c = if ltb c 128 then 1 else if ltb c 2048 then 2 else if ltb c 65536 then 3 else 4

unfoldable pub byte_length : Chars → ℕ
byte_length [] = 0
byte_length (c ∷ t) = char_bytes c + byte_length t

-- The loop over the characters while they fit, with the bytes used so far.
unfoldable pub head_loop : ℕ → ℕ → Chars → Chars
unfolding char_bytes
head_loop most used [] = []
head_loop most used (c ∷ t) =
    let rest = head_loop most (used + char_bytes c) t in
    if ltb most (used + char_bytes c) then [] else c ∷ rest

unfoldable pub take_head_bytes : Chars → ℕ → Chars
unfolding byte_length head_loop
take_head_bytes t most = if leb (byte_length t) most then t else head_loop most 0 t

-- The same loop from the end: the characters come in reverse order, the result in order.
unfoldable pub tail_loop : ℕ → ℕ → Chars → Chars → Chars
unfolding char_bytes
tail_loop most used [] result = result
tail_loop most used (c ∷ t) result =
    let rest = tail_loop most (used + char_bytes c) t (c ∷ result) in
    if ltb most (used + char_bytes c) then result else rest

unfoldable pub take_tail_bytes : Chars → ℕ → Chars
unfolding byte_length tail_loop
take_tail_bytes t most = if leb (byte_length t) most then t else tail_loop most 0 (reverse t) []

-- `data.subarray(0, n)`
unfoldable pub subarray : ℕ → Bytes → Bytes
subarray zero bytes = []
subarray (suc n) [] = []
subarray (suc n) (b ∷ bytes) = b ∷ subarray n bytes

unfoldable pub has_zero : Bytes → Bool
has_zero [] = false
has_zero (b ∷ bytes) = b == 0 || has_zero bytes

abbrev newline : ℕ
newline = 10

pub record Capture (D : Type 0) : Type 0 where
  pub decoder : D
  pub written : Bytes
  pub max_capture_bytes : ℕ
  pub preview_limit : ℕ
  pub total_bytes : ℕ
  pub captured_bytes : ℕ
  pub line_breaks : ℕ
  pub last_char_was_newline : Bool
  pub head : Chars
  pub tail : Chars
  pub binary : Bool
  pub closed : Bool

pub record CapturedOutput : Type 0 where
  pub preview_text : Chars
  pub total : ℕ
  pub total_lines : ℕ
  pub capture_complete : Bool
  pub is_binary : Bool

unfoldable pub count_breaks : Chars → ℕ → ℕ
count_breaks [] n = n
count_breaks (c ∷ t) n = let rest = count_breaks t in if c == newline then rest (n + 1) else rest n

unfoldable pub ends_line : Chars → Bool → Bool
ends_line [] b = b
ends_line (c ∷ t) b = ends_line t (c == newline)

module _ {D : Type 0} (d : Decoder D) where
  unfoldable pub new_capture : ℕ → ℕ → Capture D
  new_capture most preview = record {
    decoder = d.fresh;
    written = [];
    max_capture_bytes = most;
    preview_limit = max 1024 preview;
    total_bytes = 0;
    captured_bytes = 0;
    line_breaks = 0;
    last_char_was_newline = false;
    head = [];
    tail = [];
    binary = false;
    closed = false;
  }

  abbrev pub head_limit : Capture D → ℕ
  head_limit c = c.preview_limit / 2

  unfoldable pub append_preview : Chars → Capture D → Capture D
  unfolding byte_length take_head_bytes take_tail_bytes count_breaks ends_line
  append_preview [] c = c
  append_preview (a ∷ t) c = record c {
    line_breaks = count_breaks (a ∷ t) c.line_breaks;
    last_char_was_newline = ends_line (a ∷ t) c.last_char_was_newline;
    head =
        if ltb (byte_length c.head) (head_limit c)
        then take_head_bytes (c.head ++ a ∷ t) (head_limit c)
        else c.head;
    tail = take_tail_bytes (c.tail ++ a ∷ t) (c.preview_limit - head_limit c);
  }

  -- The part of the data that still fits into the log.
  unfoldable pub write_log : Bytes → Capture D → Capture D
  unfolding subarray
  write_log bytes c =
      let remaining = c.max_capture_bytes - c.captured_bytes in
      let chunk = if leb (length bytes) remaining then bytes else subarray remaining bytes in
      if ltb c.captured_bytes c.max_capture_bytes
      then record c {
        written = c.written ++ chunk;
        captured_bytes = c.captured_bytes + length chunk;
      }
      else c

  unfoldable pub decode : Bytes → Capture D → Capture D
  unfolding append_preview
  decode bytes c =
      let (next, chars) = d.write c.decoder bytes in
      append_preview chars (record c { decoder = next })

  unfoldable pub append_open : Bytes → Capture D → Capture D
  unfolding decode write_log has_zero
  append_open bytes c = decode bytes (
      write_log bytes (record c {
        total_bytes = c.total_bytes + length bytes;
        binary = if has_zero bytes then true else c.binary;
      }))

  unfoldable pub append : Bytes → Capture D → Capture D
  unfolding append_open
  append bytes c = if c.closed then c else append_open bytes c

  -- `this.tail || this.head`
  unfoldable pub live_text : ℕ → Capture D → Chars
  unfolding take_tail_bytes
  live_text most c = take_tail_bytes (if is_empty c.tail then c.head else c.tail) most

  unfoldable pub output_of : Capture D → CapturedOutput
  unfolding text_eq
  output_of c = record {
    preview_text =
        c.head ++ (if not (is_empty c.tail) && not (text_eq c.head c.tail) then c.tail else []);
    total = c.total_bytes;
    total_lines =
        if c.total_bytes == 0
        then 0
        else c.line_breaks + (if c.last_char_was_newline then 0 else 1);
    capture_complete = c.captured_bytes == c.total_bytes;
    is_binary = c.binary;
  }

  -- A second call throws.
  unfoldable pub finish : Capture D → Option (Capture D × CapturedOutput)
  unfolding append_preview output_of
  finish c =
      if c.closed
      then none
      else (let done = append_preview (d.end c.decoder) (record c { closed = true }) in
          some (done, output_of done))
