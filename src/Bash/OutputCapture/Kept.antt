-- ===== src/Bash/OutputCapture/Kept.antt =====
-- A whole capture: src/bash-tool/output-capture.ts.
use o_pi.Common.{
  ℕ, zero, suc, ◌+◌, ◌-◌, ◌≤◌, ◌<◌, min, max, Bool, true, false, ◌||◌, List, [], ◌∷◌, ◌++◌,
  append-nil, append_assoc, length, length-append, if◌then◌else◌, ltb, leb, ◌==◌, ==_iff, ◌≡◌, ◌↔◌,
  inl, inr, refl, sym, ap, subst, ◌∙◌, arith, Bool-cases,
}
use o_pi.Bash.OutputCapture.{
  Bytes, Chars, Decoder, byte_length, subarray, Capture, new_capture, append_preview, write_log,
  decode, append, append_open, output_of, head_limit, has_zero, count_breaks, ends_line,
}
use o_pi.Bash.OutputCapture.Bounds.{take_head_bytes-IsHead, take_tail_bytes-IsTail}

length-subarray : (n : ℕ) (l : Bytes) → length (subarray n l) ≡ min n (length l)
unfolding subarray
length-subarray zero l = omega arith
length-subarray (suc n) [] = omega arith
length-subarray (suc n) (b ∷ l) = omega (arith, length-subarray n l)

subarray-whole : (n : ℕ) (l : Bytes) → length l ≤ n → subarray n l ≡ l
unfolding subarray
subarray-whole zero [] h = refl
subarray-whole zero (b ∷ l) h = absurd (omega arith)
subarray-whole (suc n) [] h = refl
subarray-whole (suc n) (b ∷ l) h = ap (λ m. b ∷ m) (subarray-whole n l (omega arith))

subarray-append :
    (n : ℕ) (l m : Bytes) → subarray n (l ++ m) ≡ subarray n l ++ subarray (n - length l) m
unfolding subarray
subarray-append zero l m = ap (λ k. subarray k m) {x = 0} (omega arith)
subarray-append (suc n) [] m = ap (λ k. subarray k m) {x = suc n} (omega arith)
subarray-append (suc n) (b ∷ l) m =
    ap (λ s. b ∷ s)
      (subarray-append n l m
        ∙ ap (λ k. subarray n l ++ subarray k m) {y = suc n - suc (length l)} (omega arith))

-- The part of new bytes that is written is the part of them that belongs to the first `most`.
chunk-subarray :
    (most : ℕ) (all bytes : Bytes) (n : ℕ)
    → n ≡ length (subarray most all)
    → ltb n most ≡ true
    → (if leb (length bytes) (most - n) then bytes else subarray (most - n) bytes)
      ≡ subarray (most - length all) bytes
chunk-subarray most all bytes n e h =
    let l = length-subarray most all in
    let same = omega_same most (length all) n (ground arith) in
    elim (Bool-cases (leb (length bytes) (most - n))) [
      | inl f ↦ rw f (sym (subarray-whole (most - length all) bytes (ground arith)))
      | inr f ↦ rw f (ap (λ k. subarray k bytes) same)
    ]
  where
    omega_same : (m a n : ℕ) → (n ≡ min m a) × (n < m) → m - n ≡ m - a
    omega_same m a n h = omega arith

full-subarray :
    (most : ℕ) (all bytes : Bytes)
    → ltb (length (subarray most all)) most ≡ false
    → subarray (most - length all) bytes ≡ []
unfolding subarray
full-subarray most all bytes h =
    let l = length-subarray most all in
    ap (λ k. subarray k bytes) {x = most - length all} {y = 0} (ground arith)

unfoldable pub append_all : {D : Type 0} → Decoder D → List Bytes → Capture D → Capture D
append_all d [] c = c
append_all d (b ∷ bs) c = append_all d bs (append d b c)

unfoldable pub joined : List Bytes → Bytes
joined [] = []
joined (b ∷ bs) = b ++ joined bs

-- The newlines of a text.
unfoldable pub newlines_in : Chars → ℕ
newlines_in [] = 0
newlines_in (a ∷ t) = (if a == 10 then 1 else 0) + newlines_in t

-- The text has a last character, and it is a newline.
unfoldable pub last_is_newline : Chars → Bool
last_is_newline [] = false
last_is_newline (a ∷ []) = a == 10
last_is_newline (a ∷ b ∷ t) = last_is_newline (b ∷ t)

newlines_in-append : (t u : Chars) → newlines_in (t ++ u) ≡ newlines_in t + newlines_in u
unfolding newlines_in
newlines_in-append [] u = omega arith
newlines_in-append (a ∷ t) u = omega (arith, newlines_in-append t u)

count_breaks-newlines_in : (t : Chars) (n : ℕ) → count_breaks t n ≡ n + newlines_in t
unfolding count_breaks newlines_in
count_breaks-newlines_in [] n = omega arith
count_breaks-newlines_in (a ∷ t) n = elim (Bool-cases (a == 10)) [
  | inl e ↦ rw e (omega (arith, count_breaks-newlines_in t (n + 1)))
  | inr e ↦ rw e (omega (arith, count_breaks-newlines_in t n))
]

ends_line-last : (t : Chars) (b : Bool) (a : ℕ) → ends_line (a ∷ t) b ≡ last_is_newline (a ∷ t)
unfolding ends_line last_is_newline
ends_line-last [] b a = refl
ends_line-last (e ∷ t) b a = ends_line-last t (a == 10) e

last_is_newline-append :
    (t u : Chars) (a : ℕ) → last_is_newline (t ++ a ∷ u) ≡ last_is_newline (a ∷ u)
unfolding last_is_newline
last_is_newline-append [] u a = refl
last_is_newline-append (b ∷ []) u a = refl
last_is_newline-append (b ∷ e ∷ t) u a = last_is_newline-append (e ∷ t) u a

has_zero-append : (l m : Bytes) → has_zero (l ++ m) ≡ (has_zero l || has_zero m)
unfolding has_zero
has_zero-append [] m = refl
has_zero-append (b ∷ l) m = ground (arith, has_zero-append l m)

module _ {D : Type 0} (d : Decoder D) (most preview : ℕ) where
  -- The decoder behind some chunks, and the text that came out of it, from a state and a text.
  unfoldable pub decode_all : D × Chars → List Bytes → D × Chars
  decode_all (x, t) [] = (x, t)
  decode_all (x, t) (b ∷ bs) = let (y, more) = d.write x b in decode_all (y, t ++ more) bs

  -- The limits are those of the start, the log holds the first bytes of all that came, as many as may
  -- be kept, the counts of bytes and of line breaks are exact, the output is binary if a zero byte
  -- came, and the two ends of the preview are within their limits.
  pub record Kept (c : Capture D) (all : Bytes) (decoded : D × Chars) : Type 0 where
    pub decoder : c.decoder ≡ decoded.0
    pub breaks : c.line_breaks ≡ newlines_in decoded.1
    pub ends : c.last_char_was_newline ≡ last_is_newline decoded.1
    pub zeros : c.binary ≡ has_zero all
    pub limit : c.max_capture_bytes ≡ most
    pub window : c.preview_limit ≡ max 1024 preview
    pub logged : c.written ≡ subarray c.max_capture_bytes all
    pub captured : c.captured_bytes ≡ length c.written
    pub total : c.total_bytes ≡ length all
    pub head_fits : byte_length c.head ≤ head_limit d c
    pub tail_fits : byte_length c.tail ≤ c.preview_limit - head_limit d c

  append_preview-Kept :
      (t : Chars) (c : Capture D) (all : Bytes) (x : D) (u : Chars)
      → Kept c all (x, u)
      → Kept (append_preview d t c) all (x, u ++ t)
  unfolding append_preview
  append_preview-Kept [] c all x u k = rw (append-nil u) k
  append_preview-Kept (a ∷ t) c all x u k = record {
    decoder = k.decoder;
    breaks =
        count_breaks-newlines_in (a ∷ t) c.line_breaks
        ∙ ap (λ n. n + newlines_in (a ∷ t)) k.breaks
        ∙ sym (newlines_in-append u (a ∷ t));
    ends = ends_line-last t c.last_char_was_newline a ∙ sym (last_is_newline-append u t a);
    zeros = k.zeros;
    limit = k.limit;
    window = k.window;
    logged = k.logged;
    captured = k.captured;
    total = k.total;
    head_fits = elim (Bool-cases (ltb (byte_length c.head) (head_limit d c))) [
      | inl e ↦ rw e (take_head_bytes-IsHead (c.head ++ a ∷ t) (head_limit d c)).fits
      | inr e ↦ rw e k.head_fits
    ];
    tail_fits = (take_tail_bytes-IsTail (c.tail ++ a ∷ t) (c.preview_limit - head_limit d c)).fits;
  }

  write_log-logged :
      (bytes all : Bytes) (c : Capture D)
      → c.written ≡ subarray c.max_capture_bytes all
      → c.captured_bytes ≡ length c.written
      → ((write_log d bytes c).written ≡ subarray c.max_capture_bytes (all ++ bytes))
        × ((write_log d bytes c).captured_bytes ≡ length (write_log d bytes c).written)
  unfolding write_log
  write_log-logged bytes all c e n = elim (Bool-cases (ltb c.captured_bytes c.max_capture_bytes)) [
    | inl h ↦ rw h (
        (
          ap
                (λ w.
                  w
                  ++ (if leb (length bytes) (c.max_capture_bytes - c.captured_bytes)
                      then bytes
                      else subarray (c.max_capture_bytes - c.captured_bytes) bytes))
                e
              ∙ ap (λ w. subarray c.max_capture_bytes all ++ w)
                  (chunk-subarray c.max_capture_bytes all bytes c.captured_bytes (n ∙ ap length e)
                    h)
              ∙ sym (subarray-append c.max_capture_bytes all bytes),
          ap
                (λ k.
                  k
                  + length (
                      if leb (length bytes) (c.max_capture_bytes - c.captured_bytes)
                      then bytes
                      else subarray (c.max_capture_bytes - c.captured_bytes) bytes))
                n
              ∙ sym (length-append c.written _),
        ))
    | inr h ↦ rw h (
        (
          e
              ∙ sym (append-nil (subarray c.max_capture_bytes all))
              ∙ ap (λ w. subarray c.max_capture_bytes all ++ w)
                  (sym (
                    full-subarray c.max_capture_bytes all bytes
                      (ap (λ k. ltb k c.max_capture_bytes) (sym (n ∙ ap length e)) ∙ h)))
              ∙ sym (subarray-append c.max_capture_bytes all bytes),
          n,
        ))
  ]

  -- What writing to the log leaves alone.
  record Frame (c r : Capture D) : Type 0 where
    limit : r.max_capture_bytes ≡ c.max_capture_bytes
    window : r.preview_limit ≡ c.preview_limit
    total : r.total_bytes ≡ c.total_bytes
    head : r.head ≡ c.head
    tail : r.tail ≡ c.tail
    closed : r.closed ≡ c.closed
    decoder : r.decoder ≡ c.decoder
    breaks : r.line_breaks ≡ c.line_breaks
    ends : r.last_char_was_newline ≡ c.last_char_was_newline
    zeros : r.binary ≡ c.binary

  write_log-Frame : (bytes : Bytes) (c : Capture D) → Frame c (write_log d bytes c)
  unfolding write_log
  write_log-Frame bytes c = elim (Bool-cases (ltb c.captured_bytes c.max_capture_bytes)) [
    | inl h ↦ rw h (record {
      limit = refl;
      window = refl;
      total = refl;
      head = refl;
      tail = refl;
      closed = refl;
      decoder = refl;
      breaks = refl;
      ends = refl;
      zeros = refl;
    })
    | inr h ↦ rw h (record {
      limit = refl;
      window = refl;
      total = refl;
      head = refl;
      tail = refl;
      closed = refl;
      decoder = refl;
      breaks = refl;
      ends = refl;
      zeros = refl;
    })
  ]

  append_preview-closed : (t : Chars) (c : Capture D) → (append_preview d t c).closed ≡ c.closed
  unfolding append_preview
  append_preview-closed [] c = refl
  append_preview-closed (a ∷ t) c = refl

  either :
      (bytes all : Bytes) (b : Bool)
      → b ≡ has_zero all
      → (if has_zero bytes then true else b) ≡ has_zero (all ++ bytes)
  either bytes all b h = ground (arith, has_zero-append all bytes)

  append_open-Kept :
      (bytes all : Bytes) (c : Capture D) (x : D) (u : Chars)
      → Kept c all (x, u)
      → Kept (append_open d bytes c) (all ++ bytes) ((d.write x bytes).0, u ++ (d.write x bytes).1)
        × ((append_open d bytes c).closed ≡ c.closed)
  unfolding append_open decode
  append_open-Kept bytes all c x u k =
      let c1 = record c {
        total_bytes = c.total_bytes + length bytes;
        binary = if has_zero bytes then true else c.binary;
      } in
      let c2 = write_log d bytes c1 in
      let f = write_log-Frame bytes c1 in
      let w = write_log-logged bytes all c1 k.logged k.captured in
      let e = f.decoder ∙ k.decoder in
      let c3 = record c2 { decoder = (d.write c2.decoder bytes).0 } in
      let kept =
        append_preview-Kept (d.write c2.decoder bytes).1 c3 (all ++ bytes) (d.write x bytes).0 u
          (record {
            decoder = ap (λ y. (d.write y bytes).0) e;
            breaks = f.breaks ∙ k.breaks;
            ends = f.ends ∙ k.ends;
            zeros = f.zeros ∙ either bytes all c.binary k.zeros;
            limit = f.limit ∙ k.limit;
            window = f.window ∙ k.window;
            logged = rw f.limit w.0;
            captured = w.1;
            total = f.total ∙ ap (λ n. n + length bytes) k.total ∙ sym (length-append all bytes);
            head_fits = rw (f.head, f.window) k.head_fits;
            tail_fits = rw (f.tail, f.window) k.tail_fits;
          }) in
      (
        subst
            (λ v.
              Kept (append_preview d (d.write c2.decoder bytes).1 c3) (all ++ bytes)
                ((d.write x bytes).0, u ++ v))
            (ap (λ y. (d.write y bytes).1) e) kept,
        append_preview-closed (d.write c2.decoder bytes).1 c3 ∙ f.closed,
      )

  append-open :
      (bytes : Bytes) (c : Capture D) → c.closed ≡ false → append d bytes c ≡ append_open d bytes c
  unfolding append
  append-open bytes c h = ap (λ b. if b then c else append_open d bytes c) h

  new_capture-Kept : Kept (new_capture d most preview) [] (d.fresh, [])
  unfolding new_capture subarray byte_length newlines_in last_is_newline has_zero
  new_capture-Kept = record {
    decoder = refl;
    breaks = refl;
    ends = refl;
    zeros = refl;
    limit = refl;
    window = refl;
    logged = nothing most;
    captured = refl;
    total = refl;
    head_fits = omega arith;
    tail_fits = omega arith;
  }
    where
      nothing : (n : ℕ) → [] ≡ subarray n []
      nothing zero = refl
      nothing (suc n) = refl

  append_all-Kept :
      (bs : List Bytes) (c : Capture D) (all : Bytes) (x : D) (u : Chars)
      → c.closed ≡ false
      → Kept c all (x, u)
      → Kept (append_all d bs c) (all ++ joined bs) (decode_all (x, u) bs)
  unfolding append_all joined decode_all
  append_all-Kept [] c all x u h k = rw (append-nil all) k
  append_all-Kept (b ∷ bs) c all x u h k =
      let (k1, h1) = append_open-Kept b all c x u k in
      rw (append-open b c h, ← append_assoc all b (joined bs))
        (append_all-Kept bs (append_open d b c) (all ++ b) (d.write x b).0 (u ++ (d.write x b).1)
          (h1 ∙ h) k1)

  -- After any chunks of output, the log of a new capture holds their first bytes up to the limit; its
  -- counts of all bytes and of the bytes kept are exact, its count of line breaks is the number of
  -- newlines in the text that the decoder made of the chunks, and it knows whether that text ends
  -- with a newline and whether a zero byte came; and the two ends of its preview are within their
  -- limits.
  pub captured-Kept :
      (bs : List Bytes)
      → Kept
          (append_all d bs (new_capture d most preview))
          (joined bs)
          (decode_all (d.fresh, []) bs)
  unfolding new_capture
  captured-Kept bs =
      append_all-Kept bs (new_capture d most preview) [] d.fresh [] refl new_capture-Kept

  -- The capture is reported as complete exactly when the log holds every byte that came.
  pub complete_iff :
      (c : Capture D) (all : Bytes) (decoded : D × Chars)
      → Kept c all decoded
      → ((output_of d c).capture_complete ≡ true) ↔ (c.written ≡ all)
  unfolding output_of
  complete_iff c all decoded k = (
    (λ e. k.logged ∙ subarray-whole c.max_capture_bytes all (short e)),
    λ e. (==_iff c.captured_bytes c.total_bytes).1 (k.captured ∙ ap length e ∙ sym k.total),
  )
    where
      short : (c.captured_bytes == c.total_bytes) ≡ true → length all ≤ c.max_capture_bytes
      short e =
          let l = length-subarray c.max_capture_bytes all in
          let n = k.captured ∙ ap length k.logged ∙ l in let t = k.total in ground arith
