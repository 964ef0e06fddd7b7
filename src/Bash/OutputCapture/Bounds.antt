-- ===== src/Bash/OutputCapture/Bounds.antt =====
-- What the capture keeps and how much: src/bash-tool/output-capture.ts.
use o_pi.Common.{
  ℕ, ◌+◌, ◌≤◌, ◌<◌, [], ◌∷◌, ◌++◌, append-nil, append_assoc, reverse, ltb, leb, ◌≡◌, inl, inr, refl,
  sym, ap, ◌∙◌, arith, Bool-cases, lt→ltb,
}
use mathlib.Core.List.{reverse-cons, reverse-append, reverse-reverse}
use o_pi.Bash.OutputCapture.{
  Chars, Decoder, char_bytes, byte_length, head_loop, take_head_bytes, tail_loop, take_tail_bytes,
  Capture, append_preview, head_limit,
}

pub byte_length-append : (s t : Chars) → byte_length (s ++ t) ≡ byte_length s + byte_length t
unfolding byte_length
byte_length-append [] t = omega arith
byte_length-append (c ∷ s) t = omega (arith, byte_length-append s t)

-- The longest beginning that fits: `kept` fits, and with the next character it does not.
pub record IsHead (t : Chars) (most : ℕ) (kept : Chars) : Type 0 where
  pub rest : Chars
  pub split : t ≡ kept ++ rest
  pub fits : byte_length kept ≤ most
  pub longest : (c : ℕ) (more : Chars) → rest ≡ c ∷ more → most < byte_length kept + char_bytes c

-- The same with what was used before.
record Took (t : Chars) (most used : ℕ) (kept : Chars) : Type 0 where
  rest : Chars
  split : t ≡ kept ++ rest
  fits : used + byte_length kept ≤ most
  longest : (c : ℕ) (more : Chars) → rest ≡ c ∷ more → most < used + byte_length kept + char_bytes c

head_loop-Took :
    (most used : ℕ) (t : Chars) → used ≤ most → Took t most used (head_loop most used t)
unfolding head_loop byte_length
head_loop-Took most used [] h = record {
  rest = [];
  split = refl;
  fits = omega arith;
  longest = λ c more e. cc;
}
head_loop-Took most used (c ∷ t) h = elim (Bool-cases (ltb most (used + char_bytes c))) [
  | inl e ↦ rw e (record {
    rest = c ∷ t;
    split = refl;
    fits = omega arith;
    longest = λ d more f. ground arith;
  })
  | inr e ↦ rw e (
      let w = head_loop-Took most (used + char_bytes c) t (ground arith) in
      record {
        rest = w.rest;
        split = ap (λ l. c ∷ l) w.split;
        fits = omega (arith, w.fits);
        longest = λ d more f. omega (arith, w.longest d more f);
      })
]

-- Taking from the head returns the longest beginning of the text that fits, and the whole text if
-- it fits.
pub take_head_bytes-IsHead : (t : Chars) (most : ℕ) → IsHead t most (take_head_bytes t most)
unfolding take_head_bytes
take_head_bytes-IsHead t most = elim (Bool-cases (leb (byte_length t) most)) [
  | inl e ↦ rw e (record {
    rest = [];
    split = sym (append-nil t);
    fits = ground arith;
    longest = λ c more f. cc;
  })
  | inr e ↦ rw e (
      let w = head_loop-Took most 0 t (omega arith) in
      record {
        rest = w.rest;
        split = w.split;
        fits = omega (arith, w.fits);
        longest = λ c more f. omega (arith, w.longest c more f);
      })
]

-- How a loop from the end leaves the characters, in reverse: those that were taken, and the rest.
record TookBack (r : Chars) (most used : ℕ) (acc result : Chars) : Type 0 where
  taken : Chars
  rest : Chars
  split : r ≡ taken ++ rest
  made : result ≡ reverse taken ++ acc
  fits : used + byte_length taken ≤ most
  longest :
      (c : ℕ) (more : Chars) → rest ≡ c ∷ more → most < used + byte_length taken + char_bytes c

rev_step : (c : ℕ) (l acc : Chars) → reverse l ++ c ∷ acc ≡ reverse (c ∷ l) ++ acc
rev_step c l acc =
    sym (append_assoc (reverse l) (c ∷ []) acc) ∙ ap (λ s. s ++ acc) (sym (reverse-cons c l))

tail_loop-TookBack :
    (most used : ℕ) (r acc : Chars)
    → used ≤ most
    → TookBack r most used acc (tail_loop most used r acc)
unfolding tail_loop byte_length
tail_loop-TookBack most used [] acc h = record {
  taken = [];
  rest = [];
  split = refl;
  made = refl;
  fits = omega arith;
  longest = λ c more e. cc;
}
tail_loop-TookBack most used (c ∷ r) acc h = elim (Bool-cases (ltb most (used + char_bytes c))) [
  | inl e ↦ rw e (record {
    taken = [];
    rest = c ∷ r;
    split = refl;
    made = refl;
    fits = omega arith;
    longest = λ d more f. ground arith;
  })
  | inr e ↦ rw e (
      let w = tail_loop-TookBack most (used + char_bytes c) r (c ∷ acc) (ground arith) in
      record {
        taken = c ∷ w.taken;
        rest = w.rest;
        split = ap (λ l. c ∷ l) w.split;
        made = w.made ∙ rev_step c w.taken acc;
        fits = omega (arith, w.fits);
        longest = λ d more f. omega (arith, w.longest d more f);
      })
]

byte_length-reverse : (t : Chars) → byte_length (reverse t) ≡ byte_length t
unfolding byte_length
byte_length-reverse [] = refl
byte_length-reverse (c ∷ t) =
    let e = ap byte_length (reverse-cons c t) ∙ byte_length-append (reverse t) (c ∷ []) in
    omega (arith, e, byte_length-reverse t)

-- The longest end that fits.
pub record IsTail (t : Chars) (most : ℕ) (kept : Chars) : Type 0 where
  pub dropped : Chars
  pub split : t ≡ dropped ++ kept
  pub fits : byte_length kept ≤ most
  pub longest :
      (c : ℕ) (more : Chars) → dropped ≡ more ++ c ∷ [] → most < byte_length kept + char_bytes c

IsTail-TookBack :
    (t : Chars) (most : ℕ) (kept : Chars) → TookBack (reverse t) most 0 [] kept → IsTail t most kept
IsTail-TookBack t most kept w =
    let e = w.made ∙ append-nil (reverse w.taken) in
    let b = ap byte_length e ∙ byte_length-reverse w.taken in
    record {
      dropped = reverse w.rest;
      split =
          sym (reverse-reverse t)
          ∙ ap reverse w.split
          ∙ reverse-append w.taken w.rest
          ∙ ap (λ s. reverse w.rest ++ s) (sym e);
      fits = omega (arith, w.fits);
      longest = λ c more f.
          let g = sym (reverse-reverse w.rest) ∙ ap reverse f ∙ reverse-append more (c ∷ []) in
          omega (arith, w.longest c (reverse more) g);
    }

-- Taking from the tail returns the longest end of the text that fits.
pub take_tail_bytes-IsTail : (t : Chars) (most : ℕ) → IsTail t most (take_tail_bytes t most)
unfolding take_tail_bytes
take_tail_bytes-IsTail t most = elim (Bool-cases (leb (byte_length t) most)) [
  | inl e ↦ rw e (record {
    dropped = [];
    split = refl;
    fits = ground arith;
    longest = λ c more f. absurd (nil_snoc c more f);
  })
  | inr e ↦ rw e (
      IsTail-TookBack t most (tail_loop most 0 (reverse t) [])
        (tail_loop-TookBack most 0 (reverse t) [] (omega arith)))
]
  where
    nil_snoc : (c : ℕ) (more : Chars) → [] ≡ more ++ c ∷ [] → ⊥
    nil_snoc c [] f = cc
    nil_snoc c (m ∷ more) f = cc

head_loop-overflow :
    (most used : ℕ) (t : Chars) (c : ℕ)
    → used + byte_length t ≤ most
    → most < used + byte_length t + char_bytes c
    → head_loop most used (t ++ c ∷ []) ≡ t
unfolding head_loop byte_length
head_loop-overflow most used [] c h k = ground arith
head_loop-overflow most used (a ∷ t) c h k =
    let e = head_loop-overflow most (used + char_bytes a) t c (omega arith) (omega arith) in
    ground arith

byte_length_one : (c : ℕ) → byte_length (c ∷ []) ≡ char_bytes c
unfolding byte_length
byte_length_one c = omega arith

take_head_bytes-overflow :
    (t : Chars) (c most : ℕ)
    → byte_length t ≤ most
    → most < byte_length t + char_bytes c
    → take_head_bytes (t ++ c ∷ []) most ≡ t
unfolding take_head_bytes
take_head_bytes-overflow t c most h k =
    let e = byte_length-append t (c ∷ []) in
    let f = head_loop-overflow most 0 t c (omega arith) (omega arith) in
    let g = byte_length_one c in ground arith

take_head_bytes-room :
    (t : Chars) (c most : ℕ)
    → byte_length t + char_bytes c ≤ most
    → take_head_bytes (t ++ c ∷ []) most ≡ t ++ c ∷ []
unfolding take_head_bytes
take_head_bytes-room t c most h =
    let e = byte_length-append t (c ∷ []) in let g = byte_length_one c in ground arith

-- The head of the preview is filled on after it was cut: a character that did not fit is left out,
-- and a narrower one that comes with later bytes stands directly behind the text before it.
pub head_skips :
    {D : Type 0} (d : Decoder D) (c : Capture D) (wide narrow : ℕ)
    → head_limit d c < byte_length c.head + char_bytes wide
    → byte_length c.head + char_bytes narrow ≤ head_limit d c
    → 0 < char_bytes narrow
    → (append_preview d (narrow ∷ []) (append_preview d (wide ∷ []) c)).head ≡ c.head ++ narrow ∷ []
unfolding append_preview
head_skips d c wide narrow h k n =
    let lt = lt→ltb (byte_length c.head) (head_limit d c) (omega arith) in
    let cut = take_head_bytes-overflow c.head wide (head_limit d c) (omega arith) h in
    let room = take_head_bytes-room c.head narrow (head_limit d c) k in rw (lt, cut, lt) room
