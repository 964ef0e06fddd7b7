-- ===== src/Schema/Soundness.antt =====
-- Validity and errors agree, in both modes: src/schema-validator.ts.
use o_pi.Common.{Bool, true, false, List, [], ◌∷◌, ◌++◌, append_assoc, ◌≡◌, ◌≢◌, refl, ap, ◌∙◌}
use o_pi.Schema.Keywords.{Error, Run, done, thrown, stuck, add, chain}

-- A value is valid exactly when there are no errors.
abbrev pub Marks : Bool → List Error → Type 0
Marks true es = es ≡ []
Marks false es = es ≢ []

-- A run that collects all errors and one that stops at the first: if the collecting run ends, so does
-- the other, with the same verdict and a beginning of the same errors, and each verdict fits its errors.
abbrev pub Agree : Run → Run → Type 0
Agree (done b es) (done c fs) =
    (b ≡ c) × Marks b es × Marks c fs × ((ts : List Error) × (es ≡ fs ++ ts))
Agree (done b es) thrown = ⊥
Agree (done b es) stuck = ⊥
Agree thrown (done c fs) = Marks c fs
Agree thrown thrown = Unit
Agree thrown stuck = Unit
Agree stuck (done c fs) = Marks c fs
Agree stuck thrown = Unit
Agree stuck stuck = Unit

append-not_nil : (es fs : List Error) → es ≢ [] → (es ++ fs) ≢ []
append-not_nil [] fs h = absurd (h refl)
append-not_nil (e ∷ es) fs h = λ p. cc

-- An empty list of errors that is added to the next run on both sides.
add_none-Agree :
    (es fs : List Error) (r s : Run)
    → es ≡ []
    → fs ≡ []
    → Agree r s
    → Agree (add true es r) (add true fs s)
unfolding add
add_none-Agree es fs (done b gs) (done c hs) e f a = rw (e, f) a
add_none-Agree es fs (done b gs) thrown e f a = a
add_none-Agree es fs (done b gs) stuck e f a = a
add_none-Agree es fs thrown (done c hs) e f a = rw f a
add_none-Agree es fs thrown thrown e f a = tt
add_none-Agree es fs thrown stuck e f a = tt
add_none-Agree es fs stuck (done c hs) e f a = rw f a
add_none-Agree es fs stuck thrown e f a = tt
add_none-Agree es fs stuck stuck e f a = tt

-- What a run that stopped is worth without its partner.
abbrev Stopped : Run → Type 0
Stopped (done c fs) = Marks c fs
Stopped thrown = Unit
Stopped stuck = Unit

pub Agree-Stopped : (r s : Run) → Agree r s → Stopped s
Agree-Stopped (done b es) (done c fs) a = a.2
Agree-Stopped (done b es) thrown a = tt
Agree-Stopped (done b es) stuck a = tt
Agree-Stopped thrown (done c fs) a = a
Agree-Stopped thrown thrown a = tt
Agree-Stopped thrown stuck a = tt
Agree-Stopped stuck (done c fs) a = a
Agree-Stopped stuck thrown a = tt
Agree-Stopped stuck stuck a = tt

pub Stopped-thrown : (s : Run) → Stopped s → Agree thrown s
Stopped-thrown (done c fs) h = h
Stopped-thrown thrown h = tt
Stopped-thrown stuck h = tt

pub Stopped-stuck : (s : Run) → Stopped s → Agree stuck s
Stopped-stuck (done c fs) h = h
Stopped-stuck thrown h = tt
Stopped-stuck stuck h = tt

chain-Stopped : (r s : Run) → Stopped r → Stopped s → Stopped (chain false r s)
unfolding chain add
chain-Stopped (done true es) (done c fs) h k = rw h k
chain-Stopped (done true es) thrown h k = tt
chain-Stopped (done true es) stuck h k = tt
chain-Stopped (done false es) s h k = h
chain-Stopped thrown s h k = tt
chain-Stopped stuck s h k = tt

add_some-Agree :
    (es fs ts : List Error) (r : Run)
    → es ≢ []
    → fs ≢ []
    → es ≡ fs ++ ts
    → Agree (add false es r) (done false fs)
unfolding add
add_some-Agree es fs ts (done c gs) h k e =
    (refl, append-not_nil es gs h, k, (ts ++ gs, ap (λ l. l ++ gs) e ∙ append_assoc fs ts gs))
add_some-Agree es fs ts thrown h k e = k
add_some-Agree es fs ts stuck h k e = k

pub chain-Agree :
    (r r' s s' : Run) → Agree r r' → Agree s s' → Agree (chain true r s) (chain false r' s')
unfolding chain
chain-Agree (done true es) (done true fs) s s' (b, m, n, p) k = add_none-Agree es fs s s' m n k
chain-Agree (done true es) (done false fs) s s' (b, m, n, p) k = cc
chain-Agree (done false es) (done true fs) s s' (b, m, n, p) k = cc
chain-Agree (done false es) (done false fs) s s' (b, m, n, (ts, e)) k =
    add_some-Agree es fs ts s m n e
chain-Agree (done b es) thrown s s' h k = elim h [ ]
chain-Agree (done b es) stuck s s' h k = elim h [ ]
chain-Agree thrown r' s s' h k =
    Stopped-thrown (chain false r' s')
      (chain-Stopped r' s' (Agree-Stopped thrown r' h) (Agree-Stopped s s' k))
chain-Agree stuck r' s s' h k =
    Stopped-stuck (chain false r' s')
      (chain-Stopped r' s' (Agree-Stopped stuck r' h) (Agree-Stopped s s' k))
