-- ===== src/GoogleGroups/Emails.antt =====
-- `strip().lower()` twice is once.
use knowledge_graph_mvp.Prelude.{
  Bool-cases, Text, [], ap, arith, false, inl, inr, is_space, lower, lower_char, lstrip, refl,
  reverse, strip, sym, ℕ, ◌++◌, ◌∙◌, ◌∷◌, ◌≡◌,
}
use mathlib.Mathlib.Data.List.Basic.{map-reverse_aux}
use mathlib.Core.List.{reverse-reverse, reverse-append}

lstrip-lstrip : (cs : Text) → lstrip (lstrip cs) ≡ lstrip cs
unfolding lstrip
lstrip-lstrip [] = refl
lstrip-lstrip (c ∷ cs) = elim (Bool-cases (is_space c)) [
  | inl e ↦ rw e (lstrip-lstrip cs)
  | inr e ↦ rw (e, e) refl
]

-- What `lstrip` leaves starts with no white space.
lstrip-head : (cs ds : Text) (c : ℕ) → lstrip cs ≡ c ∷ ds → is_space c ≡ false
unfolding lstrip
lstrip-head [] ds c h = cc
lstrip-head (d ∷ cs) ds c h = elim (Bool-cases (is_space d)) [
  | inl e ↦ lstrip-head cs ds c (rw e at h)
  | inr e ↦ cc (rw e at h)
]

-- What `lstrip` leaves out is a front.
lstrip-front : (cs : Text) → (ds : Text) × (cs ≡ ds ++ lstrip cs)
unfolding lstrip
lstrip-front [] = ([], refl)
lstrip-front (c ∷ cs) = elim (Bool-cases (is_space c)) [
  | inl e ↦ let (ds, p) = lstrip-front cs in rw e (c ∷ ds, ap (λ xs. c ∷ xs) p)
  | inr e ↦ rw e ([], refl)
]

-- A text that starts with no white space has no shorter start that does.
lstrip-start : (xs ys : Text) → lstrip (xs ++ ys) ≡ xs ++ ys → lstrip xs ≡ xs
unfolding lstrip
lstrip-start [] ys h = refl
lstrip-start (x ∷ xs) ys h = elim (Bool-cases (is_space x)) [
  | inl e ↦ ground (arith, lstrip-head (xs ++ ys) (xs ++ ys) x (rw e at h))
  | inr e ↦ rw e refl
]

lstrip-strip : (cs : Text) → lstrip (strip cs) ≡ strip cs
unfolding strip
lstrip-strip cs =
    let (ds, p) = lstrip-front (reverse (lstrip cs)) in
    let q : lstrip cs ≡ reverse (lstrip (reverse (lstrip cs))) ++ reverse ds =
      sym (reverse-reverse (lstrip cs))
      ∙ ap reverse p
      ∙ reverse-append ds (lstrip (reverse (lstrip cs))) in
    lstrip-start (reverse (lstrip (reverse (lstrip cs)))) (reverse ds)
      (ap lstrip (sym q) ∙ lstrip-lstrip cs ∙ q)

strip-strip : (cs : Text) → strip (strip cs) ≡ strip cs
unfolding strip
strip-strip cs =
    ap (λ xs. reverse (lstrip (reverse xs))) (lstrip-strip cs)
    ∙ ap (λ xs. reverse (lstrip xs)) (reverse-reverse (lstrip (reverse (lstrip cs))))
    ∙ ap reverse (lstrip-lstrip (reverse (lstrip cs)))

lower_char-lower_char : (c : ℕ) → lower_char (lower_char c) ≡ lower_char c
unfolding lower_char
lower_char-lower_char c = ground arith

is_space-lower_char : (c : ℕ) → is_space (lower_char c) ≡ is_space c
unfolding lower_char is_space
is_space-lower_char c = ground arith

lower-lower : (cs : Text) → lower (lower cs) ≡ lower cs
unfolding lower
lower-lower [] = refl
lower-lower (c ∷ cs) = rw (lower_char-lower_char c, lower-lower cs) refl

lstrip-lower : (cs : Text) → lstrip (lower cs) ≡ lower (lstrip cs)
unfolding lstrip lower
lstrip-lower [] = refl
lstrip-lower (c ∷ cs) = elim (Bool-cases (is_space c)) [
  | inl e ↦ rw (is_space-lower_char c, e) (lstrip-lower cs)
  | inr e ↦ rw (is_space-lower_char c, e) refl
]

reverse-lower : (cs : Text) → reverse (lower cs) ≡ lower (reverse cs)
unfolding lower
reverse-lower cs = sym (map-reverse_aux lower_char cs [])

strip-lower : (cs : Text) → strip (lower cs) ≡ lower (strip cs)
unfolding strip
strip-lower cs =
    ap (λ xs. reverse (lstrip (reverse xs))) (lstrip-lower cs)
    ∙ ap (λ xs. reverse (lstrip xs)) (reverse-lower (lstrip cs))
    ∙ ap reverse (lstrip-lower (reverse (lstrip cs)))
    ∙ reverse-lower (lstrip (reverse (lstrip cs)))

-- `email.strip().lower()`
abbrev pub normalized : Text → Text
normalized email = lower (strip email)

pub normalized-normalized : (email : Text) → normalized (normalized email) ≡ normalized email
normalized-normalized email =
    ap lower (strip-lower (strip email))
    ∙ lower-lower (strip (strip email))
    ∙ ap lower (strip-strip email)
