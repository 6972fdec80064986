-- ===== src/Prelude/Results.antt =====
-- Python exceptions as values: a pure computation returns a `Result`, one that calls a service
-- passes the state of the services on, which stays changed after a raise.
use mathlib.Core.Bool.{Bool, true, false}
use mathlib.Core.Option.{Option, none, some}
use mathlib.Core.Path.{◌≡◌, refl, ap, ◌∙◌}
use knowledge_graph_mvp.Prelude.Tests.{if◌then◌else◌}

pub data Result {ℓ κ} (E : Type ℓ) (A : Type κ) : Type (ℓ ⊔ κ) where
  ok : A → Result E A
  err : E → Result E A

-- `if test: raise`
abbrev pub raise_if {ℓ} : {E : Type ℓ} → Bool → E → Result E (Unit {0})
raise_if true e = err e
raise_if false e = ok tt

abbrev pub and_then {ℓ κ μ} :
    {E : Type ℓ} {A : Type κ} {B : Type μ} → Result E A → (A → Result E B) → Result E B
and_then (ok a) f = f a
and_then (err e) f = err e

abbrev pub Exec : Type 0 → Type 0 → Type 0 → Type 0
Exec W E A = W → Result E A × W

module _ {W E A : Type 0} where
  unfoldable pub pure : A → Exec W E A
  pure a w = (ok a, w)

  unfoldable pub raise : E → Exec W E A
  raise e w = (err e, w)

  unfoldable pub lift : Result E A → Exec W E A
  lift r w = (r, w)

  -- A call of a service; `none` is any exception of its client, turned into `e`.
  unfoldable pub call : E → (W → Option A × W) → Exec W E A
  call e f w = let (o, w') = f w in elim o [ none ↦ (err e, w') | some a ↦ (ok a, w') ]

infixl 5 ◌>>=◌ ◌>>◌
unfoldable pub ◌>>=◌ : {W E A B : Type 0} → Exec W E A → (A → Exec W E B) → Exec W E B
◌>>=◌ m f w = let (r, w') = m w in elim r [ ok a ↦ f a w' | err e ↦ (err e, w') ]

abbrev pub ◌>>◌ : {W E A B : Type 0} → Exec W E A → Exec W E B → Exec W E B
m >> k = m >>= λ _. k

module _ {W E A B : Type 0} where
  -- A block that returned went through its first step.
  pub >>=-ok :
      (m : Exec W E A) (f : A → Exec W E B) (w : W) (b : B) (w'' : W)
      → (m >>= f) w ≡ (ok b, w'')
      → (a : A) × (w' : W) × (m w ≡ (ok a, w')) × (f a w' ≡ (ok b, w''))
  unfolding ◌>>=◌
  >>=-ok m f w b w'' h = split (m w) refl h
    where
      next : Result E A × W → Result E B × W
      next p = let (r, w') = p in elim r [ ok a ↦ f a w' | err e ↦ (err e, w') ]

      split :
          (p : Result E A × W)
          → m w ≡ p
          → next p ≡ (ok b, w'')
          → (a : A) × (w' : W) × (m w ≡ (ok a, w')) × (f a w' ≡ (ok b, w''))
      split (ok a, w') e k = (a, w', e, k)
      split (err e', w') e k = cc

module _ {W E A : Type 0} where
  pub call-ok :
      (e : E) (f : W → Option A × W) (w : W) (a : A) (w' : W)
      → call e f w ≡ (ok a, w')
      → f w ≡ (some a, w')
  unfolding call
  call-ok e f w a w' h = split (f w) refl h
    where
      after : Option A × W → Result E A × W
      after p = let (o, v) = p in elim o [ none ↦ (err e, v) | some b ↦ (ok b, v) ]

      split : (p : Option A × W) → f w ≡ p → after p ≡ (ok a, w') → f w ≡ (some a, w')
      split (none, v) q k = cc
      split (some b, v) q k = q ∙ cc

  pub lift-ok :
      (r : Result E A) (w : W) (a : A) (w' : W)
      → lift {W = W} r w ≡ (ok a, w')
      → (r ≡ ok a) × (w ≡ w')
  unfolding lift
  lift-ok r w a w' h = (ap (λ p. p.0) h, ap (λ p. p.1) h)

module _ {W E A : Type 0} where
  pub pure-ok : (a b : A) (w w' : W) → pure {E = E} a w ≡ (ok b, w') → (a ≡ b) × (w ≡ w')
  unfolding pure
  pure-ok a b w w' h = (cc, ap (λ p. p.1) h)

pub raise_if-ok {ℓ} :
    {E : Type ℓ} (b : Bool) (e : E) (u : Unit {0}) → raise_if b e ≡ ok u → b ≡ false
raise_if-ok true e u h = cc
raise_if-ok false e u h = refl

pub and_then-ok {ℓ κ μ} :
    {E : Type ℓ} {A : Type κ} {B : Type μ} (m : Result E A) (f : A → Result E B) (b : B)
    → and_then m f ≡ ok b
    → (a : A) × (m ≡ ok a) × (f a ≡ ok b)
and_then-ok (ok a) f b h = (a, refl, h)
and_then-ok (err e) f b h = cc

-- The same forwards: a block goes on from a step that returned.
module _ {W E A B : Type 0} where
  pub call-bind :
      (e : E) (f : W → Option A × W) (k : A → Exec W E B) (w w' : W) (a : A)
      → f w ≡ (some a, w')
      → (call e f >>= k) w ≡ k a w'
  unfolding ◌>>=◌ call
  call-bind e f k w w' a h = ap (λ p. (call e (λ _. p) >>= k) w) h

  pub lift-bind :
      (r : Result E A) (k : A → Exec W E B) (w : W) (a : A) → r ≡ ok a → (lift r >>= k) w ≡ k a w
  unfolding ◌>>=◌ lift
  lift-bind r k w a h = rw h refl

-- An early return of `none`, and a step that goes on from a value only.
abbrev pub given {ℓ κ} : {A : Type ℓ} {B : Type κ} → Option A → (A → Option B) → Option B
given none f = none
given (some a) f = f a

pub given-some {ℓ κ} :
    {A : Type ℓ} {B : Type κ} (o : Option A) (f : A → Option B) (b : B)
    → given o f ≡ some b
    → (a : A) × (o ≡ some a) × (f a ≡ some b)
given-some none f b h = cc
given-some (some a) f b h = (a, refl, h)

pub unless-some {ℓ} :
    {A : Type ℓ} (test : Bool) (o : Option A) (a : A)
    → if◌then◌else◌ test none o ≡ some a
    → (test ≡ false) × (o ≡ some a)
unless-some true o a h = cc
unless-some false o a h = (refl, h)
