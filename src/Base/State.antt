-- ===== src/Base/State.antt =====
-- Go code that changes a state of type `W` and returns `(A, error)`: the result and the new state.
use mathlib.Core.Path.{◌≡◌, refl, ap}
use mathlib.Core.Logic.{◌≢◌}
use wani.Base.Results.{Result, ok, err, panic, wrap, err-injective}

abbrev pub State : Type 0 → Type 0 → Type 0 → Type 0
State W E A = W → Result E A × W

module _ {W E A : Type 0} where
  abbrev pub return : A → State W E A
  return a w = (ok a, w)

  abbrev pub fail : E → State W E A
  fail e w = (err e, w)

  abbrev pub lift : Result E A → State W E A
  lift r w = (r, w)

module _ {W E : Type 0} where
  abbrev pub modify : (W → W) → State W E (Unit {0})
  modify f w = (ok tt, f w)

  abbrev pub bind : {A B : Type 0} → Result E A × W → (A → State W E B) → Result E B × W
  bind (ok a, w) f = f a w
  bind (err e, w) f = (err e, w)
  bind (panic, w) f = (panic, w)

  infixl 5 ◌>>=◌ ◌>>◌
  abbrev pub ◌>>=◌ : {A B : Type 0} → State W E A → (A → State W E B) → State W E B
  ◌>>=◌ m f w = bind (m w) f

  abbrev pub ◌>>◌ : {B : Type 0} → State W E (Unit {0}) → State W E B → State W E B
  m >> k = m >>= λ _. k

-- `fmt.Errorf("...: %w", err)`.
abbrev pub within : {W E F A : Type 0} → (E → F) → State W E A → State W F A
within f m w = let (r, w') = m w in (wrap f r, w')

-- Inversion of a chain that succeeds.
pub bind-ok :
    {W E : Type 0} {B : Type 0} (m : Result E (Unit {0}) × W) (f : Unit {0} → State W E B) {b : B}
    (w : W)
    → bind m f ≡ (ok b, w)
    → (u : W) × (m ≡ (ok tt, u)) × (f tt u ≡ (ok b, w))
bind-ok (ok tt, u) f w h = (u, refl, h)
bind-ok (err e, u) f w h = cc
bind-ok (panic, u) f w h = cc

-- A chain that fails with `x` fails so in its first step or, if that succeeds, in what follows.
pub bind-ne_err :
    {W E : Type 0} {A B : Type 0} (m : Result E A × W) (f : A → State W E B) (x : E)
    → m.0 ≢ err x
    → ((a : A) (w : W) → m ≡ (ok a, w) → (f a w).0 ≢ err x)
    → (bind m f).0 ≢ err x
bind-ne_err (ok a, w) f x first later = later a w refl
bind-ne_err (err e, w) f x first later = λ h. first (ap err (err-injective h))
bind-ne_err (panic, w) f x first later = λ h. cc
