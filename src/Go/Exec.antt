-- ===== src/Go/Exec.antt =====
-- Calls with effects, as actions on a state.
use goaxon.Prelude.{◌≡◌, refl, ap, ◌∙◌}
use goaxon.Go.Error.{GoError}
use goaxon.Go.Outcome.{Outcome, ok, err, panics, Exec}

abbrev pub pure : {S A : Type 0} → A → Exec S A
pure a s = (s, ok a)

abbrev pub fail : {S A : Type 0} → GoError → Exec S A
fail e s = (s, err e)

-- a call with no effect
abbrev pub lift : {S A : Type 0} → Outcome A → Exec S A
lift r s = (s, r)

-- The rest of the block after a call: an error or a panic ends it.
abbrev pub then_run : {S A B : Type 0} → S → Outcome A → (A → Exec S B) → S × Outcome B
then_run s (ok a) f = f a s
then_run s (err e) f = (s, err e)
then_run s (panics m) f = (s, panics m)

infixl 5 ◌>>=◌ ◌>>◌
abbrev pub ◌>>=◌ : {S A B : Type 0} → Exec S A → (A → Exec S B) → Exec S B
◌>>=◌ m f s = let (s', r) = m s in then_run s' r f

abbrev pub ◌>>◌ : {S B : Type 0} → Exec S Unit → Exec S B → Exec S B
◌>>◌ m k = m >>= λ _. k

abbrev pub map_err : {S A : Type 0} → (Outcome A → Outcome A) → Exec S A → Exec S A
map_err f m s = let (s', r) = m s in (s', f r)

-- A part `S` of the state `W`, such as a shared object that the program holds a pointer to.
pub record Part (W S : Type 0) : Type 0 where
  pub get : W → S
  pub put : S → W → W
  pub get_put : (s : S) (w : W) → get (put s w) ≡ s

-- The state itself.
abbrev pub whole : {S : Type 0} → Part S S
whole = record { get = λ s. s; put = λ s _. s; get_put = λ s w. refl }

-- A call that works on the part.
abbrev pub on_part : {W S A : Type 0} → Part W S → Exec S A → Exec W A
on_part p m w = let (s, r) = m (p.get w) in (p.put s w, r)

-- A block that ends with a nil error: each of its parts did.
pub bind-eq-ok :
    {S A B : Type 0} (m : Exec S A) (f : A → Exec S B) (s s' : S) (b : B)
    → (m >>= f) s ≡ (s', ok b)
    → (t : S) × (a : A) × (m s ≡ (t, ok a)) × (f a t ≡ (s', ok b))
bind-eq-ok {S} {A} {B} m f s s' b h = at (m s) refl h
  where
    at :
        (p : S × Outcome A)
        → m s ≡ p
        → then_run p.0 p.1 f ≡ (s', ok b)
        → (t : S) × (a : A) × (m s ≡ (t, ok a)) × (f a t ≡ (s', ok b))
    at (t, ok a) e q = (t, a, e, q)
    at (t, err x) e q = absurd (cc (ap (λ p. p.1) q))
    at (t, panics x) e q = absurd (cc (ap (λ p. p.1) q))

-- What each part of a block leaves alone, the block leaves alone.
pub bind_keeps {ℓ} :
    {S A B : Type 0} {X : Type ℓ} (view : S → X) (m : Exec S A) (f : A → Exec S B) (s : S)
    → view (m s).0 ≡ view s
    → ((a : A) (t : S) → view (f a t).0 ≡ view t)
    → view ((m >>= f) s).0 ≡ view s
bind_keeps {S} {A} {B} view m f s h k = at (m s) h
  where
    at : (p : S × Outcome A) → view p.0 ≡ view s → view (then_run p.0 p.1 f).0 ≡ view s
    at (t, ok a) e = k a t ∙ e
    at (t, err x) e = e
    at (t, panics x) e = e
