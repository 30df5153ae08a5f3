-- ===== src/Effect/Keeps.antt =====
-- Properties of the state that code over it keeps, whether it returns or raises, and of what it
-- returns.
use nova_act.Prelude.{◌≡◌, sym, Bool, true, false, arith, if◌then◌else◌}
use mathlib.Core.Path.{subst}
use nova_act.Errors.{Exn, Result, ok, err}
use nova_act.Effect.{M, ◌>>=◌, pure, raise, lift, continue}

-- What is returned, if anything is.
abbrev pub Returns : {A : Type 0} → (A → Type 0) → Result A → Type 0
Returns Q (ok a) = Q a
Returns Q (err e) = Unit

abbrev pub Any : {A : Type 0} → A → Type 0
Any a = Unit

-- From a state with the property the code ends in one, and what it returns fits.
pub record Keeps {S A : Type 0} (P : S → Type 0) (Q : A → Type 0) (m : M S A) : Type 0 where
  pub at : (s : S) → P s → P (m s).1 × Returns Q (m s).0

pub returned_fits : {A : Type 0} (r : Result A) → Returns Any r
returned_fits (ok a) = tt
returned_fits (err e) = tt

module _ {S A : Type 0} {P : S → Type 0} where
  pub Keeps-pure : {Q : A → Type 0} (a : A) → Q a → Keeps P Q (pure a)
  unfolding pure
  Keeps-pure a q = record { at = λ s p. (p, q) }

  pub Keeps-raise : {Q : A → Type 0} (e : Exn) → Keeps P Q (raise e)
  unfolding raise
  Keeps-raise e = record { at = λ s p. (p, tt) }

  pub Keeps-lift : (r : Result A) → Keeps P Any (lift r)
  unfolding lift
  Keeps-lift (ok a) = record { at = λ s p. (p, tt) }
  Keeps-lift (err e) = record { at = λ s p. (p, tt) }

  pub Keeps-if :
      {Q : A → Type 0} (b : Bool) (m n : M S A)
      → Keeps P Q m
      → Keeps P Q n
      → Keeps P Q (if b then m else n)
  Keeps-if true m n h k = h
  Keeps-if false m n h k = k

  -- Code that only reads keeps everything.
  pub Keeps-same : (m : M S A) → ((s : S) → (m s).1 ≡ s) → Keeps P Any m
  Keeps-same m same = record { at = λ s p. (subst P (sym (same s)) p, returned_fits (m s).0) }

module _ {S A B : Type 0} {P : S → Type 0} where
  continue-Keeps :
      {Q : A → Type 0} {R : B → Type 0} (f : A → M S B)
      → ((a : A) → Q a → Keeps P R (f a))
      → (out : Result A × S) → P out.1 × Returns Q out.0
      → P (continue f out).1 × Returns R (continue f out).0
  continue-Keeps f h (ok a, s) k = (h a k.1).at s k.0
  continue-Keeps f h (err e, s) k = (k.0, tt)

  pub Keeps-bind :
      {Q : A → Type 0} {R : B → Type 0} (m : M S A) (f : A → M S B)
      → Keeps P Q m
      → ((a : A) → Q a → Keeps P R (f a))
      → Keeps P R (m >>= f)
  unfolding ◌>>=◌
  Keeps-bind m f k h = record { at = λ s p. continue-Keeps f h (m s) (k.at s p) }

  -- The value of the first part does not matter.
  pub Keeps-then :
      {R : B → Type 0} (m : M S A) (f : A → M S B)
      → Keeps P Any m
      → ((a : A) → Keeps P R (f a))
      → Keeps P R (m >>= f)
  Keeps-then m f k h = Keeps-bind m f k (λ a _. h a)

pub ruleset keeps_rules = (Keeps-pure, Keeps-raise, Keeps-lift, Keeps-if, Keeps-then)

-- Where the code returns, the state it leaves has the property.
abbrev pub OnReturn : {S A : Type 0} → (S → Type 0) → Result A × S → Type 0
OnReturn P (ok a, s) = P s
OnReturn P (err e, s) = Unit

module _ {S A : Type 0} where
  pub on_return : (P : S → Type 0) (out : Result A × S) → P out.1 → OnReturn P out
  on_return P (ok a, s) h = h
  on_return P (err e, s) h = tt

  pub OnReturn-ok :
      (P : S → Type 0) (out : Result A × S) (a : A) → OnReturn P out → out.0 ≡ ok a → P out.1
  OnReturn-ok P (ok b, s) a h e = h
  OnReturn-ok P (err x, s) a h e = absurd (ground (arith, e))

module _ {S A B : Type 0} where
  continue-OnReturn :
      (P : S → Type 0) (f : A → M S B)
      → ((a : A) (s : S) → OnReturn P (f a s))
      → (out : Result A × S) → OnReturn P (continue f out)
  continue-OnReturn P f h (ok a, s) = h a s
  continue-OnReturn P f h (err e, s) = tt

  -- Whatever comes first, if all that may follow ends in the property.
  pub bind-OnReturn :
      (P : S → Type 0) (m : M S A) (f : A → M S B)
      → ((a : A) (s : S) → OnReturn P (f a s))
      → (s : S) → OnReturn P ((m >>= f) s)
  unfolding ◌>>=◌
  bind-OnReturn P m f h s = continue-OnReturn P f h (m s)
