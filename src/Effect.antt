-- ===== src/Effect.antt =====
-- Python code over a mutable world: it returns or raises, and what it wrote stays written.
pub mod Keeps
use nova_act.Prelude.{◌≡◌, refl, ap, ◌⊎◌, inl, inr, Bool, true, false}
use nova_act.Errors.{Exn, Result, ok, err}

abbrev pub M : Type 0 → Type 0 → Type 0
M S A = S → Result A × S

module _ {S A : Type 0} where
  unfoldable pub pure : A → M S A
  pure a s = (ok a, s)

  unfoldable pub raise : Exn → M S A
  raise e s = (err e, s)

  unfoldable pub lift : Result A → M S A
  lift r s = (r, s)

  -- The rest of the code may look at the state as it is.
  unfoldable pub reading : (S → M S A) → M S A
  reading f s = f s s

  abbrev pub catching : (Exn → M S A) → Result A × S → Result A × S
  catching h (ok a, s) = (ok a, s)
  catching h (err e, s) = h e s

  -- `try: m` with one `except` clause that sees every exception.
  unfoldable pub try_except : M S A → (Exn → M S A) → M S A
  try_except m h s = catching h (m s)

module _ {S : Type 0} where
  unfoldable pub modify : (S → S) → M S Unit
  modify f s = (ok tt, f s)

  -- `if test: m`.
  unfoldable pub when : Bool → M S Unit → M S Unit
  when true m s = m s
  when false m s = (ok tt, s)

module _ {S A B : Type 0} where
  abbrev pub continue : (A → M S B) → Result A × S → Result B × S
  continue f (ok a, s) = f a s
  continue f (err e, s) = (err e, s)

  infixl 5 ◌>>=◌ ◌>>◌
  -- Opening this opens the other ways to build an effect too.
  unfoldable pub ◌>>=◌ : M S A → (A → M S B) → M S B
  unfolding pure raise lift reading modify when try_except
  ◌>>=◌ m f s = continue f (m s)

  abbrev pub ◌>>◌ : M S A → M S B → M S B
  m >> n = m >>= λ _. n

-- To split on what a call left, and keep the equation.
pub Out-cases :
    {S A : Type 0} (o : Result A × S)
    → ((a : A) × (s : S) × (o ≡ (ok a, s))) ⊎ ((e : Exn) × (s : S) × (o ≡ (err e, s)))
Out-cases (ok a, s) = inl (a, s, refl)
Out-cases (err e, s) = inr (e, s, refl)

-- Code that returns hands its value and its state to the rest.
pub bind-ok :
    {S A B : Type 0} (m : M S A) (f : A → M S B) (a : A) (s : S)
    → (m s).0 ≡ ok a
    → (m >>= f) s ≡ f a (m s).1
unfolding ◌>>=◌
bind-ok m f a s e = ap (λ r. continue f (r, (m s).1)) e
