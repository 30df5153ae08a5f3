-- ===== src/Fallible.antt =====
-- Chains of fallible Python code that changes nothing.
use nova_act.Prelude.{◌≡◌, refl, ap, List, [], ◌∷◌, if◌then◌else◌, arith}
use nova_act.Errors.{Exn, Result, ok, err, isinstance}
use nova_act.Errors.Classes.{ExnClass}

module _ {A B : Type 0} where
  -- The rest of a chain, after a step that returned or raised.
  abbrev pub proceed : (A → Result B) → Result A → Result B
  proceed rest (ok value) = rest value
  proceed rest (err raised) = err raised

  infixl 5 ◌>>=◌
  abbrev pub ◌>>=◌ : Result A → (A → Result B) → Result B
  first >>= rest = proceed rest first

  -- Where a chain returns, its first step did, and the rest returns from there.
  pub first_returned :
      (first : Result A) (rest : A → Result B) {result : B}
      → (first >>= rest) ≡ ok result
      → (value : A) × (first ≡ ok value) × (rest value ≡ ok result)
  first_returned (ok value) rest h = (value, refl, h)
  first_returned (err raised) rest h = absurd (ground arith)

  -- Two chains agree if what follows agrees on the value that the first step has.
  pub >>=-congr :
      (m : Result A) (f g : A → Result B) → ((a : A) → m ≡ ok a → f a ≡ g a) → (m >>= f) ≡ (m >>= g)
  >>=-congr (ok a) f g h = h a refl
  >>=-congr (err e) f g h = refl

  -- `[f(x) for x in xs]`.
  unfoldable pub map_results : (A → Result B) → List A → Result (List B)
  map_results f [] = ok []
  map_results f (x ∷ xs) =
      let rest = map_results f xs in
      elim (f x) [ err e ↦ err e | ok y ↦ elim rest [ err e ↦ err e | ok ys ↦ ok (y ∷ ys) ] ]

module _ {A : Type 0} where
  -- `try: r` with an `except` clause for one class, which raises anew.
  unfoldable pub except_as : ExnClass → (Exn → Exn) → Result A → Result A
  except_as cls raised (ok a) = ok a
  except_as cls raised (err e) = if isinstance e cls then err (raised e) else err e

  pub except_as-eq-ok :
      (cls : ExnClass) (raised : Exn → Exn) (r : Result A) {a : A}
      → except_as cls raised r ≡ ok a
      → r ≡ ok a
  unfolding except_as
  except_as-eq-ok cls raised (ok b) h = h
  except_as-eq-ok cls raised (err e) h = absurd (ground arith)

  abbrev value_or : A → Result A → A
  value_or default (ok a) = a
  value_or default (err e) = default

  pub ok-inj : {a b : A} → ok a ≡ ok b → a ≡ b
  ok-inj {a} e = ap (value_or a) e
