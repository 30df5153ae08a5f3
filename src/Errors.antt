-- ===== src/Errors.antt =====
-- Exceptions as values: src/nova_act/types/act_errors.py over the classes of src/nova_act/types/errors.py.
pub mod Classes
pub mod Hierarchy
use nova_act.Prelude.{
  ◌≡◌, refl, ℕ, zero, suc, String, ◌==◌, Bool, true, false, Option, none, some, [], ◌∷◌, ◌||◌,
  if◌then◌else◌,
}
use nova_act.Prelude.Text.{Text, text}
use nova_act.Metadata.{ActMetadata}
use Classes.{ExnClass, superclass, second_base, tag, own_message, base_exception}

-- A search along the base classes, the class itself first.
unfoldable pub walk : ℕ → ExnClass → (ExnClass → Bool) → Bool
unfolding superclass second_base
walk zero c found = found c
walk (suc fuel) c found =
    let up : Bool = elim (superclass c) [ none ↦ false | some d ↦ walk fuel d found ] in
    let also : Bool = elim (second_base c) [ none ↦ false | some d ↦ walk fuel d found ] in
    if found c then true else up || also

-- No class of the program has more than seven classes above it.
abbrev pub depth : ℕ
depth = 8

-- `issubclass(c, d)`.
unfoldable pub is_subclass : ExnClass → ExnClass → Bool
unfolding walk tag
is_subclass c d = walk depth c (λ x. tag x == tag d)

-- The attribute `_DEFAULT_MESSAGE` as a class inherits it.
unfoldable pub default_message : ℕ → ExnClass → Text
unfolding superclass own_message
default_message zero c = []
default_message (suc fuel) c =
    let up : Text = elim (superclass c) [ none ↦ [] | some d ↦ default_message fuel d ] in
    elim (own_message c) [ some s ↦ text s | none ↦ up ]

pub record Exn : Type 0 where
  pub cls : ExnClass
  pub message : Text
  pub metadata : Option ActMetadata

-- `isinstance(e, c)`.
unfoldable pub isinstance : Exn → ExnClass → Bool
isinstance e c = is_subclass e.cls c

-- An exception with a message and no more.
unfoldable pub plain : ExnClass → Text → Exn
plain c m = record { cls = c; message = m; metadata = none }

-- `ActError.__init__` without metadata: an empty message counts as a missing one.
unfoldable pub act_exn : ExnClass → Option Text → Exn
unfolding plain default_message
act_exn c none = plain c (default_message depth c)
act_exn c (some []) = plain c (default_message depth c)
act_exn c (some (x ∷ m)) = plain c (x ∷ m)

-- What a fallible piece of Python leaves: a value or an exception.
pub data Result (A : Type 0) : Type 0 where
  ok : A → Result A
  err : Exn → Result A

pub cls-act_exn : (c : ExnClass) (m : Option Text) → (act_exn c m).cls ≡ c
unfolding act_exn
cls-act_exn c none = refl
cls-act_exn c (some []) = refl
cls-act_exn c (some (x ∷ m)) = refl
