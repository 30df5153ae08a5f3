-- ===== src/Metadata/Filename.antt =====
-- The prompt's part of a trajectory file's name has no character that a file name may not have.
use nova_act.Prelude.{
  ℕ, zero, suc, ◌≡◌, refl, ◌≤◌, Bool, true, false, [], ◌∷◌, map, arith, length, All, All-append,
  Bool-cases, inl, inr, ◌==◌, if◌then◌else◌,
}
use mathlib.Core.List.{reverse, reverse-cons}
use nova_act.Prelude.Text.{Text}
use nova_act.Metadata.{
  is_unsafe, replace_unsafe, underscore, strip_left, strip, take, safe_filename,
}

abbrev pub IsSafe : Text → Type 0
IsSafe s = All (λ c. is_unsafe c ≡ false) s

replace-IsSafe : (s : Text) → IsSafe (map replace_unsafe s)
replace-IsSafe [] = tt
replace-IsSafe (c ∷ s) = (safe_char (is_unsafe c) c refl, replace-IsSafe s)
  where
    safe_char :
        (b : Bool) (d : ℕ) → is_unsafe d ≡ b → is_unsafe (if b then underscore else d) ≡ false
    safe_char true d h = unfold is_unsafe in refl
    safe_char false d h = h

strip_left-IsSafe : (s : Text) → IsSafe s → IsSafe (strip_left s)
unfolding strip_left
strip_left-IsSafe [] h = tt
strip_left-IsSafe (c ∷ s) h = elim (Bool-cases (c == underscore)) [
  | inl e ↦ rw e (strip_left-IsSafe s h.1)
  | inr e ↦ rw e h
]

reverse-IsSafe : (s : Text) → IsSafe s → IsSafe (reverse s)
reverse-IsSafe [] h = tt
reverse-IsSafe (c ∷ s) h =
    rw reverse-cons
      (All-append (λ d. is_unsafe d ≡ false) (reverse s) (c ∷ []) (reverse-IsSafe s h.1) (h.0, tt))

take-IsSafe : (n : ℕ) (s : Text) → IsSafe s → IsSafe (take n s)
unfolding take
take-IsSafe zero s h = tt
take-IsSafe (suc n) [] h = tt
take-IsSafe (suc n) (c ∷ s) h = (h.0, take-IsSafe n s h.1)

length-take : (n : ℕ) (s : Text) → length (take n s) ≤ n
unfolding take
length-take zero s = omega arith
length-take (suc n) [] = omega arith
length-take (suc n) (c ∷ s) = omega (arith, length-take n s)

-- The part is at most as long as asked, and no character of it is unsafe: no separator of paths,
-- no control character, no white space.
safe_filename-IsSafe :
    (s : Text) (max_length : ℕ)
    → IsSafe (safe_filename s max_length) × (length (safe_filename s max_length) ≤ max_length)
unfolding safe_filename strip
safe_filename-IsSafe s n = (
  take-IsSafe n _ (
      reverse-IsSafe _
        (strip_left-IsSafe _ (reverse-IsSafe _ (strip_left-IsSafe _ (replace-IsSafe s))))),
  length-take n _,
)
