-- ===== src/Cli/Browser/SessionId/Safe.antt =====
-- The names that are let through.
use nova_act.Prelude.{
  ℕ, ◌≡◌, refl, sym, ap, Bool, true, false, ◌&&◌, ◌||◌, [], ◌∷◌, ◌++◌, All, ◌⊎◌, inl, inr, arith,
  if◌then◌else◌,
}
use mathlib.Core.Path.{subst}
use nova_act.Prelude.Text.{Text, text_eq, text_eq→≡}
use nova_act.Errors.{ok}
use nova_act.PathValidator.{is_blank, has_char, has_dot_dot}
use nova_act.Cli.Browser.SessionId.{is_id_char, matches_id, bad_id, validate_session_id}

abbrev IsName : Text → Type 0
IsName s = All (λ c. is_id_char c ≡ true) s

-- A name, or a name with a line feed behind it.
abbrev pub IsNearlyName : Text → Type 0
IsNearlyName id = IsName id ⊎ ((s : Text) × IsName s × (id ≡ s ++ (10 ∷ [])))

cons-IsNearlyName :
    (c : ℕ) (id : Text) → is_id_char c ≡ true → IsNearlyName id → IsNearlyName (c ∷ id)
cons-IsNearlyName c id h (inl name) = inl (h, name)
cons-IsNearlyName c id h (inr (s, name, e)) = inr (c ∷ s, (h, name), ap (λ t. c ∷ t) e)

split :
    (a b c d : Bool)
    → (a && (b || (c || d))) ≡ true
    → (a ≡ true) × ((b ≡ true) ⊎ ((c ≡ true) ⊎ (d ≡ true)))
split true true c d h = (refl, inl refl)
split true false true d h = (refl, inr (inl refl))
split true false false d h = (refl, inr (inr h))
split false b c d h = absurd (ground (arith, h))

matches_id-IsNearlyName : (id : Text) → matches_id id ≡ true → IsNearlyName id
unfolding matches_id
matches_id-IsNearlyName [] h = inl tt
matches_id-IsNearlyName (c ∷ s) h =
    let rest = matches_id-IsNearlyName s in
    let (char, ends) = split (is_id_char c) (text_eq s []) (text_eq s (10 ∷ [])) (matches_id s) h in
    elim ends [
      | inl e ↦ inl (char, subst IsName (sym (text_eq→≡ s [] e)) tt)
      | inr (inl e) ↦ inr (c ∷ [], (char, tt), ap (λ t. c ∷ t) (text_eq→≡ s (10 ∷ []) e))
      | inr (inr m) ↦ cons-IsNearlyName c s char (rest m)
    ]

decided :
    (blank nul dots slash back name : Bool) (e f g h : Text)
    → (if blank
        then bad_id e
        else if nul
        then bad_id f
        else if dots || (slash || back)
        then bad_id g
        else if name
        then ok tt
        else bad_id h)
      ≡ ok tt
    → (dots ≡ false) × (name ≡ true)
decided blank nul dots slash back name e f g h k = ground (arith, k)

-- A session id that is accepted holds no "..", and only letters, digits, dots, underscores and
-- hyphens, save that a line feed may stand at its end.
pub validate_session_id-IsNearlyName :
    (id : Text) → validate_session_id id ≡ ok tt → (has_dot_dot id ≡ false) × IsNearlyName id
unfolding validate_session_id
validate_session_id-IsNearlyName id h =
    let (dots, name) =
      decided (is_blank id) (has_char 0 id) (has_dot_dot id) (has_char b'/' id) (has_char 92 id)
        (matches_id id) _ _ _ _ h in
    (dots, matches_id-IsNearlyName id name)
