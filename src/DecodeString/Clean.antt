-- ===== src/DecodeString/Clean.antt =====
-- What the decoded texts cannot hold any more.
use nova_act.Prelude.{
  ℕ, zero, suc, ap, ◌≢◌, ◌≡◌, Option, none, some, [], ◌∷◌, All, arith, refl, get_elem?, ◌⊎◌, inl,
  inr,
}
use native.Mathlib.Decide.{ℕ_discrete}
use nova_act.Prelude.Text.{Text, text, starts_with}
use nova_act.TextOps.{sub, literal, replace}
use nova_act.TextOps.Subst.{sub_from-All, sub_from-Tame, Ends, Tame}
use nova_act.DecodeString.{safe_string, decoded, other_sequence, esc, bel}

other_sequence_kept : (s : Text) → other_sequence (27 ∷ s) ≡ none → Ends s
unfolding other_sequence
other_sequence_kept [] h = tt
other_sequence_kept (b ∷ s) h = ground arith

other_sequence_removes :
    (s : Text) (n : ℕ) (new : Text) → other_sequence s ≡ some (n, new) → new ≡ []
unfolding other_sequence
other_sequence_removes [] n new h = ground arith
other_sequence_removes (a ∷ []) n new h = ground arith
other_sequence_removes (a ∷ (b ∷ s)) n new h = ground arith

literal_new : (old new s : Text) (n : ℕ) (r : Text) → literal old new s ≡ some (n, r) → r ≡ new
unfolding literal
literal_new old new s n r h = ground arith

other_sequence_line_feed : (s : Text) → other_sequence (10 ∷ s) ≡ none
unfolding other_sequence
other_sequence_line_feed [] = refl
other_sequence_line_feed (b ∷ s) = refl

no_escape-Tame : (s : Text) → Tame (sub other_sequence s)
unfolding sub
no_escape-Tame s =
    sub_from-Tame other_sequence (λ _. Unit) (λ c s q. tt) other_sequence_line_feed
      (λ s q h. other_sequence_kept s h) (λ s n new h. rw (other_sequence_removes s n new h) tt)
      zero s tt

abbrev NotBel : ℕ → Type 0
NotBel c = ¬ (c ≡ 7)

-- A BEL is where the pattern of a single BEL matches.
not-bel : (c : ℕ) (s : Text) → literal (bel ∷ []) [] (c ∷ s) ≡ none → NotBel c
unfolding literal starts_with
not-bel c s h e = ground arith

replace-bel-NotBel : (s : Text) → All NotBel (replace (bel ∷ []) [] s)
unfolding replace sub
replace-bel-NotBel s =
    sub_from-All (literal (bel ∷ []) []) (λ _. Unit) (λ c s q. tt) NotBel (λ c s q h. not-bel c s h)
      (λ s n new h. rw (literal_new (bel ∷ []) [] s n new h) tt) zero s tt

replace-bel-Tame : (s : Text) → Tame s → Tame (replace (bel ∷ []) [] s)
unfolding replace sub literal starts_with
replace-bel-Tame s t =
    sub_from-Tame (literal (bel ∷ []) []) Tame (λ c s q. q.1) (λ s. refl) (λ s q h. q.0 refl)
      (λ s n new h. rw (literal_new (bel ∷ []) [] s n new h) tt) zero s t

replace_backslash-NotBel :
    (s : Text) → All NotBel s → All NotBel (replace (text "\\\\") (text "\\") s)
unfolding replace sub
replace_backslash-NotBel s t =
    sub_from-All (literal (text "\\\\") (text "\\")) (All NotBel) (λ c s q. q.1) NotBel
      (λ c s q h. q.0)
      (λ s n new h. rw (literal_new (text "\\\\") (text "\\") s n new h) (λ e. cc, tt)) zero s t

replace_backslash-Tame : (s : Text) → Tame s → Tame (replace (text "\\\\") (text "\\") s)
unfolding replace sub literal starts_with
replace_backslash-Tame s t =
    sub_from-Tame (literal (text "\\\\") (text "\\")) Tame (λ c s q. q.1) (λ s. refl)
      (λ s q h. q.0 refl)
      (λ s n new h. rw (literal_new (text "\\\\") (text "\\") s n new h) (λ e. cc, tt)) zero s t

-- What may stand at a place of a decoded text, and before what.
abbrev pub IsHarmless : ℕ → Option ℕ → Type 0
IsHarmless c next = (c ≢ bel) × ((c ≢ esc) ⊎ (next ≡ none) ⊎ (next ≡ some 10))

-- An ESC that is left ends the text or stands before a line feed.
Ends-get :
    (c : ℕ) (s : Text)
    → (c ≡ 27 → Ends s)
    → (c ≢ esc) ⊎ (get_elem? s 0 ≡ none) ⊎ (get_elem? s 0 ≡ some 10)
Ends-get c [] h = inr (inl refl)
Ends-get c (d ∷ s) h = elim (ℕ_discrete c 27) [ yes e ↦ inr (inr (ap some (h e))) | no n ↦ inl n ]

IsHarmless-get :
    (s : Text) (i : ℕ) (c : ℕ)
    → All NotBel s
    → Tame s
    → get_elem? s i ≡ some c
    → IsHarmless c (get_elem? s (suc i))
IsHarmless-get [] i c b t h = absurd (ground arith)
IsHarmless-get (d ∷ s) zero c b t h =
    let e : d ≡ c = ground arith in (rw (← e) b.0, rw (← e) (Ends-get d s t.0))
IsHarmless-get (d ∷ s) (suc i) c b t h = IsHarmless-get s i c b.1 t.1 h

-- Whatever the model writes, no character of a decoded text is a BEL, and one that is an ESC ends
-- the text or stands before a line feed.
pub safe_string-IsClean :
    (s : Text) (i c : ℕ)
    → get_elem? (safe_string s) i ≡ some c
    → IsHarmless c (get_elem? (safe_string s) (suc i))
unfolding safe_string
safe_string-IsClean s i c =
    let no_escape = sub other_sequence (decoded s) in
    let no_bel = replace (bel ∷ []) [] no_escape in
    IsHarmless-get (safe_string s) i c
      (replace_backslash-NotBel no_bel (replace-bel-NotBel no_escape))
      (replace_backslash-Tame no_bel (replace-bel-Tame no_escape (no_escape-Tame (decoded s))))
