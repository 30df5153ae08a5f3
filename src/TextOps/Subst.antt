-- ===== src/TextOps/Subst.antt =====
-- What one pass of a substitution does to the characters of a text.
use nova_act.Prelude.{
  ℕ, zero, suc, ◌-◌, ◌≡◌, none, some, [], ◌∷◌, ◌++◌, All, All-append, Option-cases, inl, inr,
  Option, refl,
}
use nova_act.Prelude.Text.{Text}
use nova_act.TextOps.{sub_from}

module _ (matched : Text → Option (ℕ × Text)) (c : ℕ) (s : Text) where
  sub_from-kept :
      matched (c ∷ s) ≡ none → sub_from matched zero (c ∷ s) ≡ c ∷ sub_from matched zero s
  unfolding sub_from
  sub_from-kept e = rw (e, sub_from)

  sub_from-replaced :
      (n : ℕ) (new : Text)
      → matched (c ∷ s) ≡ some (n, new)
      → sub_from matched zero (c ∷ s) ≡ new ++ sub_from matched (n - 1) s
  unfolding sub_from
  sub_from-replaced n new e = rw (e, sub_from)

-- `Q` is what is known of the text that is left; it holds of every suffix.
module _ (matched : Text → Option (ℕ × Text)) (Q : Text → Type 0)
    (shrinks : (c : ℕ) (s : Text) → Q (c ∷ s) → Q s) where
  -- Every character of the result is a kept one or one of a replacement.
  pub sub_from-All :
      (P : ℕ → Type 0)
      → ((c : ℕ) (s : Text) → Q (c ∷ s) → matched (c ∷ s) ≡ none → P c)
      → ((s : Text) (n : ℕ) (new : Text) → matched s ≡ some (n, new) → All P new)
      → (skip : ℕ) (s : Text) → Q s
      → All P (sub_from matched skip s)
  unfolding sub_from
  sub_from-All P kept new skip [] q = tt
  sub_from-All P kept new (suc skip) (c ∷ s) q = sub_from-All P kept new skip s (shrinks c s q)
  sub_from-All P kept new zero (c ∷ s) q = elim (Option-cases (matched (c ∷ s))) [
    | inl e ↦
        rw (sub_from-kept matched c s e)
          (kept c s q e, sub_from-All P kept new zero s (shrinks c s q))
    | inr ((n, r), e) ↦ rw (sub_from-replaced matched c s n r e) (
        All-append P r (sub_from matched (n - 1) s) (new (c ∷ s) n r e)
          (sub_from-All P kept new (n - 1) s (shrinks c s q)))
  ]

-- An ESC may only end the text or stand before a line feed.
abbrev pub Ends : Text → Type 0
Ends [] = Unit
Ends (c ∷ s) = c ≡ 10

abbrev pub Tame : Text → Type 0
Tame [] = Unit
Tame (c ∷ s) = (c ≡ 27 → Ends s) × Tame s

abbrev NotEscape : ℕ → Type 0
NotEscape c = ¬ (c ≡ 27)

Tame-append : (s t : Text) → All NotEscape s → Tame t → Tame (s ++ t)
Tame-append [] t h k = k
Tame-append (c ∷ s) t h k = (λ e. absurd (h.0 e), Tame-append s t h.1 k)

module _ (matched : Text → Option (ℕ × Text)) (Q : Text → Type 0)
    (shrinks : (c : ℕ) (s : Text) → Q (c ∷ s) → Q s)
    (line_feed : (s : Text) → matched (10 ∷ s) ≡ none) where
  sub_from-Ends : (s : Text) → Ends s → Ends (sub_from matched zero s)
  unfolding sub_from
  sub_from-Ends [] h = tt
  sub_from-Ends (c ∷ s) h = rw (h, sub_from-kept matched 10 s (line_feed s)) refl

  -- No ESC of the result starts an escape sequence.
  pub sub_from-Tame :
      ((s : Text) → Q (27 ∷ s) → matched (27 ∷ s) ≡ none → Ends s)
      → ((s : Text) (n : ℕ) (new : Text) → matched s ≡ some (n, new) → All NotEscape new)
      → (skip : ℕ) (s : Text) → Q s
      → Tame (sub_from matched skip s)
  unfolding sub_from
  sub_from-Tame kept new skip [] q = tt
  sub_from-Tame kept new (suc skip) (c ∷ s) q = sub_from-Tame kept new skip s (shrinks c s q)
  sub_from-Tame kept new zero (c ∷ s) q = elim (Option-cases (matched (c ∷ s))) [
    | inl e ↦ rw (sub_from-kept matched c s e) (
      λ esc. sub_from-Ends s (kept s (rw esc at q) (rw esc at e)),
      sub_from-Tame kept new zero s (shrinks c s q),
    )
    | inr ((n, r), e) ↦ rw (sub_from-replaced matched c s n r e) (
        Tame-append r (sub_from matched (n - 1) s) (new (c ∷ s) n r e)
          (sub_from-Tame kept new (n - 1) s (shrinks c s q)))
  ]
