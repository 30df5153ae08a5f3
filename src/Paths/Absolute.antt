-- ===== src/Paths/Absolute.antt =====
-- Absolute paths: what `normpath` returns, and reading its text again.
use nova_act.Prelude.{
  ℕ, ◌==◌, ◌≡◌, refl, sym, ap, ◌∙◌, not, ◌⊎◌, inl, inr, true, false, List, [], ◌∷◌, All, arith,
  Bool-cases,
}
use mathlib.Core.Path.{subst, ap₂}
use nova_act.Prelude.Text.{Text, text, text_eq, starts_with}
use nova_act.Paths.{
  FilePath, split, join, slash, leading_slashes, path_text, is_void, drop_void, to_path, collapse,
  turn_over, norm_parts, normal_path,
}
use nova_act.Paths.Parts.{
  IsPart, All-split, split-join, drop_void-All, All-NoSlash, collapse-All, turn_over-All,
}

-- A path from the root whose every part names a file or a directory.
abbrev pub IsAbsolute : FilePath → Type 0
IsAbsolute p = (p.root ≡ 1 ⊎ p.root ≡ 2) × All IsPart p.parts

leading_slashes-cases :
    (s : Text) → leading_slashes (slash ∷ s) ≡ 1 ⊎ leading_slashes (slash ∷ s) ≡ 2
unfolding leading_slashes starts_with
leading_slashes-cases s = elim (Bool-cases (starts_with (slash ∷ s) (text "///"))) [
  | inl e ↦ inl (rw e refl)
  | inr n ↦ elim (Bool-cases (starts_with (slash ∷ s) (text "//"))) [
    | inl e ↦ inr (rw (n, e) refl)
    | inr m ↦ inl (rw (n, m) refl)
  ]
]

rooted_test : (n : ℕ) → n ≡ 1 ⊎ n ≡ 2 → not (n == 0) ≡ true
rooted_test n (inl e) = rw e refl
rooted_test n (inr e) = rw e refl

norm_parts-All : (s : Text) → All IsPart (norm_parts (slash ∷ s))
unfolding norm_parts
norm_parts-All s =
    subst (λ b. All IsPart (turn_over (collapse b (split (slash ∷ s)) []) []))
      (sym (rooted_test (leading_slashes (slash ∷ s)) (leading_slashes-cases s)))
      (turn_over-All (collapse true (split (slash ∷ s)) []) []
        (collapse-All (split (slash ∷ s)) [] (All-split (slash ∷ s)) tt) tt)

pub normal_path-IsAbsolute : (s : Text) → IsAbsolute (normal_path (slash ∷ s))
unfolding normal_path
normal_path-IsAbsolute s = (leading_slashes-cases s, norm_parts-All s)

-- A text that begins with no slash.
join-NoSlash : (ps : List Text) → All IsPart ps → starts_with (join ps) (text "/") ≡ false
unfolding join starts_with is_void text_eq
join-NoSlash [] a = refl
join-NoSlash ([] ∷ []) a = ground (arith, a.0.1)
join-NoSlash ((c ∷ p) ∷ []) a = ground (arith, a.0.0.0)
join-NoSlash ([] ∷ (q ∷ ps)) a = ground (arith, a.0.1)
join-NoSlash ((c ∷ p) ∷ (q ∷ ps)) a = ground (arith, a.0.0.0)

pub leading_slashes-one :
    (s : Text) → starts_with s (text "/") ≡ false → leading_slashes (slash ∷ s) ≡ 1
unfolding leading_slashes starts_with
leading_slashes-one [] h = refl
leading_slashes-one (c ∷ s) h = ground arith

leading_slashes-two :
    (s : Text) → starts_with s (text "/") ≡ false → leading_slashes (slash ∷ (slash ∷ s)) ≡ 2
unfolding leading_slashes starts_with
leading_slashes-two [] h = refl
leading_slashes-two (c ∷ s) h = ground arith

drop_void-split : (ps : List Text) → All IsPart ps → drop_void (split (join ps)) ≡ ps
unfolding drop_void split join is_void
drop_void-split [] a = refl
drop_void-split (p ∷ ps) a =
    ap drop_void (split-join p ps (All-NoSlash (p ∷ ps) a)) ∙ drop_void-All (p ∷ ps) a

to_path-rooted :
    (n : ℕ) (ps : List Text)
    → n ≡ 1 ⊎ n ≡ 2
    → All IsPart ps
    → to_path (path_text (record { root = n; parts = ps })) ≡ record { root = n; parts = ps }
unfolding to_path path_text drop_void split is_void text_eq
to_path-rooted n ps (inl e) a =
    subst
      (λ m. to_path (path_text (record { root = m; parts = ps })) ≡ record { root = m; parts = ps })
      (sym e)
      (ap₂ (λ m qs. record { root = m; parts = qs })
        (leading_slashes-one (join ps) (join-NoSlash ps a)) (drop_void-split ps a))
to_path-rooted n ps (inr e) a =
    subst
      (λ m. to_path (path_text (record { root = m; parts = ps })) ≡ record { root = m; parts = ps })
      (sym e)
      (ap₂ (λ m qs. record { root = m; parts = qs })
        (leading_slashes-two (join ps) (join-NoSlash ps a)) (drop_void-split ps a))

-- Reading the text of an absolute path gives the path.
pub to_path-path_text : (p : FilePath) → IsAbsolute p → to_path (path_text p) ≡ p
to_path-path_text p (e, a) = to_path-rooted p.root p.parts e a

pub path_text-slash : (p : FilePath) → IsAbsolute p → (s : Text) × (path_text p ≡ slash ∷ s)
unfolding path_text
path_text-slash p (inl e, a) = (join p.parts, rw e refl)
path_text-slash p (inr e, a) = (slash ∷ join p.parts, rw e refl)
