-- ===== src/PathValidator/Directories.antt =====
-- Patterns that end in a star: the paths they allow.
use nova_act.Prelude.{
  and_parts, ◌==◌, ◌≡◌, refl, sym, ap, ◌∙◌, ◌↔◌, true, false, List, [], ◌∷◌, ◌++◌, All, All-append,
  arith,
}
use nova_act.Prelude.Text.{Text, text, text_eq, starts_with, text_eq→≡, text_eq_refl}
use mathlib.Core.Path.{ap₂}
use mathlib.Core.List.{append_assoc}
use nova_act.Paths.{
  FilePath, to_path, path_text, join, split, slash, is_void, drop_void, has_prefix, is_relative_to,
}
use nova_act.Paths.Parts.{NoSlash, IsPart, All-NoSlash, split-join}
use nova_act.Paths.Absolute.{leading_slashes-one}
use nova_act.PathValidator.{star, drop_last, ends_in_star, is_path_allowed}

drop_last-append : (s : Text) → drop_last (s ++ star) ≡ s
unfolding drop_last
drop_last-append [] = refl
drop_last-append (c ∷ []) = refl
drop_last-append (c ∷ (d ∷ s)) = ap (λ t. c ∷ t) (drop_last-append (d ∷ s))

ends_in_star-append : (s : Text) → ends_in_star (s ++ star) ≡ true
ends_in_star-append [] = refl
ends_in_star-append (c ∷ []) = refl
ends_in_star-append (c ∷ (d ∷ s)) = ends_in_star-append (d ∷ s)

-- The last part can be joined as a text of its own.
join-append :
    (ds : List Text) (x y : Text) → join (ds ++ ((x ++ y) ∷ [])) ≡ join (ds ++ (x ∷ [])) ++ y
unfolding join
join-append [] x y = refl
join-append (d ∷ []) x y = sym (append_assoc d (slash ∷ x) y)
join-append (d ∷ (e ∷ ds)) x y =
    ap (λ t. d ++ (slash ∷ t)) (join-append (e ∷ ds) x y)
    ∙ sym (append_assoc d (slash ∷ join ((e ∷ ds) ++ (x ∷ []))) y)

drop_void-append : (ds qs : List Text) → All IsPart ds → drop_void (ds ++ qs) ≡ ds ++ drop_void qs
unfolding drop_void
drop_void-append [] qs a = refl
drop_void-append (d ∷ ds) qs a = ground (arith, drop_void-append ds qs a.1)

-- A pattern from the root: its directories, then a name that a star follows.
abbrev pub star_pattern : List Text → Text → FilePath
star_pattern ds x = record { root = 1; parts = ds ++ ((x ++ star) ∷ []) }

has_prefix-append : (ds rest : List Text) → has_prefix (ds ++ rest) ds ≡ true
unfolding has_prefix
has_prefix-append [] rest = refl
has_prefix-append (d ∷ ds) rest = ground (arith, text_eq_refl d, has_prefix-append ds rest)

has_prefix-split :
    (ps ds : List Text) → has_prefix ps ds ≡ true → (rest : List Text) × (ps ≡ ds ++ rest)
unfolding has_prefix
has_prefix-split ps [] h = (ps, refl)
has_prefix-split [] (d ∷ ds) h = absurd (ground (arith, h))
has_prefix-split (p ∷ ps) (d ∷ ds) h =
    let parts = and_parts (text_eq p d) (has_prefix ps ds) h in
    let rest = has_prefix-split ps ds parts.1 in
    (rest.0, ap₂ (λ q l. q ∷ l) (text_eq→≡ p d parts.0) rest.1)

starts_with-append : (d : Text) → IsPart d → (s : Text) → starts_with (d ++ s) (text "/") ≡ false
unfolding starts_with is_void text_eq
starts_with-append [] a s = absurd (ground (arith, a.1))
starts_with-append (c ∷ d) a s = ground (arith, a.0.0)

join-starts_with :
    (ds : List Text) (x : Text)
    → All IsPart ds
    → NoSlash x
    → starts_with (join (ds ++ (x ∷ []))) (text "/") ≡ false
unfolding join starts_with
join-starts_with [] [] all h = refl
join-starts_with [] (c ∷ x) all h = ground (arith, h.0)
join-starts_with (d ∷ []) x all h = starts_with-append d all.0 (slash ∷ x)
join-starts_with (d ∷ (e ∷ ds)) x all h =
    starts_with-append d all.0 (slash ∷ join ((e ∷ ds) ++ (x ∷ [])))

split-join-append :
    (ds : List Text) (x : Text)
    → All IsPart ds
    → NoSlash x
    → split (join (ds ++ (x ∷ []))) ≡ ds ++ (x ∷ [])
split-join-append [] x all h = split-join x [] (h, tt)
split-join-append (d ∷ ds) x all h =
    split-join d (ds ++ (x ∷ []))
      (all.0.0, All-append NoSlash ds (x ∷ []) (All-NoSlash ds all.1) (h, tt))

-- The directory that is left when the star is dropped.
star_directory :
    (ds : List Text) (x : Text)
    → All IsPart ds
    → NoSlash x
    → to_path (slash ∷ join (ds ++ (x ∷ [])))
      ≡ record { root = 1; parts = ds ++ drop_void (x ∷ []) }
unfolding to_path split drop_void is_void text_eq
star_directory ds x all h =
    ap₂ (λ m qs. record { root = m; parts = qs })
      (leading_slashes-one (join (ds ++ (x ∷ []))) (join-starts_with ds x all h))
      (ap drop_void (split-join-append ds x all h) ∙ drop_void-append ds (x ∷ []) all)

star_text :
    (ds : List Text) (x : Text)
    → path_text (star_pattern ds x) ≡ (slash ∷ join (ds ++ (x ∷ []))) ++ star
unfolding path_text
star_text ds x = ap (λ s. slash ∷ s) (join-append ds x star)

is_path_allowed-star :
    (p : FilePath) (s : Text) → is_path_allowed p (s ++ star) ≡ is_relative_to p (to_path s)
unfolding is_path_allowed
is_path_allowed-star p s = rw (ends_in_star-append s, drop_last-append s) refl

is_relative_to_iff :
    (p q : FilePath)
    → (is_relative_to p q ≡ true)
      ↔ ((p.root ≡ q.root) × (rest : List Text) × (p.parts ≡ q.parts ++ rest))
unfolding is_relative_to
is_relative_to_iff p q = (
  λ h.
      let parts = and_parts (p.root == q.root) (has_prefix p.parts q.parts) h in
      let rest = has_prefix-split p.parts q.parts parts.1 in
      (ground (arith, parts.0), rest.0, rest.1),
  λ h. rw (h.0, h.2, has_prefix-append q.parts h.1) (ground arith),
)

-- A pattern from the root that ends in a star allows exactly the paths that have its directories,
-- and the name before the star as one more directory, as their first parts; a name that is empty
-- or a dot adds no directory, so `/tmp/.*` allows every file of `/tmp`.
pub star_pattern-allows :
    (p : FilePath) (ds : List Text) (x : Text)
    → All IsPart ds
    → NoSlash x
    → (is_path_allowed p (path_text (star_pattern ds x)) ≡ true)
      ↔ ((p.root ≡ 1) × (rest : List Text) × (p.parts ≡ (ds ++ drop_void (x ∷ [])) ++ rest))
star_pattern-allows p ds x all h =
    rw
      (
        star_text ds x,
        is_path_allowed-star p (slash ∷ join (ds ++ (x ∷ []))),
        star_directory ds x all h,
      )
      (is_relative_to_iff p (record { root = 1; parts = ds ++ drop_void (x ∷ []) }))
