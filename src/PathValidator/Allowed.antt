-- ===== src/PathValidator/Allowed.antt =====
-- What the path validator lets through.
use nova_act.Prelude.{
  ◌⊎◌, ◌≡◌, refl, sym, ap, ◌∙◌, Bool, true, false, List, [], ◌∷◌, ◌++◌, any, arith, Bool-cases, inl,
  inr, if◌then◌else◌, ◌==◌,
}
use mathlib.Core.List.{Memᴰ}
use mathlib.Core.List.Memᴰ.{head, tail}
use mathlib.Core.Path.{subst}
use nova_act.Prelude.Text.{Text, text, text_eq, one_of, starts_with}
use nova_act.Errors.{Result, ok, err}
use nova_act.Paths.{
  FilePath, to_path, path_text, is_void, abspath, normpath, join_cwd, normal_path, slash,
}
use nova_act.Paths.Absolute.{IsAbsolute, normal_path-IsAbsolute, to_path-path_text, path_text-slash}
use nova_act.PathValidator.{
  System, star, is_path_allowed, normalize_path, allowed_by, some_allows, check_candidate,
  validate_file_access_path, has_char,
}

-- Both ways to put the current directory before a relative path give an absolute one.
with_cwd-slash :
    (c s : Text)
    → (t : Text) × ((if text_eq (slash ∷ c) (text "/")
          then slash ∷ s
          else (slash ∷ c) ++ (slash ∷ s))
        ≡ slash ∷ t)
with_cwd-slash c s = elim (Bool-cases (text_eq (slash ∷ c) (text "/"))) [
  | inl e ↦ (s, rw e refl)
  | inr n ↦ (c ++ (slash ∷ s), rw n refl)
]

join_cwd-slash : (c s : Text) → (t : Text) × (join_cwd (slash ∷ c) s ≡ slash ∷ t)
unfolding join_cwd starts_with
join_cwd-slash c [] = with_cwd-slash c []
join_cwd-slash c (d ∷ s) = elim (Bool-cases (d == slash)) [
  | inl e ↦ (s, ground (arith, e))
  | inr n ↦ rw n (with_cwd-slash c (d ∷ s))
]

abspath-slash : (c s : Text) → (t : Text) × (abspath (slash ∷ c) s ≡ slash ∷ t)
unfolding abspath normpath
abspath-slash c s =
    let joined = join_cwd-slash c s in
    let normal =
      path_text-slash (normal_path (slash ∷ joined.0)) (normal_path-IsAbsolute joined.0) in
    (normal.0, ap (λ u. path_text (normal_path u)) joined.1 ∙ normal.1)

-- `to_path (normpath s)` for an absolute text.
to_path-normpath : (s : Text) → IsAbsolute (to_path (normpath (slash ∷ s)))
unfolding normpath
to_path-normpath s =
    subst IsAbsolute (sym (to_path-path_text (normal_path (slash ∷ s)) (normal_path-IsAbsolute s)))
      (normal_path-IsAbsolute s)

to_path-abspath : (c s : Text) → IsAbsolute (to_path (normpath (abspath (slash ∷ c) s)))
to_path-abspath c s =
    let a = abspath-slash c s in
    subst (λ t. IsAbsolute (to_path (normpath t))) (sym a.1) (to_path-normpath a.0)

-- What a result holds, where it is one.
abbrev Holds : (FilePath → Type 0) → Result FilePath → Type 0
Holds P (ok p) = P p
Holds P (err e) = Unit

any-first :
    {A : Type 0} (test : A → Bool) (x : A) (xs : List A)
    → any test (x ∷ xs) ≡ true
    → (test x ≡ true) ⊎ (any test xs ≡ true)
any-first test x xs h = elim (Bool-cases (test x)) [ inl e ↦ inl e | inr n ↦ inr (rw n at h) ]

module _ (system : System) where
  normalize_path-Holds :
      (c path : Text) → system.cwd ≡ slash ∷ c → Holds IsAbsolute (normalize_path system path)
  unfolding normalize_path text_eq is_void
  normalize_path-Holds c path cwd = elim (Bool-cases (has_char 0 path)) [
    | inl e ↦ rw e tt
    | inr n ↦ elim (Bool-cases (text_eq path star)) [
      | inl e ↦ rw (n, e) (inl refl, ((((λ e. ground (arith, e)), tt), refl, refl), tt))
      | inr m ↦ rw (n, m, cwd) (to_path-abspath c (system.expanduser path))
    ]
  ]

  -- A pattern of the list that names a path and allows the file.
  abbrev Allows : FilePath → Text → Type 0
  Allows p allowed =
      (q : FilePath) × (normalize_path system allowed ≡ ok q)
      × (is_path_allowed p (path_text q) ≡ true)

  allowed_by-Allows :
      (p : FilePath) (r : Result FilePath)
      → allowed_by system p r ≡ true
      → (q : FilePath) × (r ≡ ok q) × (is_path_allowed p (path_text q) ≡ true)
  unfolding allowed_by
  allowed_by-Allows p (ok q) h = (q, refl, h)
  allowed_by-Allows p (err x) h = absurd (ground (arith, h))

  some_allows-Mem :
      (p : FilePath) (allowed_paths : List Text)
      → some_allows system p allowed_paths ≡ true
      → (allowed : Text) × Memᴰ allowed allowed_paths × Allows p allowed
  unfolding some_allows
  some_allows-Mem p [] h = absurd (ground (arith, h))
  some_allows-Mem p (a ∷ rest) h =
      elim (any-first (λ b. allowed_by system p (normalize_path system b)) a rest h) [
        | inl e ↦ (a, head refl, allowed_by-Allows p (normalize_path system a) e)
        | inr e ↦ let found = some_allows-Mem p rest e in (found.0, tail found.1, found.2)
      ]

  check_candidate-ok :
      (r : Result FilePath) (allowed_paths : List Text)
      → Holds IsAbsolute r
      → check_candidate system r allowed_paths ≡ ok tt
      → (p : FilePath) × (r ≡ ok p)
        × IsAbsolute p
        × (allowed : Text) × Memᴰ allowed allowed_paths
        × Allows p allowed
  unfolding check_candidate
  check_candidate-ok (err e) rest a h = absurd (ground (arith, h))
  check_candidate-ok (ok p) rest a h = elim (Bool-cases (some_allows system p rest)) [
    | inl e ↦ let found = some_allows-Mem p rest e in (p, refl, a, found.0, found.1, found.2)
    | inr n ↦ absurd (ground (arith, rw n at h))
  ]

  -- The path is absolute when it is normalized, and a pattern of the list allows it.
  abbrev pub IsGranted : Text → List Text → Type 0
  IsGranted path allowed_paths =
      (p : FilePath) × (normalize_path system path ≡ ok p)
      × IsAbsolute p
      × (allowed : Text) × Memᴰ allowed allowed_paths
      × Allows p allowed

  -- A path that is let through, where the patterns are some and none of them is the star, is read as
  -- an absolute path whose parts are no dots, no two dots and not empty, and a pattern of the list
  -- names a path that allows it, provided the current directory is absolute.
  pub validate_file_access_path-ok :
      (c path : Text) (allowed_paths : List Text)
      → system.cwd ≡ slash ∷ c
      → one_of star allowed_paths ≡ false
      → validate_file_access_path system path allowed_paths ≡ ok tt
      → IsGranted path allowed_paths
  unfolding validate_file_access_path
  validate_file_access_path-ok c path [] cwd h v = absurd (ground (arith, v))
  validate_file_access_path-ok c path (a ∷ rest) cwd h v =
      check_candidate-ok (normalize_path system path) (a ∷ rest) (normalize_path-Holds c path cwd)
        (rw h at v)
