-- ===== src/Paths/Parts.antt =====
-- Splitting and joining paths, and what normalizing leaves of them.
use nova_act.Prelude.{
  ℕ, ◌==◌, ◌≡◌, refl, ap, ◌∙◌, ◌||◌, ◌&&◌, not, inl, inr, true, false, List, [], ◌∷◌, ◌++◌, All,
  arith, Bool-cases, if◌then◌else◌,
}
use nova_act.Prelude.Text.{Text, text_eq}
use nova_act.Paths.{
  split, join, add_first, slash, dot_dot, is_void, drop_void, push_part, collapse, turn_over,
  is_empty, is_top_dot_dot, pop,
}

-- A part without a slash.
abbrev pub NoSlash : Text → Type 0
NoSlash part = All (λ c. ¬ (c ≡ 47)) part

-- A part that names a file or a directory.
abbrev pub IsPart : Text → Type 0
IsPart part = NoSlash part × (is_void part ≡ false) × (text_eq part dot_dot ≡ false)

-- The parts of a split text, with one part put before its first.
split-append : (part s : Text) → NoSlash part → split (part ++ (slash ∷ s)) ≡ part ∷ split s
unfolding split
split-append [] s h = refl
split-append (c ∷ part) s h = ground (arith, split-append part s h.1)

pub split-NoSlash : (part : Text) → NoSlash part → split part ≡ part ∷ []
unfolding split
split-NoSlash [] h = refl
split-NoSlash (c ∷ part) h = ground (arith, split-NoSlash part h.1)

All-add_first :
    (c : ℕ) (ps : List Text) → ¬ (c ≡ 47) → All NoSlash ps → All NoSlash (add_first c ps)
All-add_first c [] h a = ((h, tt), tt)
All-add_first c (p ∷ ps) h a = ((h, a.0), a.1)

pub All-split : (s : Text) → All NoSlash (split s)
unfolding split
All-split [] = (tt, tt)
All-split (c ∷ s) = elim (Bool-cases (c == slash)) [
  | inl e ↦ rw e (tt, All-split s)
  | inr n ↦ rw n (All-add_first c (split s) (λ e. ground arith) (All-split s))
]

-- Joining and splitting gives the parts back; an empty list gives one empty part.
pub split-join : (p : Text) (ps : List Text) → All NoSlash (p ∷ ps) → split (join (p ∷ ps)) ≡ p ∷ ps
unfolding join
split-join p [] a = split-NoSlash p a.0
split-join p (q ∷ ps) a = split-append p (join (q ∷ ps)) a.0 ∙ ap (λ l. p ∷ l) (split-join q ps a.1)

pub drop_void-All : (ps : List Text) → All IsPart ps → drop_void ps ≡ ps
unfolding drop_void
drop_void-All [] a = refl
drop_void-All (p ∷ ps) a = ground (arith, drop_void-All ps a.1)

pub All-NoSlash : (ps : List Text) → All IsPart ps → All NoSlash ps
All-NoSlash [] a = tt
All-NoSlash (p ∷ ps) a = (a.0.0, All-NoSlash ps a.1)

-- What a part that is not void does to the parts before it.
push_solid-All :
    (p : Text) (new : List Text)
    → NoSlash p
    → is_void p ≡ false
    → All IsPart new
    → All IsPart (
        if not (text_eq p dot_dot) || (not true && is_empty new) || is_top_dot_dot new
        then p ∷ new
        else pop new)
push_solid-All p [] s solid a = elim (Bool-cases (text_eq p dot_dot)) [
  | inl up ↦ rw up tt
  | inr down ↦ rw down ((s, solid, down), tt)
]
push_solid-All p (q ∷ new) s solid a = elim (Bool-cases (text_eq p dot_dot)) [
  | inl up ↦ rw (up, a.0.2) a.1
  | inr down ↦ rw down ((s, solid, down), a)
]

-- A rooted collapse leaves no part that is empty, a dot or two dots.
push_part-All :
    (p : Text) (new : List Text) → NoSlash p → All IsPart new → All IsPart (push_part true p new)
unfolding push_part
push_part-All p new s a = elim (Bool-cases (is_void p)) [
  | inl void ↦ rw void a
  | inr solid ↦ rw solid (push_solid-All p new s solid a)
]

pub collapse-All :
    (ps new : List Text) → All NoSlash ps → All IsPart new → All IsPart (collapse true ps new)
unfolding collapse
collapse-All [] new s a = a
collapse-All (p ∷ ps) new s a =
    collapse-All ps (push_part true p new) s.1 (push_part-All p new s.0 a)

pub turn_over-All :
    (ps done : List Text) → All IsPart ps → All IsPart done → All IsPart (turn_over ps done)
unfolding turn_over
turn_over-All [] done a b = b
turn_over-All (p ∷ ps) done a b = turn_over-All ps (p ∷ done) a.1 (a.0, b)
