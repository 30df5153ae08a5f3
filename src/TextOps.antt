-- ===== src/TextOps.antt =====
-- Python's `str` methods and `re.sub`, on code points, as the modelled code calls them.
pub mod Subst
use nova_act.Prelude.{
  ℕ, zero, suc, ◌-◌, ◌==◌, ◌||◌, ◌&&◌, leb, Bool, true, false, Option, none, some, List, [], ◌∷◌,
  ◌++◌, length, if◌then◌else◌,
}
use nova_act.Prelude.Text.{Text, starts_with}

-- One pass from the left: where the pattern matches, `matched` gives the number of characters and
-- what stands in their place; `skip` counts the characters of a match that are still to be passed.
unfoldable pub sub_from : (Text → Option (ℕ × Text)) → ℕ → Text → Text
sub_from matched skip [] = []
sub_from matched (suc skip) (c ∷ s) = sub_from matched skip s
sub_from matched zero (c ∷ s) =
    let kept = sub_from matched zero s in
    let dropped = λ (n : ℕ). sub_from matched n s in
    elim (matched (c ∷ s)) [ none ↦ c ∷ kept | some (n, new) ↦ new ++ dropped (n - 1) ]

-- `re.sub(pattern, ..., s)` for a pattern that matches no empty text.
unfoldable pub sub : (Text → Option (ℕ × Text)) → Text → Text
unfolding sub_from
sub matched s = sub_from matched zero s

unfoldable pub literal : Text → Text → Text → Option (ℕ × Text)
unfolding starts_with
literal old new s = if starts_with s old then some (length old, new) else none

-- `s.replace(old, new)` for an `old` that is not empty.
unfoldable pub replace : Text → Text → Text → Text
unfolding sub literal
replace old new s = sub (literal old new) s
