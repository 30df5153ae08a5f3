-- ===== src/Cli/Browser/Creating/Counting.antt =====
-- The number of active sessions, when one is set.
use nova_act.Prelude.{
  ℕ, ◌+◌, ◌≤◌, ◌≡◌, refl, ap, [], ◌∷◌, arith, Bool-cases, inl, inr, if◌then◌else◌,
}
use nova_act.Prelude.Text.{Text, text_eq, text_eq_refl, Dict, insert}
use nova_act.Cli.Browser.Models.{SessionInfo, is_active}
use nova_act.Cli.Browser.Sessions.{count_active}

module _ {F : Type 0} where
  abbrev weight : SessionInfo F → ℕ
  weight s = if is_active s.state then 1 else 0

  weight-le : (s : SessionInfo F) → weight s ≤ 1
  weight-le s = ground arith

  pub count-le-insert :
      (k : Text) (v : SessionInfo F) (m : Dict (SessionInfo F))
      → weight v ≡ 1
      → count_active m ≤ count_active (insert k v m)
  unfolding count_active insert
  count-le-insert k v [] h = omega arith
  count-le-insert k v ((j, s) ∷ m) h = elim (Bool-cases (text_eq j k)) [
    | inl e ↦ rw e (omega (arith, weight-le s, h))
    | inr n ↦ rw n (omega (arith, count-le-insert k v m h))
  ]

  pub count-insert :
      (k : Text) (v : SessionInfo F) (m : Dict (SessionInfo F))
      → count_active (insert k v m) ≤ count_active m + 1
  unfolding count_active insert
  count-insert k v [] = omega (arith, weight-le v)
  count-insert k v ((j, s) ∷ m) = elim (Bool-cases (text_eq j k)) [
    | inl e ↦ rw e (omega (arith, weight-le v))
    | inr n ↦ rw n (omega (arith, count-insert k v m))
  ]

  pub insert-insert :
      (k : Text) (u v : SessionInfo F) (m : Dict (SessionInfo F))
      → insert k v (insert k u m) ≡ insert k v m
  unfolding insert
  insert-insert k u v [] = rw (text_eq_refl k) refl
  insert-insert k u v ((j, s) ∷ m) = elim (Bool-cases (text_eq j k)) [
    | inl e ↦ rw (e, e) refl
    | inr n ↦ rw (n, n) (ap (λ l. (j, s) ∷ l) (insert-insert k u v m))
  ]
