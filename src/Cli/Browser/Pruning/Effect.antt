-- ===== src/Cli/Browser/Pruning/Effect.antt =====
-- What pruning takes from the disk and from memory.
use nova_act.Prelude.{
  ◌≡◌, refl, ap, ◌∙◌, Bool, true, false, ◌||◌, Option, none, List, [], ◌∷◌, All, arith, Bool-cases,
  inl, inr, if◌then◌else◌,
}
use nova_act.Prelude.Text.{Text, text_eq, text_eq_iff, Dict, lookup}
use nova_act.Errors.{ok}
use nova_act.Effect.{◌>>=◌, pure, bind-ok}
use nova_act.Cli.Browser.Models.{SessionInfo, is_active}
use nova_act.Cli.Browser.Sessions.{
  World, Env, delete, all_values, terminate, unlink, forget, remove_lock,
}
use nova_act.Cli.Browser.Pruning.{
  is_pruneable, remove_owned_dir, prune_one, prune_all, select_pruneable, results_of, prune_chosen,
  prune,
}

lookup-delete :
    {V : Type 0} (k j : Text) (m : Dict V)
    → lookup j (delete k m) ≡ (if text_eq k j then none else lookup j m)
unfolding lookup delete
lookup-delete k j [] = ground arith
lookup-delete k j ((i, v) ∷ m) =
    ground (arith, text_eq_iff k j, text_eq_iff i k, text_eq_iff i j, lookup-delete k j m)

-- Whether a session is reported.
unfoldable pub reports : Text → List (Text × Option Text) → Bool
unfolding text_eq
reports j [] = false
reports j ((id, dir) ∷ results) = text_eq id j || reports j results

module _ {F : Type 0} (env : Env F) where
  prune_one-ok : (s : SessionInfo F) (w : World F) → (prune_one env s w).0 ≡ ok tt
  unfolding prune_one terminate remove_owned_dir unlink forget remove_lock ◌>>=◌
  prune_one-ok s w = ground arith

  prune_one-disk :
      (s : SessionInfo F) (w : World F) → (prune_one env s w).1.disk ≡ delete s.session_id w.disk
  unfolding prune_one terminate remove_owned_dir unlink forget remove_lock ◌>>=◌
  prune_one-disk s w = ground arith

  prune_one-sessions :
      (s : SessionInfo F) (w : World F)
      → (prune_one env s w).1.sessions ≡ delete s.session_id w.sessions
  unfolding prune_one terminate remove_owned_dir unlink forget remove_lock ◌>>=◌
  prune_one-sessions s w = ground arith

  prune_all-cons :
      (s : SessionInfo F) (ss : List (SessionInfo F)) (w : World F)
      → prune_all env (s ∷ ss) w ≡ prune_all env ss (prune_one env s w).1
  unfolding prune_all
  prune_all-cons s ss w = bind-ok (prune_one env s) (λ _. prune_all env ss) tt w (prune_one-ok s w)

  prune_all-ok : (ss : List (SessionInfo F)) (w : World F) → (prune_all env ss w).0 ≡ ok tt
  prune_all-ok [] w = unfold prune_all pure in refl
  prune_all-ok (s ∷ ss) w =
      ap (λ out. out.0) (prune_all-cons s ss w) ∙ prune_all-ok ss (prune_one env s w).1

  prune_all-disk :
      (ss : List (SessionInfo F)) (j : Text) (w : World F)
      → lookup j (prune_all env ss w).1.disk
        ≡ (if reports j (results_of env ss) then none else lookup j w.disk)
  unfolding prune_all pure reports results_of
  prune_all-disk [] j w = refl
  prune_all-disk (s ∷ ss) j w =
      ap (λ out. lookup j out.1.disk) (prune_all-cons s ss w)
      ∙ (prune_all-disk ss j (prune_one env s w).1
          ∙ rw (prune_one-disk s w, lookup-delete s.session_id j w.disk) (ground arith))

  prune_all-sessions :
      (ss : List (SessionInfo F)) (j : Text) (w : World F)
      → lookup j (prune_all env ss w).1.sessions
        ≡ (if reports j (results_of env ss) then none else lookup j w.sessions)
  unfolding prune_all pure reports results_of
  prune_all-sessions [] j w = refl
  prune_all-sessions (s ∷ ss) j w =
      ap (λ out. lookup j out.1.sessions) (prune_all-cons s ss w)
      ∙ (prune_all-sessions ss j (prune_one env s w).1
          ∙ rw (prune_one-sessions s w, lookup-delete s.session_id j w.sessions) (ground arith))

  -- Only sessions that are not active are chosen.
  select_pruneable-inactive :
      (ignore_ttl : Bool) (w : World F) (ss : List (SessionInfo F))
      → All (λ s. is_active s.state ≡ false) (select_pruneable env ignore_ttl w ss)
  unfolding select_pruneable is_pruneable
  select_pruneable-inactive ignore_ttl w [] = tt
  select_pruneable-inactive ignore_ttl w (s ∷ ss) =
      elim (Bool-cases (is_pruneable env ignore_ttl w s)) [
        | inl e ↦ rw e (ground (arith, e), select_pruneable-inactive ignore_ttl w ss)
        | inr n ↦ rw n (select_pruneable-inactive ignore_ttl w ss)
      ]

  -- The sessions that go, of those in memory.
  abbrev pub chosen : Bool → World F → List (SessionInfo F)
  chosen ignore_ttl w = select_pruneable env ignore_ttl w (all_values w.sessions)

  deleted :
      (ignore_ttl : Bool) (w : World F)
      → prune env ignore_ttl false w
        ≡ (ok (results_of env (chosen ignore_ttl w)), (prune_all env (chosen ignore_ttl w) w).1)
  unfolding prune prune_chosen pure
  deleted ignore_ttl w =
      bind-ok (prune_all env (chosen ignore_ttl w))
        (λ _. pure (results_of env (chosen ignore_ttl w))) tt w
        (prune_all-ok (chosen ignore_ttl w) w)

  pub prune-disk :
      (ignore_ttl : Bool) (j : Text) (w : World F)
      → lookup j (prune env ignore_ttl false w).1.disk
        ≡ (if reports j (results_of env (chosen ignore_ttl w)) then none else lookup j w.disk)
  prune-disk ignore_ttl j w =
      ap (λ out. lookup j out.1.disk) (deleted ignore_ttl w)
      ∙ prune_all-disk (chosen ignore_ttl w) j w

  -- Pruning without deleting returns the sessions that pruning would delete and changes nothing;
  -- pruning returns the same, takes just these from the disk and from memory, and none of them is
  -- active.
  pub prune-dry_run :
      (ignore_ttl : Bool) (j : Text) (w : World F)
      → (prune env ignore_ttl true w ≡ (ok (results_of env (chosen ignore_ttl w)), w))
        × ((prune env ignore_ttl false w).0 ≡ ok (results_of env (chosen ignore_ttl w)))
        × (lookup j (prune env ignore_ttl false w).1.disk
            ≡ (if reports j (results_of env (chosen ignore_ttl w)) then none else lookup j w.disk))
        × (lookup j (prune env ignore_ttl false w).1.sessions ≡ (
            if reports j (results_of env (chosen ignore_ttl w)) then none else lookup j w.sessions))
        × All (λ s. is_active s.state ≡ false) (chosen ignore_ttl w)
  unfolding prune prune_chosen pure
  prune-dry_run ignore_ttl j w = (
    refl,
    ap (λ out. out.0) (deleted ignore_ttl w),
    prune-disk ignore_ttl j w,
    ap (λ out. lookup j out.1.sessions) (deleted ignore_ttl w)
        ∙ prune_all-sessions (chosen ignore_ttl w) j w,
    select_pruneable-inactive ignore_ttl w (all_values w.sessions),
  )
