-- ===== src/Examples/Checking.antt =====
-- Small inputs of the checks, the compiler, the classes of errors and the file names.
use nova_act.Prelude.{ℕ, ◌+◌, ◌≡◌, refl, true, some, [], ◌∷◌}
use nova_act.Prelude.Int.{pos, ◌-ℤ◌}
use nova_act.Prelude.Text.{text, Dict}
use nova_act.Errors.{is_subclass}
use nova_act.Errors.Classes.{session_not_found_error, session_error, key_error}
use nova_act.Program.{compile}
use nova_act.Program.Compiling.{IsCompiled, compile-IsCompiled}
use nova_act.Dispatcher.{calculate_time_worked, max_zero}
use nova_act.Examples.Sample.{call}

abbrev numbers : Dict ℕ
numbers = (text "a", 1) ∷ (text "b", 2) ∷ []

abbrev twice : ℕ → ℕ
twice n = n + n

compile-IsCompiled_example :
    IsCompiled twice numbers
      (call (text "b") ∷ call (text "c") ∷ [])
      (compile twice numbers (call (text "b") ∷ call (text "c") ∷ []))
compile-IsCompiled_example =
    compile-IsCompiled twice numbers (call (text "b") ∷ call (text "c") ∷ [])

worked_seven : calculate_time_worked (some 100) (some 110) (pos 3) ≡ some (pos 7)
unfolding calculate_time_worked max_zero ◌-ℤ◌
worked_seven = refl

-- A session that is not found is a `KeyError` too, by the second class of its `class` line.
not_found_is_key_error : is_subclass session_not_found_error key_error ≡ true
unfolding is_subclass
not_found_is_key_error = refl

not_found_is_session_error : is_subclass session_not_found_error session_error ≡ true
unfolding is_subclass
not_found_is_session_error = refl
