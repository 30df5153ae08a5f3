-- ===== src/Metadata.antt =====
-- src/nova_act/types/act_metadata.py: what an act reports about itself. Times are whole milliseconds.
pub mod Filename
use nova_act.Prelude.{
  ℕ, zero, suc, Bool, true, false, not, ◌||◌, ◌&&◌, ◌==◌, leb, Option, List, [], ◌∷◌, ◌++◌, map,
  last?, none, some, if◌then◌else◌,
}
use nova_act.Prelude.Int.{ℤ}
use nova_act.Prelude.Text.{Text, text, starts_with}
use mathlib.Core.List.{reverse}

pub record ActMetadata : Type 0 where
  pub session_id : Text
  pub act_id : Text
  pub num_steps_executed : ℕ
  pub start_time : Option ℕ
  pub end_time : Option ℕ
  pub prompt : Text
  pub step_server_times_s : List ℕ
  pub time_worked_s : Option ℤ
  pub human_wait_time_s : ℤ
  pub trajectory_file_path : Option Text

-- `\s` of a `str` pattern.
unfoldable pub is_space : ℕ → Bool
is_space c =
    (leb 9 c && leb c 13)
    || (leb 28 c && leb c 32)
    || c == 0x85
    || c == 0xa0
    || c == 0x1680
    || (leb 0x2000 c && leb c 0x200a)
    || c == 0x2028
    || c == 0x2029
    || c == 0x202f
    || c == 0x205f
    || c == 0x3000

-- The class `[<>:"/\\|?*\x00-\x1F\s]`.
unfoldable pub is_unsafe : ℕ → Bool
unfolding is_space
is_unsafe c =
    c == b'<'
    || c == b'>'
    || c == b':'
    || c == 34
    || c == b'/'
    || c == 92
    || c == b'|'
    || c == b'?'
    || c == b'*'
    || leb c 0x1f
    || is_space c

abbrev underscore : ℕ
underscore = 95

abbrev replace_unsafe : ℕ → ℕ
replace_unsafe c = if is_unsafe c then underscore else c

strip_left : Text → Text
strip_left [] = []
strip_left (c ∷ s) = let rest = strip_left s in if c == underscore then rest else c ∷ s

strip : Text → Text
unfolding strip_left
strip s = reverse (strip_left (reverse (strip_left s)))

take : ℕ → Text → Text
take zero s = []
take (suc n) [] = []
take (suc n) (c ∷ s) = c ∷ take n s

unfoldable pub safe_filename : Text → ℕ → Text
unfolding strip take
safe_filename s max_length = take max_length (strip (map replace_unsafe s))

-- An empty directory, and one that ends in a slash, take no further slash.
needs_slash : Option ℕ → Bool
needs_slash none = false
needs_slash (some c) = not (c == b'/')

-- `os.path.join(dir, name)` on POSIX.
unfoldable pub join : Text → Text → Text
unfolding needs_slash
join dir name =
    if starts_with name (text "/")
    then name
    else if needs_slash (last? dir)
    then dir ++ (b'/' ∷ name)
    else dir ++ name

unfoldable pub trajectory_file_name : Text → Text → Text
trajectory_file_name act_id prompt =
    text "act_" ++ (act_id ++ (text "_" ++ (safe_filename prompt 30 ++ text "_trajectory.json")))

unfoldable pub build_trajectory_file_path : Text → Text → Text → Text
unfolding join trajectory_file_name safe_filename
build_trajectory_file_path session_logs_directory act_id prompt =
    join session_logs_directory (trajectory_file_name act_id prompt)
