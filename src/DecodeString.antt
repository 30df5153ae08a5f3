-- ===== src/DecodeString.antt =====
-- src/nova_act/util/decode_string.py: texts of the model's program, decoded and freed of terminal
-- escape sequences.
pub mod Clean
use nova_act.Prelude.{
  ℕ, zero, suc, ◌+◌, ◌-◌, ◌*◌, ◌==◌, ◌||◌, ◌&&◌, leb, Bool, true, false, Option, none, some, List,
  [], ◌∷◌, ◌++◌, map, if◌then◌else◌,
}
use nova_act.Prelude.Text.{Text, text}
use nova_act.TextOps.{sub, replace}
use mathlib.Core.Option

abbrev pub esc : ℕ
esc = 27

abbrev pub bel : ℕ
bel = 7

abbrev between : ℕ → ℕ → ℕ → Bool
between lo hi c = leb lo c && leb c hi

-- The value of a digit of `[0-9a-fA-F]`.
hex_digit : ℕ → Option ℕ
hex_digit c =
    if between b'0' b'9' c
    then some (c - b'0')
    else if between b'a' b'f' c
    then some (c - b'a' + 10)
    else if between b'A' b'F' c
    then some (c - b'A' + 10)
    else none

-- `int(digits, 16)` over the next `n` characters.
hex_value : ℕ → ℕ → Text → Option ℕ
unfolding hex_digit
hex_value zero acc s = some acc
hex_value (suc n) acc [] = none
hex_value (suc n) acc (c ∷ s) = elim (hex_digit c) [
  | none ↦ none
  | some d ↦ hex_value n (16 * acc + d) s
]

-- `\\u([0-9a-fA-F]{4})`, replaced by the code point.
unicode_escape : Text → Option (ℕ × Text)
unfolding hex_value
unicode_escape (a ∷ (b ∷ s)) =
    if a == 92 && b == b'u'
    then elim (hex_value 4 0 s) [ none ↦ none | some v ↦ some (6, v ∷ []) ]
    else none
unicode_escape _ = none

abbrev high_surrogate : ℕ → Bool
high_surrogate c = between 0xd800 0xdbff c

abbrev low_surrogate : ℕ → Bool
low_surrogate c = between 0xdc00 0xdfff c

-- `encode("utf-16", "surrogatepass").decode("utf-16")`: pairs of surrogates become one code point,
-- and a surrogate that is alone makes the decoding fail.
join_surrogates : Text → Option Text
join_surrogates [] = some []
join_surrogates (c ∷ []) = if high_surrogate c || low_surrogate c then none else some (c ∷ [])
join_surrogates (c ∷ (d ∷ s)) =
    let joined = join_surrogates s in
    let next = join_surrogates (d ∷ s) in
    if high_surrogate c && low_surrogate d
    then Option.map (λ t. (0x10000 + 0x400 * (c - 0xd800) + (d - 0xdc00)) ∷ t) joined
    else if high_surrogate c || low_surrogate c
    then none
    else Option.map (λ t. c ∷ t) next

-- Where the decoding fails, the text stays as it is.
unfoldable pub decode_unicode_escapes : Text → Text
unfolding unicode_escape join_surrogates
decode_unicode_escapes s =
    let result = sub unicode_escape s in
    elim (join_surrogates result) [ none ↦ result | some t ↦ t ]

-- `[0-9;]*[a-zA-Z]`: how many characters match.
csi_tail : Text → Option ℕ
csi_tail [] = none
csi_tail (c ∷ s) =
    let rest = csi_tail s in
    if between b'0' b'9' c || c == b';'
    then Option.map (λ n. suc n) rest
    else if between b'a' b'z' c || between b'A' b'Z' c
    then some 1
    else none

-- `[^\x07\x1b]*\x07`.
osc_bel_tail : Text → Option ℕ
osc_bel_tail [] = none
osc_bel_tail (c ∷ s) =
    let rest = osc_bel_tail s in
    if c == bel then some 1 else if c == esc then none else Option.map (λ n. suc n) rest

-- `[^\x1b]*\x1b\\`.
osc_st_tail : Text → Option ℕ
osc_st_tail [] = none
osc_st_tail (c ∷ []) = none
osc_st_tail (c ∷ (d ∷ s)) =
    let rest = osc_st_tail (d ∷ s) in
    if c == esc then (if d == 92 then some 2 else none) else Option.map (λ n. suc n) rest

-- ESC, one more character, and what `tail` matches: removed.
abbrev sequence : ℕ → (Text → Option ℕ) → Text → Option (ℕ × Text)
sequence kind tail [] = none
sequence kind tail (a ∷ []) = none
sequence kind tail (a ∷ (b ∷ s)) =
    if a == esc && b == kind then Option.map (λ n. (suc (suc n), [])) (tail s) else none

unfoldable pub csi_sequence : Text → Option (ℕ × Text)
unfolding csi_tail
csi_sequence s = sequence b'[' csi_tail s

unfoldable pub osc_bel_sequence : Text → Option (ℕ × Text)
unfolding osc_bel_tail
osc_bel_sequence s = sequence b']' osc_bel_tail s

unfoldable pub osc_st_sequence : Text → Option (ℕ × Text)
unfolding osc_st_tail
osc_st_sequence s = sequence b']' osc_st_tail s

-- `\x1b.`: the dot matches anything but a line feed.
unfoldable pub other_sequence : Text → Option (ℕ × Text)
other_sequence [] = none
other_sequence (a ∷ []) = none
other_sequence (a ∷ (b ∷ s)) = if a == esc then (if b == 10 then none else some (2, [])) else none

-- The text once it is decoded, without the sequences of the first three patterns.
unfoldable pub decoded : Text → Text
unfolding decode_unicode_escapes csi_sequence osc_bel_sequence osc_st_sequence sub replace
decoded s =
    let unescaped = decode_unicode_escapes (replace (text "\\\\u") (text "\\u") s) in
    sub osc_st_sequence (sub osc_bel_sequence (sub csi_sequence unescaped))

unfoldable pub safe_string : Text → Text
unfolding decoded other_sequence
safe_string s =
    let no_bel = replace (bel ∷ []) [] (sub other_sequence (decoded s)) in
    replace (text "\\\\") (text "\\") no_bel

-- The first line is longer by a character.
add_to_line : ℕ → List Text → List Text
add_to_line c [] = (c ∷ []) ∷ []
add_to_line c (l ∷ ls) = (c ∷ l) ∷ ls

-- `awl_raw_program.split("\\n")` in the source: at each backslash followed by an `n`.
split_lines : Text → List Text
unfolding add_to_line
split_lines [] = [] ∷ []
split_lines (c ∷ []) = (c ∷ []) ∷ []
split_lines (c ∷ (d ∷ s)) =
    let after = split_lines s in
    let longer = add_to_line c (split_lines (d ∷ s)) in
    if c == 92 && d == b'n' then [] ∷ after else longer

join_lines : List Text → Text
join_lines [] = []
join_lines (l ∷ []) = l
join_lines (l ∷ (m ∷ ls)) = l ++ (10 ∷ join_lines (m ∷ ls))

unfoldable pub decode_awl_raw_program : Text → Text
unfolding split_lines join_lines safe_string
decode_awl_raw_program s = join_lines (map safe_string (split_lines s))
