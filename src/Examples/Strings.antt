-- ===== src/Examples/Strings.antt =====
-- Character classes of luajit/lj_char.c, the pattern matcher of luajit/lib_string.c and the 64-bit
-- arithmetic of luajit/lj_carith.c, on concrete inputs.
use qyz_client_lua.Base.{
  some, pos, true, false, ℕ, ◌+◌, ◌-◌, ◌^◌, ◌%◌, ◌≡◌, refl, List, [], ◌∷◌, replicate, arith,
  if◌then◌else◌,
}
use qyz_client_lua.Carith.{
  u64, lj_carith_divu64, lj_carith_modu64, lj_carith_divi64, lj_carith_modi64, lj_carith_powu64,
  lj_carith_powi64,
}
use qyz_client_lua.Carith.Division.{
  IsUnsignedDivision, IsSignedDivision, divu64-modu64, divi64-modi64,
}
use qyz_client_lua.Carith.Power.{IsSignedPower, powu64-pow, powi64-pow}
use qyz_client_lua.Char.{lj_char_tolower, lj_char_toupper}
use qyz_client_lua.Char.Ascii.{in_range, IsAsciiClassified, ascii_classes, case_conversion}
use qyz_client_lua.Pattern.Plain.{lmemfind}
use qyz_client_lua.Pattern.Plain.Leftmost.{leftmost, lmemfind-leftmost}
use qyz_client_lua.Pattern.Find.{
  integer, string, str_find_aux, first_position, posrelat, has_specials, find_loop, answer,
  push_captures, captures_from, push_onecapture, push_len,
}
use qyz_client_lua.Pattern.Class.{
  ok, classend, bracket_end, singlematch, match_class, match_class_map, matchbracketclass,
}
use qyz_client_lua.Pattern.Match.{Capture}
use qyz_client_lua.Pattern.Match.{
  match_init, enter, dispatch, start_capture, end_capture, capture_to_close, set_len, escape,
  default_item, item, max_expand, try_down, run_length, min_expand, min_loop,
}
use qyz_client_lua.Char.{lj_char_isa, lj_char_bits}
use qyz_client_lua.Pattern.Match.{MatchState, unfinished, match}
use qyz_client_lua.Pattern.Match.Bounds.{IsValid, Good}
use qyz_client_lua.Pattern.Match.Total.{match-Good}

divu64-modu64_example :
    (q : ℕ) × (r : ℕ) × (lj_carith_divu64 100 7 ≡ some q)
    × (lj_carith_modu64 100 7 ≡ some r)
    × IsUnsignedDivision 100 7 q r
divu64-modu64_example = divu64-modu64 100 7

-- -7 by 2.
divi64-modi64_example :
    (q : ℕ) × (r : ℕ) × (lj_carith_divi64 18446744073709551609 2 ≡ some q)
    × (lj_carith_modi64 18446744073709551609 2 ≡ some r)
    × IsSignedDivision 18446744073709551609 2 q r
divi64-modi64_example = divi64-modi64 18446744073709551609 2 (omega arith) (omega arith)

powu64-pow_example : lj_carith_powu64 3 41 ≡ 3 ^ 41 % u64
powu64-pow_example = powu64-pow 3 41 (omega arith) (omega arith)

-- -1 to the power -3.
powi64-pow_example :
    IsSignedPower 18446744073709551615 18446744073709551613
      (lj_carith_powi64 18446744073709551615 18446744073709551613)
powi64-pow_example =
    powi64-pow 18446744073709551615 18446744073709551613 (omega arith) (omega arith)

ascii_classes_example : IsAsciiClassified b'_'
ascii_classes_example = ascii_classes b'_' (omega arith)

case_conversion_example :
    (lj_char_tolower b'Q' ≡ (if in_range b'A' b'Z' b'Q' then b'Q' + 32 else b'Q'))
    × (lj_char_toupper b'Q' ≡ (if in_range b'a' b'z' b'Q' then b'Q' - 32 else b'Q'))
case_conversion_example = case_conversion b'Q' (omega arith)

-- The subject `key=12`, without captures.
abbrev captures : List Capture
captures = replicate 32 (record { init = 0; len = unfinished })

abbrev start : MatchState
start = record {
  src = b'k' ∷ b'e' ∷ b'y' ∷ b'=' ∷ b'1' ∷ b'2' ∷ [];
  level = 0;
  depth = 0;
  capture = captures;
}

-- `(%a+)=%d-$`
abbrev pattern_bytes : List ℕ
pattern_bytes = b'(' ∷ b'%' ∷ b'a' ∷ b'+' ∷ b')' ∷ b'=' ∷ b'%' ∷ b'd' ∷ b'-' ∷ b'$' ∷ []

start-IsValid : IsValid start 0
start-IsValid = record {
  inside = omega arith;
  slots = refl;
  level = omega arith;
  starts = λ i h. absurd (omega arith);
  fits = λ i h. absurd (omega arith);
}

match-Good_example : Good start 0 (match 11 start 0 pattern_bytes)
match-Good_example = match-Good 11 start 0 pattern_bytes (omega arith) start-IsValid

lmemfind-leftmost_example :
    lmemfind (b'a' ∷ b'a' ∷ b'b' ∷ b'a' ∷ b'b' ∷ []) (b'a' ∷ b'b' ∷ [])
    ≡ leftmost (b'a' ∷ b'b' ∷ []) (b'a' ∷ b'a' ∷ b'b' ∷ b'a' ∷ b'b' ∷ [])
lmemfind-leftmost_example =
    lmemfind-leftmost (b'a' ∷ b'a' ∷ b'b' ∷ b'a' ∷ b'b' ∷ []) (b'a' ∷ b'b' ∷ [])

-- `string.find("key=12", "(%a+)=%d-$")` is 1, 6 and "key".
find_key :
    str_find_aux captures start.src pattern_bytes (pos 1) false true
    ≡ ok (integer 1 ∷ integer 6 ∷ string (b'k' ∷ b'e' ∷ b'y' ∷ []) ∷ [])
unfolding str_find_aux first_position posrelat has_specials find_loop match match_init enter
    dispatch start_capture end_capture capture_to_close set_len escape default_item item classend
    bracket_end singlematch match_class match_class_map matchbracketclass lj_char_isa lj_char_bits
    max_expand try_down run_length min_expand min_loop answer push_captures captures_from
    push_onecapture push_len
find_key = refl
