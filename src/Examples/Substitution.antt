-- ===== src/Examples/Substitution.antt =====
-- `string.gsub` and `string.gmatch` of luajit/lib_string.c on concrete inputs.
use qyz_client_lua.Base.{
  ℕ, pos, ◌+◌, ◌%◌, ◌≡◌, ◌≤◌, refl, none, some, List, [], ◌∷◌, replicate, length, arith,
}
use qyz_client_lua.Pattern.Class.{
  ok, classend, bracket_end, singlematch, match_class, match_class_map, matchbracketclass,
}
use qyz_client_lua.Pattern.Match.{
  Capture, unfinished, match, match_init, enter, dispatch, start_capture, end_capture,
  capture_to_close, set_len, escape, default_item, item, max_expand, try_down, run_length,
  min_expand, min_loop,
}
use qyz_client_lua.Pattern.Match.Captures.{Sure}
use qyz_client_lua.Pattern.Find.{push_onecapture, push_len}
use qyz_client_lua.Pattern.Replace.{
  Repl, news, max_count, string_gsub, string_gmatch_aux, gsub_loop, gmatch_loop, add_value, add_s,
  advance,
}
use qyz_client_lua.Pattern.Replace.Copies.{itself, string_gsub-count, string_gsub-copy}
use qyz_client_lua.Pattern.Replace.Progress.{MovesOn, string_gmatch_aux-MovesOn}
use qyz_client_lua.Char.{lj_char_isa, lj_char_bits}

abbrev no_captures : List Capture
no_captures = replicate 32 (record { init = 0; len = unfinished })

-- "a1b"
abbrev subject : List ℕ
subject = b'a' ∷ b'1' ∷ b'b' ∷ []

-- `(%a)`
abbrev letter : List ℕ
letter = b'(' ∷ b'%' ∷ b'a' ∷ b')' ∷ []

-- `<%1>`
abbrev bracketed : Repl
bracketed = news (b'<' ∷ b'%' ∷ b'1' ∷ b'>' ∷ [])

abbrev digit : ℕ → List ℕ
digit n = (b'0' + n % 10) ∷ []

string_gsub-count_example :
    Sure
      (λ (t, m). m ≤ max_count digit (some (pos 1)) (length subject))
      (string_gsub digit no_captures subject letter bracketed (some (pos 1)))
string_gsub-count_example =
    string_gsub-count digit no_captures subject letter bracketed (some (pos 1)) refl

string_gsub-copy_example :
    Sure
      (λ (t, m). (t ≡ subject) × (m ≤ max_count digit none (length subject)))
      (string_gsub digit no_captures subject letter itself none)
string_gsub-copy_example = string_gsub-copy digit no_captures subject letter none refl

string_gmatch_aux-MovesOn_example :
    Sure (MovesOn (length subject) 1) (string_gmatch_aux no_captures subject letter 1)
string_gmatch_aux-MovesOn_example =
    string_gmatch_aux-MovesOn no_captures subject letter 1 refl (omega arith)

-- `string.gsub("a1b", "(%a)", "<%1>")` is "<a>1<b>" and 2.
bracket_letters :
    string_gsub digit no_captures subject letter bracketed none
    ≡ ok ((b'<' ∷ b'a' ∷ b'>' ∷ b'1' ∷ b'<' ∷ b'b' ∷ b'>' ∷ []), 2)
unfolding string_gsub max_count gsub_loop add_value add_s advance
    qyz_client_lua.Pattern.Replace.go_on qyz_client_lua.Pattern.Replace.finish match match_init
    enter dispatch start_capture end_capture capture_to_close set_len escape default_item item
    classend bracket_end singlematch match_class match_class_map matchbracketclass lj_char_isa
    lj_char_bits max_expand try_down run_length min_expand min_loop push_onecapture push_len
bracket_letters = refl
