-- ===== src/Quote.antt =====
-- The format `%q` of `string.format`, `addquoted` of luajit/lib_string.c.
use qyz_client_lua.Base.{ℕ, ◌+◌, ◌-◌, ◌*◌, ◌/◌, ◌||◌, List, [], ◌∷◌, ◌++◌, leb, ◌==◌, if◌then◌else◌}
use qyz_client_lua.Char.{has_class, is_cntrl, is_digit}

-- From the label `tens` on: two digits.
unfoldable pub tens : ℕ → List ℕ
tens c = let d : ℕ = c * 205 / 2048 in (d + b'0') ∷ (c - d * 10 + b'0') ∷ []

-- The digits of a control character; `next` is the byte behind it.
unfoldable pub control_digits : ℕ → ℕ → List ℕ
control_digits c next =
    if leb 100 c
    then b'1' ∷ tens (c - 100)
    else if has_class next is_digit
    then b'0' ∷ tens c
    else if leb 10 c
    then tens c
    else (c + b'0') ∷ []

-- The bytes in between the quotes; behind the last byte of a string stands a zero byte.
unfoldable pub quoted_bytes : List ℕ → List ℕ
quoted_bytes [] = []
quoted_bytes (c ∷ s) =
    let rest = quoted_bytes s in
    let next : ℕ = elim s [ [] ↦ 0 | d ∷ s' ↦ d ] in
    if c == b'"' || c == b'\\' || c == b'\n'
    then b'\\' ∷ c ∷ rest
    else if has_class c is_cntrl
    then b'\\' ∷ (control_digits c next ++ rest)
    else c ∷ rest

unfoldable pub addquoted : List ℕ → List ℕ
addquoted s = b'"' ∷ (quoted_bytes s ++ b'"' ∷ [])
