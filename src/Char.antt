-- ===== src/Char.antt =====
-- Character classes: luajit/lj_char.c and luajit/lj_char.h.
pub mod Ascii
use Prim.Native.Nat.{bit_and}
use qyz_client_lua.Base.{
  ℕ, zero, suc, ◌+◌, ◌-◌, ◌/◌, Bool, not, List, [], ◌∷◌, ◌++◌, ◌==◌, get_or, replicate,
}

-- The table, from index -1.
unfoldable pub lj_char_bits : List ℕ
lj_char_bits =
    0
    ∷ 1
    ∷ 1
    ∷ 1
    ∷ 1
    ∷ 1
    ∷ 1
    ∷ 1
    ∷ 1
    ∷ 1
    ∷ 3
    ∷ 3
    ∷ 3
    ∷ 3
    ∷ 3
    ∷ 1
    ∷ 1
    ∷ 1
    ∷ 1
    ∷ 1
    ∷ 1
    ∷ 1
    ∷ 1
    ∷ 1
    ∷ 1
    ∷ 1
    ∷ 1
    ∷ 1
    ∷ 1
    ∷ 1
    ∷ 1
    ∷ 1
    ∷ 1
    ∷ 2
    ∷ 4
    ∷ 4
    ∷ 4
    ∷ 4
    ∷ 4
    ∷ 4
    ∷ 4
    ∷ 4
    ∷ 4
    ∷ 4
    ∷ 4
    ∷ 4
    ∷ 4
    ∷ 4
    ∷ 4
    ∷ 152
    ∷ 152
    ∷ 152
    ∷ 152
    ∷ 152
    ∷ 152
    ∷ 152
    ∷ 152
    ∷ 152
    ∷ 152
    ∷ 4
    ∷ 4
    ∷ 4
    ∷ 4
    ∷ 4
    ∷ 4
    ∷ 4
    ∷ 176
    ∷ 176
    ∷ 176
    ∷ 176
    ∷ 176
    ∷ 176
    ∷ 160
    ∷ 160
    ∷ 160
    ∷ 160
    ∷ 160
    ∷ 160
    ∷ 160
    ∷ 160
    ∷ 160
    ∷ 160
    ∷ 160
    ∷ 160
    ∷ 160
    ∷ 160
    ∷ 160
    ∷ 160
    ∷ 160
    ∷ 160
    ∷ 160
    ∷ 160
    ∷ 4
    ∷ 4
    ∷ 4
    ∷ 4
    ∷ 132
    ∷ 4
    ∷ 208
    ∷ 208
    ∷ 208
    ∷ 208
    ∷ 208
    ∷ 208
    ∷ 192
    ∷ 192
    ∷ 192
    ∷ 192
    ∷ 192
    ∷ 192
    ∷ 192
    ∷ 192
    ∷ 192
    ∷ 192
    ∷ 192
    ∷ 192
    ∷ 192
    ∷ 192
    ∷ 192
    ∷ 192
    ∷ 192
    ∷ 192
    ∷ 192
    ∷ 192
    ∷ 4
    ∷ 4
    ∷ 4
    ∷ 4
    ∷ 1
    ∷ replicate 128 128

-- `lj_char_isa(c, t)`, for a byte `c`.
unfoldable pub lj_char_isa : ℕ → ℕ → ℕ
unfolding lj_char_bits
lj_char_isa c t = bit_and (get_or lj_char_bits (suc c) 0) t

abbrev pub is_cntrl : ℕ
is_cntrl = 0x01

abbrev pub is_space : ℕ
is_space = 0x02

abbrev pub is_punct : ℕ
is_punct = 0x04

abbrev pub is_digit : ℕ
is_digit = 0x08

abbrev pub is_xdigit : ℕ
is_xdigit = 0x10

abbrev pub is_upper : ℕ
is_upper = 0x20

abbrev pub is_lower : ℕ
is_lower = 0x40

abbrev pub is_ident : ℕ
is_ident = 0x80

abbrev pub is_alpha : ℕ
is_alpha = 0x60

abbrev pub is_alnum : ℕ
is_alnum = 0x68

abbrev pub is_graph : ℕ
is_graph = 0x6c

-- Whether a byte is of class `t`.
unfoldable pub has_class : ℕ → ℕ → Bool
unfolding lj_char_isa
has_class c t = not (lj_char_isa c t == 0)

unfoldable pub lj_char_toupper : ℕ → ℕ
unfolding lj_char_isa
lj_char_toupper c = c - lj_char_isa c is_lower / 2

unfoldable pub lj_char_tolower : ℕ → ℕ
unfolding lj_char_isa
lj_char_tolower c = c + lj_char_isa c is_upper
