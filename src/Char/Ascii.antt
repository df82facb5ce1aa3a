-- ===== src/Char/Ascii.antt =====
-- The table of character classes, against ranges of ASCII.
use qyz_client_lua.Base.{
  ℕ, zero, suc, ◌+◌, ◌-◌, ◌<◌, ◌≡◌, refl, Bool, true, false, ◌&&◌, ◌||◌, leb, ◌==◌, arith,
  if◌then◌else◌, ℕ_discrete,
}
use qyz_client_lua.Char.{
  has_class, is_cntrl, is_space, is_punct, is_digit, is_xdigit, is_upper, is_lower, is_ident,
  is_graph, lj_char_toupper, lj_char_tolower,
}

abbrev pub in_range : ℕ → ℕ → ℕ → Bool
in_range lo hi c = leb lo c && leb c hi

-- The number of arguments below a bound at which two functions differ.
mismatches : (ℕ → ℕ) → (ℕ → ℕ) → ℕ → ℕ
mismatches f g zero = 0
mismatches f g (suc limit) = (if f limit == g limit then 0 else 1) + mismatches f g limit

without_mismatch : (f g : ℕ → ℕ) (limit c : ℕ) → c < limit → mismatches f g limit ≡ 0 → f c ≡ g c
unfolding mismatches
without_mismatch f g zero c l none_left = absurd (omega arith)
without_mismatch f g (suc limit) c l none_left = elim (ℕ_discrete c limit) [
  | yes last ↦ rw last (ground arith)
  | no earlier ↦ without_mismatch f g limit c (omega arith) (omega arith)
]

abbrev bit : Bool → ℕ
bit b = if b then 1 else 0

bit_injective : (a b : Bool) → bit a ≡ bit b → a ≡ b
bit_injective true true e = refl
bit_injective true false e = absurd (omega arith)
bit_injective false true e = absurd (omega arith)
bit_injective false false e = refl

-- Two tests agree on every byte, by a run over all of them.
agree :
    (p q : ℕ → Bool)
    → mismatches (λ c. bit (p c)) (λ c. bit (q c)) 256 ≡ 0
    → (c : ℕ) → c < 256
    → p c ≡ q c
agree p q run c l =
    bit_injective (p c) (q c) (without_mismatch (λ c. bit (p c)) (λ c. bit (q c)) 256 c l run)

-- Each class is the ASCII range that its name stands for.
pub record IsAsciiClassified (c : ℕ) : Type 0 where
  pub digit : has_class c is_digit ≡ in_range b'0' b'9' c
  pub upper : has_class c is_upper ≡ in_range b'A' b'Z' c
  pub lower : has_class c is_lower ≡ in_range b'a' b'z' c
  pub cntrl : has_class c is_cntrl ≡ (leb c 31 || c == 127)
  pub space : has_class c is_space ≡ (in_range 9 13 c || c == 32)
  pub punct :
      has_class c is_punct
      ≡ (in_range 33 47 c || in_range 58 64 c || in_range 91 96 c || in_range 123 126 c)
  pub xdigit :
      has_class c is_xdigit ≡ (in_range b'0' b'9' c || in_range b'A' b'F' c || in_range b'a' b'f' c)
  pub ident : has_class c is_ident ≡ (
      in_range b'0' b'9' c
      || in_range b'A' b'Z' c
      || in_range b'a' b'z' c
      || c == b'_'
      || leb 128 c)
  pub graph : has_class c is_graph ≡ in_range 33 126 c

-- On every byte, each class of `lj_char_bits` is the ASCII range that its name stands for.
pub ascii_classes : (c : ℕ) → c < 256 → IsAsciiClassified c
unfolding mismatches has_class
ascii_classes c h = record {
  digit = agree (λ c. has_class c is_digit) (in_range b'0' b'9') refl c h;
  upper = agree (λ c. has_class c is_upper) (in_range b'A' b'Z') refl c h;
  lower = agree (λ c. has_class c is_lower) (in_range b'a' b'z') refl c h;
  cntrl = agree (λ c. has_class c is_cntrl) (λ c. leb c 31 || c == 127) refl c h;
  space = agree (λ c. has_class c is_space) (λ c. in_range 9 13 c || c == 32) refl c h;
  punct =
      agree (λ c. has_class c is_punct)
        (λ c. in_range 33 47 c || in_range 58 64 c || in_range 91 96 c || in_range 123 126 c) refl c
        h;
  xdigit =
      agree (λ c. has_class c is_xdigit)
        (λ c. in_range b'0' b'9' c || in_range b'A' b'F' c || in_range b'a' b'f' c) refl c h;
  ident =
      agree (λ c. has_class c is_ident)
        (λ c.
          in_range b'0' b'9' c
          || in_range b'A' b'Z' c
          || in_range b'a' b'z' c
          || c == b'_'
          || leb 128 c)
        refl c h;
  graph = agree (λ c. has_class c is_graph) (in_range 33 126) refl c h;
}

-- On every byte, the case conversions move ASCII letters of the other case by 32 and leave every
-- other byte alone.
pub case_conversion :
    (c : ℕ)
    → c < 256
    → (lj_char_tolower c ≡ (if in_range b'A' b'Z' c then c + 32 else c))
      × (lj_char_toupper c ≡ (if in_range b'a' b'z' c then c - 32 else c))
unfolding mismatches lj_char_tolower lj_char_toupper
case_conversion c h = (
  without_mismatch lj_char_tolower (λ c. if in_range b'A' b'Z' c then c + 32 else c) 256 c h refl,
  without_mismatch lj_char_toupper (λ c. if in_range b'a' b'z' c then c - 32 else c) 256 c h refl,
)
