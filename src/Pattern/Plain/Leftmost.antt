-- ===== src/Pattern/Plain/Leftmost.antt =====
-- `lmemfind` against the search at every position.
use qyz_client_lua.Base.{
  ℕ, zero, suc, ◌+◌, ◌-◌, ◌<◌, ◌≤◌, ◌≡◌, refl, sym, ap, ◌∙◌, inl, inr, Bool, true, false, ◌&&◌,
  List, [], ◌∷◌, Option, none, some, ltb, ◌==◌, if◌then◌else◌, drop, length, arith, Bool-cases,
}
use qyz_client_lua.Pattern.Match.{same_bytes}
use qyz_client_lua.Pattern.Match.Bounds.{length-drop}
use qyz_client_lua.Pattern.Plain.{shift, memchr, search_loop, lmemfind}

unfoldable pub is_prefix : List ℕ → List ℕ → Bool
is_prefix [] s = true
is_prefix (c ∷ p) [] = false
is_prefix (c ∷ p) (x ∷ s) = x == c && is_prefix p s

-- The least position at which a string occurs, by trying each.
unfoldable pub leftmost : List ℕ → List ℕ → Option ℕ
leftmost p [] = if is_prefix p [] then some 0 else none
leftmost p (x ∷ s) =
    let later = shift 1 (leftmost p s) in if is_prefix p (x ∷ s) then some 0 else later

same_bytes-is_prefix :
    (s2 s : List ℕ) → length s2 ≤ length s → same_bytes (length s2) s s2 ≡ is_prefix s2 s
unfolding same_bytes is_prefix
same_bytes-is_prefix [] s h = refl
same_bytes-is_prefix (c ∷ s2) [] h = absurd (omega arith)
same_bytes-is_prefix (c ∷ s2) (x ∷ s) h =
    ap (λ b. x == c && b) (same_bytes-is_prefix s2 s (omega arith))

no_prefix : (p s : List ℕ) → length s < length p → is_prefix p s ≡ false
unfolding is_prefix
no_prefix [] s h = absurd (omega arith)
no_prefix (c ∷ p) [] h = refl
no_prefix (c ∷ p) (x ∷ s) h = rw (no_prefix p s (omega arith)) (and_false (x == c))
  where
    and_false : (b : Bool) → (b && false) ≡ false
    and_false true = refl
    and_false false = refl

too_short : (p s : List ℕ) → length s < length p → leftmost p s ≡ none
unfolding leftmost shift
too_short [] s h = absurd (omega arith)
too_short (c ∷ p) [] h = rw (no_prefix (c ∷ p) [] h) refl
too_short (c ∷ p) (x ∷ s) h =
    rw (no_prefix (c ∷ p) (x ∷ s) h, too_short (c ∷ p) s (omega arith)) refl

other_head : (c x : ℕ) (p s : List ℕ) → (x == c) ≡ false → is_prefix (c ∷ p) (x ∷ s) ≡ false
unfolding is_prefix
other_head c x p s h = rw h refl

same_head : (c x : ℕ) (p s : List ℕ) → (x == c) ≡ true → is_prefix (c ∷ p) (x ∷ s) ≡ is_prefix p s
unfolding is_prefix
same_head c x p s h = rw h refl

pub shift-none : (n : ℕ) (r : Option ℕ) → shift n r ≡ none → r ≡ none
unfolding shift
shift-none n none e = refl
shift-none n (some i) e = cc

pub some_injective : {a b : ℕ} → Option.some a ≡ some b → a ≡ b
some_injective e = cc

pub shift-some : (k : ℕ) (r : Option ℕ) → shift 1 r ≡ some k → (i : ℕ) × (r ≡ some i) × (k ≡ suc i)
unfolding shift
shift-some k none e = cc
shift-some k (some i) e = (i, refl, omega (arith, some_injective e))

shift-shift : (k : ℕ) (r : Option ℕ) → shift 1 (shift (suc k) r) ≡ shift (suc (suc k)) r
unfolding shift
shift-shift k none = refl
shift-shift k (some i) = ap some (omega arith)

shift_if :
    (k : ℕ) (b : Bool) (r : Option ℕ)
    → shift 1 (if b then some k else shift (suc k) r)
      ≡ (if b then some (suc k) else shift (suc (suc k)) r)
unfolding shift
shift_if k true r = ap some (omega arith)
shift_if k false r = shift-shift k r

absent :
    (c n : ℕ) (s2 s : List ℕ)
    → length s ≤ n + length s2
    → memchr c n s ≡ none
    → leftmost (c ∷ s2) s ≡ none
unfolding memchr leftmost shift
absent c zero s2 s h e = too_short (c ∷ s2) s (omega arith)
absent c (suc n) s2 [] h e = too_short (c ∷ s2) [] (omega arith)
absent c (suc n) s2 (x ∷ s) h e = elim (Bool-cases (x == c)) [
  | inl here ↦ cc (rw here at e)
  | inr not_here ↦
      rw
        (
          other_head c x s2 s not_here,
          absent c n s2 s (omega arith) (shift-none 1 (memchr c n s) (rw not_here at e)),
        )
        refl
]

-- What the search from a first byte at `k` gives.
after : ℕ → ℕ → List ℕ → List ℕ → Option ℕ
after k c s2 s =
    if is_prefix s2 (drop (suc k) s)
    then some k
    else shift (suc k) (leftmost (c ∷ s2) (drop (suc k) s))

present :
    (c n k : ℕ) (s2 s : List ℕ)
    → memchr c n s ≡ some k
    → (leftmost (c ∷ s2) s ≡ after k c s2 s) × (k < n) × (k < length s)
unfolding memchr leftmost after
present c zero k s2 s e = cc
present c (suc n) k s2 [] e = cc
present c (suc n) k s2 (x ∷ s) e = elim (Bool-cases (x == c)) [
  | inl here ↦
      let zero_k : k ≡ 0 = sym (some_injective (rw here at e)) in
      rw (zero_k, same_head c x s2 s here) (refl, omega arith, omega arith)
  | inr not_here ↦
      let (i, found, next_k) = shift-some k (memchr c n s) (rw not_here at e) in
      let (found_at, i_n, i_s) = present c n i s2 s found in
      rw (other_head c x s2 s not_here, next_k, found_at)
        (
          shift_if i (is_prefix s2 (drop (suc i) s)) (leftmost (c ∷ s2) (drop (suc i) s)),
          omega arith,
          omega arith,
        )
]

search_loop_lem :
    (rounds c : ℕ) (s2 s : List ℕ) (l1 : ℕ)
    → l1 ≤ rounds
    → length s ≡ l1 + length s2
    → search_loop rounds c (length s2) s2 s l1 ≡ leftmost (c ∷ s2) s
unfolding search_loop after
search_loop_lem zero c s2 s l1 h e = sym (too_short (c ∷ s2) s (omega arith))
search_loop_lem (suc rounds) c s2 s l1 h e = elim (Bool-cases (l1 == 0)) [
  | inl z ↦ rw z (sym (too_short (c ∷ s2) s (ground arith)))
  | inr nz ↦ rw nz (go (λ s' l h' e'. search_loop_lem rounds c s2 s' l h' e') (memchr c l1 s) refl)
]
  where
    go :
        ((s' : List ℕ) (l : ℕ)
          → l ≤ rounds
          → length s' ≡ l + length s2
          → search_loop rounds c (length s2) s2 s' l ≡ leftmost (c ∷ s2) s')
        → (r : Option ℕ) → memchr c l1 s ≡ r
        → (elim r [
          | none ↦ none
          | some k ↦
              let rest =
                shift
                  (k + 1)
                  (search_loop rounds c (length s2) s2 (drop (k + 1) s) (l1 - (k + 1))) in
              if same_bytes (length s2) (drop (k + 1) s) s2 then some k else rest
        ])
          ≡ leftmost (c ∷ s2) s
    go later none m = sym (absent c l1 s2 s (omega arith) m)
    go later (some k) m =
        let (found_at, k_l1, k_s) = present c l1 k s2 s m in
        let plus_one : k + 1 ≡ suc k = omega arith in
        rw
          (
            plus_one,
            same_bytes-is_prefix s2 (drop (suc k) s) (omega (arith, length-drop (suc k) s)),
            later (drop (suc k) s) (l1 - suc k) (omega arith)
                (omega (arith, length-drop (suc k) s)),
          )
          (sym found_at)

-- `lmemfind` gives the position of the leftmost occurrence of the second string in the first, and
-- fails just when there is none.
pub lmemfind-leftmost : (s1 s2 : List ℕ) → lmemfind s1 s2 ≡ leftmost s2 s1
unfolding lmemfind leftmost is_prefix
lmemfind-leftmost [] [] = refl
lmemfind-leftmost (x ∷ s1) [] = refl
lmemfind-leftmost s1 (c ∷ s2) = elim (Bool-cases (ltb (length s1) (suc (length s2)))) [
  | inl short ↦ rw short (sym (too_short (c ∷ s2) s1 (ground arith)))
  | inr long ↦ rw long (
      search_loop_lem (length s1 - length s2) c s2 s1 (length s1 - length s2) (omega arith)
        (ground arith))
]

is_prefix-length : (p s : List ℕ) → is_prefix p s ≡ true → length p ≤ length s
is_prefix-length p s h = elim (Bool-cases (ltb (length s) (length p))) [
  | inl short ↦ cc (h, no_prefix p s (ground arith))
  | inr fits ↦ ground arith
]

leftmost-inside : (p s : List ℕ) (i : ℕ) → leftmost p s ≡ some i → i + length p ≤ length s
unfolding leftmost
leftmost-inside p [] i e = elim (Bool-cases (is_prefix p [])) [
  | inl here ↦ omega (arith, some_injective (rw here at e), is_prefix-length p [] here)
  | inr not_here ↦ cc (rw not_here at e)
]
leftmost-inside p (x ∷ s) i e = elim (Bool-cases (is_prefix p (x ∷ s))) [
  | inl here ↦ omega (arith, some_injective (rw here at e), is_prefix-length p (x ∷ s) here)
  | inr not_here ↦
      let (j, found, next_j) = shift-some i (leftmost p s) (rw not_here at e) in
      omega (arith, leftmost-inside p s j found)
]

pub lmemfind-inside : (s1 s2 : List ℕ) (i : ℕ) → lmemfind s1 s2 ≡ some i → i + length s2 ≤ length s1
lmemfind-inside s1 s2 i e = leftmost-inside s2 s1 i (sym (lmemfind-leftmost s1 s2) ∙ e)
