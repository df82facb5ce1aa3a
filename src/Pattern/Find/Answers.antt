-- ===== src/Pattern/Find/Answers.antt =====
-- What `string.find` and `string.match` answer.
use qyz_client_lua.Base.{
  ℕ, zero, suc, ◌+◌, ◌-◌, ◌<◌, ◌≤◌, ◌≡◌, inl, inr, Bool, true, false, not, ◌&&◌, ◌||◌, List, [],
  ◌∷◌, Option, none, some, leb, ltb, ◌==◌, if◌then◌else◌, drop, length, arith, Bool-cases,
}
use qyz_client_lua.Pattern.Class.{ErrMsg, at, next, Result, ok, err, out_of_fuel, ◌>>=◌}
use qyz_client_lua.Pattern.Match.{
  CapLen, unfinished, position, MatchState, Found, lua_maxcaptures, capture_at, match,
}
use qyz_client_lua.Pattern.Match.Bounds.{size, IsValid}
use qyz_client_lua.Pattern.Match.Captures.{Sure}
use qyz_client_lua.Pattern.Plain.Leftmost.{is_prefix}
use qyz_client_lua.Base.{ℤ, pos, negsuc, ◌⊎◌}
use qyz_client_lua.Pattern.Find.{
  Value, nil, integer, push_len, push_onecapture, captures_from, push_captures, has_specials, reset,
}

-- The first position, from 0: the third argument counts from 1, or from the end if it is negative.
abbrev pub start_at : ℤ → ℕ → ℕ
start_at (pos zero) n = 0
start_at (pos (suc k)) n = if ltb n k then n else k
start_at (negsuc k) n = n - suc k

-- What an attempt to match at the position `j` gives, whatever earlier attempts left in the captures.
abbrev pub Tries : List ℕ → List ℕ → ℕ → Result Found → Type 0
Tries s p j r = (ms : MatchState) × (ms.src ≡ s) × (match (suc (length p)) (reset ms) j p ≡ r)

-- No match at the positions from `i` on before `j`.
abbrev pub FailsBefore : List ℕ → List ℕ → ℕ → ℕ → Type 0
FailsBefore s p i j = (k : ℕ) → i ≤ k → k < j → (m : MatchState) × Tries s p k (ok (none, m))

-- The results for a match from `j` to `e`: the bounds, counted from 1, in front of the captures for
-- `string.find`, the captures, or else the match, for `string.match`.
unfoldable pub reported : Bool → ℕ → ℕ → MatchState → Result (List Value)
reported true j e m = push_captures m none >>= λ vs. ok (integer (j + 1) ∷ integer e ∷ vs)
reported false j e m = push_captures m (some (j, e))

-- The first position, up to `last`, at which there is a match, or at which an attempt is an error.
abbrev pub Decides : Bool → List ℕ → List ℕ → ℕ → Result (List Value) → Type 0
Decides find s p j r =
    ((e : ℕ) × (m : MatchState) × Tries s p j (ok (some e, m))
      × (j ≤ e)
      × (e ≤ length s)
      × (r ≡ reported find j e m))
    ⊎ ((msg : ErrMsg) × Tries s p j (err msg) × (r ≡ err msg))

abbrev pub Searched : Bool → List ℕ → List ℕ → ℕ → ℕ → Result (List Value) → Type 0
Searched find s p init last r =
    (FailsBefore s p init (suc last) × (r ≡ ok (nil ∷ [])))
    ⊎ ((j : ℕ) × (init ≤ j) × (j ≤ last) × FailsBefore s p init j × Decides find s p j r)

-- The first occurrence from `init` on.
abbrev pub Occurs : List ℕ → List ℕ → ℕ → Result (List Value) → Type 0
Occurs s p init r =
    (((j : ℕ) → init ≤ j → is_prefix p (drop j s) ≡ false) × (r ≡ ok (nil ∷ [])))
    ⊎ ((j : ℕ) × (init ≤ j)
        × (is_prefix p (drop j s) ≡ true)
        × ((k : ℕ) → init ≤ k → k < j → is_prefix p (drop k s) ≡ false)
        × (j + length p ≤ length s)
        × (r ≡ ok (integer (j + 1) ∷ integer (j + length p) ∷ [])))

-- A plain search or one by patterns; a pattern that begins with `^` is tried at the first position only.
abbrev pub Answers : Bool → Bool → List ℕ → List ℕ → ℕ → Result (List Value) → Type 0
Answers true find s p init r = Occurs s p init r
Answers false find s p init r =
    Searched find s (if at p == b'^' then next p else p) init
      (if at p == b'^' then init else length s) r

abbrev pub IsAnswer : List ℕ → List ℕ → ℤ → Bool → Bool → Result (List Value) → Type 0
IsAnswer s p start plain find r =
    Sure (λ vs. Unit {0}) r
    × Answers (find && (plain || not (has_specials p))) find s p (start_at start (length s)) r

bind-Sure :
    {A B : Type 0} (r : Result A) (k : A → Result B)
    → Sure (λ a. Unit {0}) r
    → ((a : A) → Sure (λ b. Unit {0}) (k a))
    → Sure (λ b. Unit {0}) (r >>= k)
bind-Sure (ok a) k h f = f a
bind-Sure (err m) k h f = tt
bind-Sure out_of_fuel k h f = h

push_len-Sure : (ms : MatchState) (i : ℕ) (l : CapLen) → Sure (λ v. Unit {0}) (push_len ms i l)
unfolding push_len
push_len-Sure ms i unfinished = tt
push_len-Sure ms i position = tt
push_len-Sure ms i (CapLen.len n) = tt

pub push_onecapture-Sure :
    (ms : MatchState) (i : ℕ) (w : Option (ℕ × ℕ)) → Sure (λ v. Unit {0}) (push_onecapture ms i w)
unfolding push_onecapture
push_onecapture-Sure ms i w = elim (Bool-cases (leb ms.level i)) [
  | inl beyond ↦ elim (Bool-cases (i == 0)) [
    | inl z ↦ rw (beyond, z) tt
    | inr nz ↦ rw (beyond, nz) tt
  ]
  | inr within ↦ rw within (push_len-Sure ms (capture_at ms i).init (capture_at ms i).len)
]

captures_from-Sure :
    (ms : MatchState) (w : Option (ℕ × ℕ)) (i left : ℕ)
    → Sure (λ vs. Unit {0}) (captures_from ms w i left)
unfolding captures_from
captures_from-Sure ms w i zero = tt
captures_from-Sure ms w i (suc left) =
    bind-Sure (push_onecapture ms i w) _ (push_onecapture-Sure ms i w) λ v.
      bind-Sure (captures_from ms w (i + 1) left) _ (captures_from-Sure ms w (i + 1) left) λ vs. tt

pub push_captures-Sure :
    (ms : MatchState) (w : Option (ℕ × ℕ)) → Sure (λ vs. Unit {0}) (push_captures ms w)
unfolding push_captures
push_captures-Sure ms none = captures_from-Sure ms none 0 ms.level
push_captures-Sure ms (some w) =
    captures_from-Sure ms (some w) 0 (if ms.level == 0 then 1 else ms.level)

pub reset-IsValid :
    (ms : MatchState) (s1 : ℕ)
    → length ms.capture ≡ lua_maxcaptures
    → s1 ≤ size ms
    → IsValid (reset ms) s1
reset-IsValid ms s1 c h = record {
  inside = h;
  slots = c;
  level = omega arith;
  starts = λ i l. absurd (omega arith);
  fits = λ i l. absurd (omega arith);
}
