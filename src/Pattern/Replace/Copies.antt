-- ===== src/Pattern/Replace/Copies.antt =====
-- `string.gsub` as a whole, and with the match for its replacement.
use qyz_client_lua.Base.{
  drop-drop, ℕ, ℤ, zero, suc, ◌+◌, ◌-◌, ◌<◌, ◌≤◌, ◌≡◌, refl, sym, ap, ◌∙◌, Bool, true, false, not,
  List, [], ◌∷◌, ◌++◌, append_assoc, append-nil, Option, some, ◌==◌, if◌then◌else◌, length, take,
  drop, get_or, arith,
}
use qyz_client_lua.Char.{lj_char_isa, lj_char_bits, is_digit}
use qyz_client_lua.Pattern.Class.{Result, ok, err, out_of_fuel, ◌>>=◌}
use qyz_client_lua.Pattern.Match.{Capture, MatchState, lua_maxcaptures}
use qyz_client_lua.Pattern.Match.Captures.{Sure}
use qyz_client_lua.Pattern.Find.{push_captures, push_onecapture}
use qyz_client_lua.Pattern.Find.Answers.{push_captures-Sure, push_onecapture-Sure}
use qyz_client_lua.Pattern.Replace.{
  Repl, news, func, table, Reply, falsy, other, text, matched, add_s, reply_text, add_value,
  max_count, string_gsub,
}
use qyz_client_lua.Pattern.Replace.Rules.{Rules, string_gsub-IsFine}

take-drop : (n : ℕ) (xs : List ℕ) → take n xs ++ drop n xs ≡ xs
take-drop zero xs = refl
take-drop (suc n) [] = refl
take-drop (suc n) (x ∷ xs) = ap (◌∷◌ x) (take-drop n xs)

drop_byte : (i : ℕ) (xs : List ℕ) → i < length xs → get_or xs i 0 ∷ drop (i + 1) xs ≡ drop i xs
drop_byte i [] h = absurd (omega arith)
drop_byte zero (x ∷ xs) h = refl
drop_byte (suc i) (x ∷ xs) h =
    let e : suc i + 1 ≡ suc (i + 1) = omega arith in rw e (drop_byte i xs (omega arith))

abbrev Ends : {A : Type 0} → Result A → Type 0
Ends r = Sure (λ a. Unit {0}) r

then-Ends :
    {A B : Type 0} (r : Result A) (k : A → Result B)
    → Ends r
    → ((a : A) → Ends (k a))
    → Ends (r >>= k)
then-Ends (ok a) k h f = f a
then-Ends (err m) k h f = tt
then-Ends out_of_fuel k h f = h

if-Ends : {A : Type 0} (t : Bool) (a b : Result A) → Ends a → Ends b → Ends (if t then a else b)
if-Ends true a b h k = h
if-Ends false a b h k = k

abbrev pub itself : Repl
itself = news (b'%' ∷ b'0' ∷ [])

module _ (number : ℕ → List ℕ) where
  add_s-Ends : (ms : MatchState) (s e : ℕ) (t : List ℕ) → Ends (add_s number ms s e t)
  unfolding add_s
  add_s-Ends ms s e [] = tt
  add_s-Ends ms s e (c ∷ []) = tt
  add_s-Ends ms s e (c ∷ d ∷ cs) =
      let rest = add_s-Ends ms s e cs in
      if-Ends (not (c == b'%')) _ _
        (then-Ends (add_s number ms s e (d ∷ cs)) _ (add_s-Ends ms s e (d ∷ cs)) (λ t. tt))
        (if-Ends (lj_char_isa d is_digit == 0) _ _
          (then-Ends (add_s number ms s e cs) _ rest (λ t. tt))
          (if-Ends (d == b'0') _ _ (then-Ends (add_s number ms s e cs) _ rest (λ t. tt)) (
            then-Ends (push_onecapture ms (d - b'1') (some (s, e))) _
              (push_onecapture-Sure ms (d - b'1') (some (s, e)))
              (λ v. then-Ends (add_s number ms s e cs) _ rest (λ t. tt)))))

  reply_text-Ends : (ms : MatchState) (s e : ℕ) (r : Reply) → Ends (reply_text number ms s e r)
  unfolding reply_text
  reply_text-Ends ms s e falsy = tt
  reply_text-Ends ms s e other = tt
  reply_text-Ends ms s e (text t) = tt

  add_value-Ends : (ms : MatchState) (s e : ℕ) (r : Repl) → Ends (add_value number ms s e r)
  unfolding add_value
  add_value-Ends ms s e (news t) = add_s-Ends ms s e t
  add_value-Ends ms s e (func f) =
      then-Ends (push_captures ms (some (s, e))) _ (push_captures-Sure ms (some (s, e)))
        (λ vs. reply_text-Ends ms s e (f vs))
  add_value-Ends ms s e (table f) =
      then-Ends (push_onecapture ms 0 (some (s, e))) _ (push_onecapture-Sure ms 0 (some (s, e)))
        (λ v. reply_text-Ends ms s e (f v))

  any_text : (repl : Repl) (s : List ℕ) → Rules number repl s
  any_text repl s = record {
    Adds = λ src e t. Unit;
    Whole = λ src t. Unit;
    nothing = λ src. tt;
    one_byte = λ src t l a. tt;
    glue = λ src e t u a w. tt;
    rest = λ src. tt;
    replaced = λ ms src e q h k. add_value-Ends ms src e repl;
  }

  -- Whatever the pattern and the replacement are, `string.gsub` ends: with an error, or with a text
  -- and a count of substitutions that is not above the fourth argument.
  pub string_gsub-count :
      (capture : List Capture) (s p : List ℕ) (repl : Repl) (limit : Option ℤ)
      → length capture ≡ lua_maxcaptures
      → Sure
          (λ (t, m). m ≤ max_count number limit (length s))
          (string_gsub number capture s p repl limit)
  unfolding any_text
  string_gsub-count capture s p repl limit c = weaken (string_gsub number capture s p repl limit) (
      string_gsub-IsFine number repl s (any_text repl s) (max_count number limit (length s)) capture
        p limit c refl)
    where
      weaken :
          (r : Result (List ℕ × ℕ))
          → Sure (λ (t, m). Unit {0} × (m ≤ max_count number limit (length s))) r
          → Sure (λ (t, m). m ≤ max_count number limit (length s)) r
      weaken (ok (t, m)) (u, h) = h
      weaken (err x) h = tt
      weaken out_of_fuel h = h

  copied :
      (ms : MatchState) (src e : ℕ) → add_value number ms src e itself ≡ ok (matched ms src e ++ [])
  unfolding add_value add_s lj_char_isa lj_char_bits
  copied ms src e = refl

  same_text : (s : List ℕ) → Rules number itself s
  same_text s = record {
    Adds = λ src e t. t ++ drop e s ≡ drop src s;
    Whole = λ src t. t ≡ drop src s;
    nothing = λ src. refl;
    one_byte = λ src t l a. append_assoc t _ _ ∙ ap (λ u. t ++ u) (drop_byte src s l) ∙ a;
    glue = λ src e t u a w. ap (λ v. t ++ v) w ∙ a;
    rest = λ src. refl;
    replaced = λ ms src e q h k.
        let far : src + (e - src) ≡ e = omega arith in
        let parts : take (e - src) (drop src s) ++ drop e s ≡ drop src s =
          ap (λ u. take (e - src) (drop src s) ++ u)
            (ap (λ (i : ℕ). drop i s) (sym far) ∙ sym (drop-drop src (e - src) s))
          ∙ take-drop (e - src) (drop src s) in
        rw (copied ms src e, append-nil, q) parts;
  }

  -- With `%0` for its replacement, `string.gsub` ends with an error or with the subject as it was, and
  -- a count that is not above the fourth argument.
  pub string_gsub-copy :
      (capture : List Capture) (s p : List ℕ) (limit : Option ℤ)
      → length capture ≡ lua_maxcaptures
      → Sure
          (λ (t, m). (t ≡ s) × (m ≤ max_count number limit (length s)))
          (string_gsub number capture s p itself limit)
  unfolding same_text
  string_gsub-copy capture s p limit c =
      string_gsub-IsFine number itself s (same_text s) (max_count number limit (length s)) capture p
        limit c refl
