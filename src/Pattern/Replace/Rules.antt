-- ===== src/Pattern/Replace/Rules.antt =====
-- The loop of `string.gsub`, for properties of the texts that are added and of the rest of the
-- subject.
use qyz_client_lua.Base.{
  ℕ, ℤ, zero, suc, ◌+◌, ◌<◌, ◌≤◌, ◌≡◌, refl, sym, ap, subst, ◌∙◌, inl, inr, Bool, true, false, List,
  [], ◌∷◌, ◌++◌, Option, none, some, leb, ltb, ◌==◌, if◌then◌else◌, length, drop, get_or, arith,
  Bool-cases,
}
use qyz_client_lua.Pattern.Class.{at, next, Result, ok, err, out_of_fuel, ◌>>=◌}
use qyz_client_lua.Pattern.Match.{Capture, MatchState, Found, byte, lua_maxcaptures, match}
use qyz_client_lua.Pattern.Match.Bounds.{Good}
use qyz_client_lua.Pattern.Match.Captures.{Sure}
use qyz_client_lua.Pattern.Match.Total.{match-Good}
use qyz_client_lua.Pattern.Find.{reset}
use qyz_client_lua.Pattern.Find.Answers.{reset-IsValid}
use qyz_client_lua.Pattern.Replace.{
  Repl, add_value, finish, Again, go_on, advance, gsub_loop, max_count, string_gsub,
}

-- What is said of the texts that are added, and of the whole from a position on.
pub record Rules (number : ℕ → List ℕ) (repl : Repl) (s : List ℕ) : Type 1 where
  pub Adds : ℕ → ℕ → List ℕ → Type 0
  pub Whole : ℕ → List ℕ → Type 0
  pub nothing : (src : ℕ) → Adds src src []
  pub one_byte :
      (src : ℕ) (t : List ℕ)
      → src < length s
      → Adds src src t
      → Adds src (src + 1) (t ++ get_or s src 0 ∷ [])
  pub glue : (src e : ℕ) (t u : List ℕ) → Adds src e t → Whole e u → Whole src (t ++ u)
  pub rest : (src : ℕ) → Whole src (drop src s)
  pub replaced :
      (ms : MatchState) (src e : ℕ)
      → ms.src ≡ s
      → src ≤ e
      → e ≤ length s
      → Sure (Adds src e) (add_value number ms src e repl)

module _ (number : ℕ → List ℕ) (repl : Repl) (s : List ℕ) (rules : Rules number repl s)
    (max : ℕ) where
  abbrev pub IsFine : ℕ → Result (List ℕ × ℕ) → Type 0
  IsFine src r = Sure (λ (t, m). rules.Whole src t × (m ≤ max)) r

  -- The rounds from a later position on are fine.
  abbrev Later : ℕ → Again number → Type 0
  Later src again =
      (ms : MatchState) (src' n : ℕ)
      → ms.src ≡ s
      → length ms.capture ≡ lua_maxcaptures
      → src < src'
      → src' ≤ length s
      → n ≤ max
      → IsFine src' (again ms src' n)

  finish-IsFine :
      (ms : MatchState) (src e n : ℕ) (t : List ℕ)
      → ms.src ≡ s
      → n ≤ max
      → rules.Adds src e t
      → IsFine src (finish number ms e n t)
  unfolding finish
  finish-IsFine ms src e n t q h a = rw q (rules.glue src e t (drop e s) a (rules.rest e), h)

  go_on-IsFine :
      (again : Again number) (anchor : Bool) (ms : MatchState) (src e n : ℕ) (t : List ℕ)
      → ms.src ≡ s
      → length ms.capture ≡ lua_maxcaptures
      → n ≤ max
      → src < e
      → e ≤ length s
      → rules.Adds src e t
      → Later src again
      → IsFine src (go_on number again anchor ms e n t)
  unfolding go_on
  go_on-IsFine again true ms src e n t q c h l k a later = finish-IsFine ms src e n t q h a
  go_on-IsFine again false ms src e n t q c h l k a later =
      join (again ms e n) (later ms e n q c l k h)
    where
      join : (r : Result (List ℕ × ℕ)) → IsFine e r → IsFine src (r >>= (λ (u, m). ok (t ++ u, m)))
      join (ok (u, m)) (w, b) = (rules.glue src e t u a w, b)
      join (err x) f = tt
      join out_of_fuel f = f

  advance-IsFine :
      (again : Again number) (anchor : Bool) (ms : MatchState) (src e n : ℕ) (t : List ℕ)
      → ms.src ≡ s
      → length ms.capture ≡ lua_maxcaptures
      → n ≤ max
      → src ≤ e
      → e ≤ length s
      → rules.Adds src e t
      → Later src again
      → IsFine src (advance number again anchor ms src e n t)
  unfolding advance
  advance-IsFine again anchor ms src e n t q c h l k a later = elim (Bool-cases (ltb src e)) [
    | inl moved ↦ rw moved (go_on-IsFine again anchor ms src e n t q c h (ground arith) k a later)
    | inr empty ↦
        let same : e ≡ src = ground arith in
        let here : rules.Adds src src t = subst (λ (x : ℕ). rules.Adds src x t) same a in
        elim (Bool-cases (ltb src (length ms.src))) [
          | inl more ↦
              rw (empty, more)
                (go_on-IsFine again anchor ms src (src + 1) n (t ++ byte ms src ∷ []) q c h
                  (omega arith) (ground (arith, ap length q))
                  (rw q (rules.one_byte src t (ground (arith, ap length q)) here)) later)
          | inr none_left ↦ rw (empty, none_left) (finish-IsFine ms src src n t q h here)
        ]
  ]

  round-IsFine :
      (again : Again number) (anchor : Bool) (ms : MatchState) (src n : ℕ) (r : Result Found)
      → ms.src ≡ s
      → length ms.capture ≡ lua_maxcaptures
      → n < max
      → src ≤ length s
      → Good (reset ms) src r
      → Later src again
      → IsFine src (
          r >>= λ (o, ms'). elim o [
            | none ↦ advance number again anchor ms' src src n []
            | some e ↦
                add_value number ms' src e repl
                >>= (λ t. advance number again anchor ms' src e (n + 1) t)
          ])
  round-IsFine again anchor ms src n (ok (none, m)) q c h l g later =
      advance-IsFine again anchor m src src n [] (g.src ∙ q) (g.slots ∙ c) (omega arith)
        (omega arith) l (rules.nothing src) later
  round-IsFine again anchor ms src n (ok (some e, m)) q c h l g later =
      added (add_value number m src e repl) (rules.replaced m src e (g.src ∙ q) g.forward inside)
    where
      inside : e ≤ length s
      inside = omega (arith, g.valid.inside, ap length (g.src ∙ q))

      added :
          (r : Result (List ℕ))
          → Sure (rules.Adds src e) r
          → IsFine src (r >>= (λ t. advance number again anchor m src e (n + 1) t))
      added (ok t) a =
          advance-IsFine again anchor m src e (n + 1) t (g.src ∙ q) g.valid.slots (omega arith)
            g.forward inside a later
      added (err x) a = tt
      added out_of_fuel a = a
  round-IsFine again anchor ms src n (err x) q c h l g later = tt
  round-IsFine again anchor ms src n out_of_fuel q c h l g later = g

  gsub_loop-IsFine :
      (rounds : ℕ) (anchor : Bool) (p : List ℕ) (ms : MatchState) (src n : ℕ)
      → ms.src ≡ s
      → length ms.capture ≡ lua_maxcaptures
      → n ≤ max
      → src ≤ length s
      → length s < src + rounds
      → IsFine src (gsub_loop number rounds repl anchor p max ms src n)
  unfolding gsub_loop
  gsub_loop-IsFine zero anchor p ms src n q c h l k = absurd (omega arith)
  gsub_loop-IsFine (suc rounds) anchor p ms src n q c h l k = elim (Bool-cases (leb max n)) [
    | inl full ↦ rw full (finish-IsFine ms src src n [] q h (rules.nothing src))
    | inr room ↦ rw room (
        round-IsFine (λ ms src n. gsub_loop number rounds repl anchor p max ms src n) anchor ms src
          n (match (suc (length p)) (reset ms) src p) q c (ground arith) l
          (match-Good (suc (length p)) (reset ms) src p (omega arith)
            (reset-IsValid ms src c (omega (arith, ap length q))))
          λ ms' src' n' q' c' l' k' h'.
            gsub_loop-IsFine rounds anchor p ms' src' n' q' c' h' k' (omega arith))
  ]

  pub string_gsub-IsFine :
      (capture : List Capture) (p : List ℕ) (limit : Option ℤ)
      → length capture ≡ lua_maxcaptures
      → max ≡ max_count number limit (length s)
      → IsFine 0 (string_gsub number capture s p repl limit)
  unfolding string_gsub
  string_gsub-IsFine capture p limit c e = rw (sym e) (
      gsub_loop-IsFine (length s + 2) (at p == b'^') (if at p == b'^' then next p else p)
        (record { src = s; level = 0; depth = 0; capture = capture }) 0 0 refl c (omega arith)
        (omega arith) (omega arith))
