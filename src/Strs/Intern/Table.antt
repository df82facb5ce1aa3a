-- ===== src/Strs/Intern/Table.antt =====
-- The invariant of the string table, and what a search of a chain finds.
use Prim.Native.Nat.{bit_and}
use qyz_client_lua.Base.{
  ℕ, ◌<◌, ◌≡◌, ◌≢◌, refl, sym, ap, subst, ◌∙◌, inl, inr, Bool, true, false, ◌&&◌, none, some, List,
  [], ◌∷◌, ◌==◌, ==_refl, arith, Bool-cases, Among, first, later, Among-cases,
}
use qyz_client_lua.Strs.{memcmp}
use qyz_client_lua.Strs.Compare.{AreBytes}
use qyz_client_lua.Strs.Equal.{str_fastcmp-memcmp, memcmp_refl, memcmp-sym}
use qyz_client_lua.Strs.Intern.{StrObj, StrTab, Request, str_hash, fast_path, matches, lookup}

abbrev pub Same : StrObj → StrObj → Type 0
Same o p = (o.len ≡ p.len) × (memcmp o.bytes p.bytes 0 o.len ≡ true)

-- Each string stands in the chain of its hash; equal strings are one object, and an object is one
-- string; the empty string is not in the table.
pub record IsInterned (g : StrTab) : Type 0 where
  pub placed : (i : ℕ) (o : StrObj) → Among o (g.strhash i) → i ≡ bit_and o.hash g.strmask
  pub hashed : (i : ℕ) (o : StrObj) → Among o (g.strhash i) → o.hash ≡ str_hash o.bytes o.len
  pub filled : (i : ℕ) (o : StrObj) → Among o (g.strhash i) → 0 < o.len
  pub bytewise : (i : ℕ) (o : StrObj) → Among o (g.strhash i) → AreBytes o.bytes
  pub single :
      (i j : ℕ) (o p : StrObj)
      → Among o (g.strhash i)
      → Among p (g.strhash j)
      → Same o p
      → o.address ≡ p.address
  pub apart :
      (i j : ℕ) (o p : StrObj)
      → Among o (g.strhash i)
      → Among p (g.strhash j)
      → o.address ≡ p.address
      → Same o p
  pub not_empty : (i : ℕ) (o : StrObj) → Among o (g.strhash i) → o.address ≢ g.strempty.address
  pub empty_len : g.strempty.len ≡ 0

-- An object that stands in its chain.
abbrev pub IsHome : StrTab → StrObj → Type 0
IsHome g o = Among o (g.strhash (bit_and o.hash g.strmask))

pub Same-refl : (o : StrObj) → Same o o
Same-refl o = (refl, memcmp_refl o.bytes o.len)

pub Same-sym : (o p : StrObj) → Same o p → Same p o
Same-sym o p (e, h) =
    (sym e, subst (λ n. memcmp p.bytes o.bytes 0 n ≡ true) e (memcmp-sym o.bytes p.bytes o.len h))

-- The mark of a dead string does not matter.
pub dead-IsInterned :
    (g : StrTab) (d : ℕ → Bool) (n : ℕ)
    → IsInterned g
    → IsInterned (record g { dead = d; strnum = n })
dead-IsInterned g d n h = record {
  placed = h.placed;
  hashed = h.hashed;
  filled = h.filled;
  bytewise = h.bytewise;
  single = h.single;
  apart = h.apart;
  not_empty = h.not_empty;
  empty_len = h.empty_len;
}

matches-memcmp :
    (r : Request) (o : StrObj)
    → AreBytes r.str
    → AreBytes o.bytes
    → 0 < r.len
    → matches r o ≡ (o.len == r.len && memcmp r.str o.bytes 0 r.len)
unfolding matches
matches-memcmp r o h k l =
    rw (str_fastcmp-memcmp r.str o.bytes r.len h k l)
      (elim (Bool-cases (fast_path r)) [ inl e ↦ rw e refl | inr e ↦ rw e refl ])

-- What a request asks for.
abbrev pub Holds : Request → StrObj → Type 0
Holds r o = (o.len ≡ r.len) × (memcmp r.str o.bytes 0 r.len ≡ true)

pub matches→Holds :
    (r : Request) (o : StrObj)
    → AreBytes r.str
    → AreBytes o.bytes
    → 0 < r.len
    → matches r o ≡ true
    → Holds r o
matches→Holds r o h k l e =
    let f : (o.len == r.len && memcmp r.str o.bytes 0 r.len) ≡ true =
      sym (matches-memcmp r o h k l) ∙ e in
    (ground arith, ground arith)

pub Holds→matches :
    (r : Request) (o : StrObj)
    → AreBytes r.str
    → AreBytes o.bytes
    → 0 < r.len
    → Holds r o
    → matches r o ≡ true
Holds→matches r o h k l (e, f) = matches-memcmp r o h k l ∙ rw (e, f, ==_refl r.len) refl

pub lookup-some :
    (r : Request) (l : List StrObj) (o : StrObj)
    → lookup r l ≡ some o
    → Among o l × (matches r o ≡ true)
unfolding lookup
lookup-some r [] o h = absurd (ground (arith, h))
lookup-some r (p ∷ next) o h = elim (Bool-cases (matches r p)) [
  | inl here ↦ let e : o ≡ p = cc (rw here at h) in (first e, ap (matches r) e ∙ here)
  | inr other ↦ let (m, k) = lookup-some r next o (rw other at h) in (later m, k)
]

pub lookup-none :
    (r : Request) (l : List StrObj) (o : StrObj)
    → lookup r l ≡ none
    → Among o l
    → matches r o ≡ false
unfolding lookup
lookup-none r [] o h m = elim m [ ]
lookup-none r (p ∷ next) o h m = elim (Bool-cases (matches r p)) [
  | inl here ↦ cc (rw here at h)
  | inr other ↦ elim (Among-cases m) [
    | inl e ↦ ap (matches r) e ∙ other
    | inr rest ↦ lookup-none r next o (rw other at h) rest
  ]
]
