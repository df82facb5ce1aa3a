-- ===== src/Strs/Intern/Canonical.antt =====
-- The objects for the bytes of two requests.
use mathlib.Core.Option as Option
use qyz_client_lua.Base.{
  ℕ, ◌<◌, ◌≡◌, ◌↔◌, refl, sym, ap, subst, ◌∙◌, inl, inr, Bool, true, false, ◌&&◌, Option, none,
  some, leb, ◌==◌, ==_refl, arith, Bool-cases,
}
use qyz_client_lua.Strs.{memcmp}
use qyz_client_lua.Strs.Equal.{memcmp-sym, memcmp_trans}
use qyz_client_lua.Strs.Intern.{StrObj, StrTab, Request, lj_max_str, intern, lj_str_new}
use qyz_client_lua.Strs.Intern.Table.{Same, Same-refl, IsInterned, Holds}
use qyz_client_lua.Strs.Intern.Answer.{IsRequest, IsPresent, IsAnswer, Holds-Same, intern-IsAnswer}

-- Of two strings that are there, the addresses are the same just when the bytes are.
IsPresent-Same :
    (g : StrTab) (o p : StrObj)
    → IsInterned g
    → IsPresent g o
    → IsPresent g p
    → (o.address ≡ p.address) ↔ Same o p
IsPresent-Same g o p h (inl e) (inl f) = (
  λ a. subst (λ x. Same o x) (e ∙ sym f) (Same-refl o),
  λ s. ap (λ (x : StrObj). x.address) (e ∙ sym f),
)
IsPresent-Same g o p h (inl e) (inr b) = (
  λ a. absurd (h.not_empty _ p b (sym a ∙ ap (λ (x : StrObj). x.address) e)),
  λ s.
      let z : o.len ≡ 0 = ap (λ (x : StrObj). x.len) e ∙ h.empty_len in
      let l = h.filled _ p b in absurd (omega (arith, s.0)),
)
IsPresent-Same g o p h (inr a) (inl f) = (
  λ e. absurd (h.not_empty _ o a (e ∙ ap (λ (x : StrObj). x.address) f)),
  λ s.
      let z : p.len ≡ 0 = ap (λ (x : StrObj). x.len) f ∙ h.empty_len in
      let l = h.filled _ o a in absurd (omega (arith, s.0)),
)
IsPresent-Same g o p h (inr a) (inr b) = (h.apart _ _ o p a b, h.single _ _ o p a b)

-- Answers of equal requests are equal, and of unequal ones unequal.
Holds-iff :
    (r q : Request) (o p : StrObj)
    → Holds r o
    → Holds q p
    → Same o p ↔ ((q.len == r.len && memcmp r.str q.str 0 r.len) ≡ true)
Holds-iff r q o p h k = (
  λ s.
      let (e, f) = Holds-Same r o p h s in
      let len : q.len ≡ r.len = sym k.0 ∙ e in
      let back : memcmp p.bytes q.str 0 r.len ≡ true =
        memcmp-sym q.str p.bytes r.len (subst (λ n. memcmp q.str p.bytes 0 n ≡ true) len k.1) in
      rw (len, ==_refl r.len) (memcmp_trans r.str p.bytes q.str r.len f back),
  λ t.
      let len : q.len ≡ r.len = ground arith in
      let mid : memcmp r.str q.str 0 r.len ≡ true = ground arith in
      let end : memcmp q.str p.bytes 0 r.len ≡ true =
        subst (λ n. memcmp q.str p.bytes 0 n ≡ true) len k.1 in
      let back : memcmp o.bytes r.str 0 r.len ≡ true = memcmp-sym r.str o.bytes r.len h.1 in
      (
        h.0 ∙ sym len ∙ sym k.0,
        subst (λ n. memcmp o.bytes p.bytes 0 n ≡ true) (sym h.0)
            (memcmp_trans o.bytes r.str p.bytes r.len back
              (memcmp_trans r.str q.str p.bytes r.len mid end)),
      ),
)

==_of_iff : (x y : ℕ) (b : Bool) → ((x ≡ y) ↔ (b ≡ true)) → (x == y) ≡ b
==_of_iff x y true h = let e = h.1 refl in ground arith
==_of_iff x y false h = elim (Bool-cases (x == y)) [
  | inl same ↦ let e : x ≡ y = ground arith in same ∙ sym (h.0 e)
  | inr other ↦ other
]

-- Whether a further request is answered by the object of the first answer.
unfoldable pub same_object : Request → Option (StrObj × StrTab) → Option Bool
same_object q none = none
same_object q (some (o, t)) = Option.map (λ a. a.0.address == o.address) (lj_str_new t q)

-- Whether two requests, one after the other, are answered by one object.
unfoldable pub one_object : StrTab → Request → Request → Option Bool
one_object g r q = same_object q (lj_str_new g r)

lj_str_new-short :
    (g : StrTab) (r : Request) → r.len < lj_max_str → lj_str_new g r ≡ some (intern g r)
unfolding lj_str_new
lj_str_new-short g r l = let short : leb lj_max_str r.len ≡ false = ground arith in rw short refl

-- A request for fewer than LJ_MAX_STR bytes is answered; the answer holds the bytes and is in the
-- table, which keeps its invariant and the strings it had.
pub lj_str_new-IsAnswer :
    (g : StrTab) (r : Request)
    → IsInterned g
    → IsRequest g r
    → r.len < lj_max_str
    → (a : StrObj × StrTab) × (lj_str_new g r ≡ some a) × IsAnswer g r a
lj_str_new-IsAnswer g r h q l = (intern g r, lj_str_new-short g r l, intern-IsAnswer g r h q)

-- Two requests, one after the other, are answered by the same object just when they are for the same
-- bytes.
pub lj_str_new-canonical :
    (g : StrTab) (r q : Request)
    → IsInterned g
    → IsRequest g r
    → IsRequest (intern g r).1 q
    → r.len < lj_max_str
    → q.len < lj_max_str
    → one_object g r q ≡ some (q.len == r.len && memcmp r.str q.str 0 r.len)
unfolding one_object same_object
lj_str_new-canonical g r q h k l m n =
    let a = intern-IsAnswer g r h k in
    let b = intern-IsAnswer (intern g r).1 q a.interned l in
    let o = (intern g r).0 in
    let p = (intern (intern g r).1 q).0 in
    let i = IsPresent-Same _ o p b.interned (b.kept o a.present) b.present in
    let j = Holds-iff r q o p a.holds b.holds in
    ap (same_object q) (lj_str_new-short g r m)
    ∙ ap (Option.map (λ (b : StrObj × StrTab). b.0.address == o.address))
        (lj_str_new-short (intern g r).1 q n)
    ∙ ap some (==_of_iff p.address o.address _ (λ e. j.0 (i.0 (sym e)), λ e. sym (i.1 (j.1 e))))
