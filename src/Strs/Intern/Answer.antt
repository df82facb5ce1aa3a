-- ===== src/Strs/Intern/Answer.antt =====
-- What a request for a string leaves.
use Prim.Native.Nat.{bit_and}
use qyz_client_lua.Base.{
  ℕ, ◌<◌, ◌≡◌, ◌≢◌, ◌⊎◌, refl, sym, subst, ◌∙◌, inl, inr, true, false, none, ltb, ◌==◌, arith,
  Bool-cases, Option-cases, Among, put,
}
use qyz_client_lua.Strs.{memcmp}
use qyz_client_lua.Strs.Compare.{AreBytes}
use qyz_client_lua.Strs.Equal.{memcmp-of, memcmp_trans}
use qyz_client_lua.Strs.Intern.{
  StrObj, StrTab, Request, str_hash, lookup, matches, resurrect, new_object, add_object, intern,
}
use qyz_client_lua.Strs.Intern.Hash.{str_hash-same}
use qyz_client_lua.Strs.Intern.Table.{
  Same, IsInterned, IsHome, Holds, Holds→matches, matches→Holds, dead-IsInterned, lookup-some,
  lookup-none,
}
use qyz_client_lua.Strs.Intern.Insert.{
  IsNew, add_object-IsInterned, add_object-IsHome_new, add_object-IsHome_old, add_object-strempty,
}

-- A request of bytes, for which the allocator has an address that is not in use.
pub record IsRequest (g : StrTab) (r : Request) : Type 0 where
  pub str_bytes : AreBytes r.str
  pub junk_bytes : AreBytes r.junk
  pub unused : (i : ℕ) (o : StrObj) → Among o (g.strhash i) → o.address ≢ r.fresh
  pub not_empty : r.fresh ≢ g.strempty.address

abbrev pub IsPresent : StrTab → StrObj → Type 0
IsPresent g o = (o ≡ g.strempty) ⊎ IsHome g o

-- The answer to a request: an object of the table that holds the bytes; no other goes.
pub record IsAnswer (g : StrTab) (r : Request) (a : StrObj × StrTab) : Type 0 where
  pub interned : IsInterned a.1
  pub holds : Holds r a.0
  pub present : IsPresent a.1 a.0
  pub kept : (o : StrObj) → IsPresent g o → IsPresent a.1 o

new_object-Holds : (r : Request) (h : ℕ) → Holds r (new_object r h)
unfolding new_object
new_object-Holds r h = (
  refl,
  memcmp-of r.str (new_object r h).bytes 0 r.len
      (λ j l m. let inside : ltb j r.len ≡ true = ground arith in rw inside refl),
)

new_object-AreBytes :
    (r : Request) (h : ℕ) → AreBytes r.str → AreBytes r.junk → AreBytes (new_object r h).bytes
unfolding new_object
new_object-AreBytes r h k l i = elim (Bool-cases (ltb i r.len)) [
  | inl inside ↦ rw inside (k i)
  | inr outside ↦ elim (Bool-cases (i == r.len)) [
    | inl last ↦ rw (outside, last) (omega arith)
    | inr behind ↦ rw (outside, behind) (l i)
  ]
]

-- An object that holds the same bytes as one that holds the request.
pub Holds-Same : (r : Request) (o p : StrObj) → Holds r o → Same o p → Holds r p
Holds-Same r o p (e, h) (f, k) = (
  sym f ∙ e,
  memcmp_trans r.str o.bytes p.bytes r.len h (subst (λ n. memcmp o.bytes p.bytes 0 n ≡ true) e k),
)

new_object-IsNew :
    (g : StrTab) (r : Request)
    → IsInterned g
    → IsRequest g r
    → 0 < r.len
    → lookup r (g.strhash (bit_and (str_hash r.str r.len) g.strmask)) ≡ none
    → IsNew g (new_object r (str_hash r.str r.len))
unfolding new_object
new_object-IsNew g r h q l e =
    let s = new_object r (str_hash r.str r.len) in
    let holds : Holds r s = new_object-Holds r (str_hash r.str r.len) in
    record {
      hashed = str_hash-same r.str s.bytes r.len l holds.1;
      filled = l;
      bytewise = new_object-AreBytes r (str_hash r.str r.len) q.str_bytes q.junk_bytes;
      unseen = λ p a same.
          let c : matches r p ≡ true =
            Holds→matches r p q.str_bytes (h.bytewise _ p a) l (Holds-Same r s p holds same) in
          cc (lookup-none r _ p e a, c);
      unused = q.unused;
      not_empty = q.not_empty;
    }

resurrect-IsAnswer :
    (g : StrTab) (r : Request) (o : StrObj)
    → IsInterned g
    → Holds r o
    → IsHome g o
    → IsAnswer g r (o, resurrect g o)
unfolding resurrect
resurrect-IsAnswer g r o h k a = elim (Bool-cases (g.dead o.address)) [
  | inl gone ↦ rw gone (record {
    interned = dead-IsInterned g (put g.dead o.address false) g.strnum h;
    holds = k;
    present = inr a;
    kept = λ p b. b;
  })
  | inr alive ↦ rw alive (record { interned = h; holds = k; present = inr a; kept = λ p b. b })
]

add_object-IsAnswer :
    (g : StrTab) (r : Request) (s : StrObj)
    → IsInterned g
    → Holds r s
    → IsNew g s
    → IsAnswer g r (s, add_object g s)
add_object-IsAnswer g r s h k n = record {
  interned = add_object-IsInterned g s h n;
  holds = k;
  present = inr (add_object-IsHome_new g s);
  kept = λ p b. elim b [
    | inl e ↦ inl (e ∙ sym (add_object-strempty g s))
    | inr a ↦ inr (add_object-IsHome_old g s p a)
  ];
}

pub intern-IsAnswer :
    (g : StrTab) (r : Request) → IsInterned g → IsRequest g r → IsAnswer g r (intern g r)
unfolding intern memcmp
intern-IsAnswer g r h q = elim (Bool-cases (r.len == 0)) [
  | inl nothing ↦
      let e : 0 ≡ r.len = ground arith in
      rw nothing (record {
        interned = h;
        holds = (h.empty_len ∙ e, subst (λ n. memcmp r.str g.strempty.bytes 0 n ≡ true) e refl);
        present = inl refl;
        kept = λ p b. b;
      })
  | inr something ↦
      let l : 0 < r.len = ground arith in
      let chain = g.strhash (bit_and (str_hash r.str r.len) g.strmask) in
      elim (Option-cases (lookup r chain)) [
        | inl missing ↦
            rw (something, missing)
              (add_object-IsAnswer g r (new_object r (str_hash r.str r.len)) h
                (new_object-Holds r (str_hash r.str r.len)) (new_object-IsNew g r h q l missing))
        | inr (o, found) ↦
            let (a, m) = lookup-some r chain o found in
            rw (something, found)
              (resurrect-IsAnswer g r o h (matches→Holds r o q.str_bytes (h.bytewise _ o a) l m)
                (subst (λ i. Among o (g.strhash i)) (h.placed _ o a) a))
      ]
]
