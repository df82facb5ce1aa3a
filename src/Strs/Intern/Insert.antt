-- ===== src/Strs/Intern/Insert.antt =====
-- Adding a string, with the growth of the table.
use Prim.Native.Nat.{bit_and}
use qyz_client_lua.Base.{
  ℕ, ◌+◌, ◌-◌, ◌*◌, ◌%◌, ◌^◌, ◌<◌, ◌≡◌, ◌≢◌, ◌⊎◌, refl, sym, ap, subst, ◌∙◌, inl, inr, false, ◌||◌,
  [], ◌∷◌, leb, ltb, arith, Bool-cases, Among, put,
}
use qyz_client_lua.Strs.Compare.{AreBytes}
use qyz_client_lua.Strs.Intern.{
  StrObj, StrTab, str_hash, rehash, lj_max_strtab, lj_str_resize, add_object,
}
use qyz_client_lua.Strs.Intern.Hash.{str_hash-same}
use qyz_client_lua.Strs.Intern.Rehash.{
  bit_and-le, put-Among, put-Among_new, put-Among_old, rehash-Among, rehash-Among_new,
}
use qyz_client_lua.Strs.Intern.Table.{Same, Same-refl, Same-sym, IsInterned, IsHome}

-- The table with its chains built anew.
abbrev rehashed : StrTab → ℕ → StrTab
rehashed g m = record g { strhash = rehash m g.strhash (g.strmask + 1) (λ i. []); strmask = m }

-- Where a string of the new table stood.
origin :
    (g : StrTab) (m j : ℕ) (o : StrObj)
    → Among o ((rehashed g m).strhash j)
    → (i : ℕ) × Among o (g.strhash i) × (j ≡ bit_and o.hash m)
origin g m j o h = elim (rehash-Among m g.strhash (g.strmask + 1) (λ i. []) j o h) [
  | inl found ↦ found
  | inr nothing ↦ elim nothing [ ]
]

rehashed-IsInterned : (g : StrTab) (m : ℕ) → IsInterned g → IsInterned (rehashed g m)
rehashed-IsInterned g m h = record {
  placed = λ j o a. let (i, b, e) = origin g m j o a in e;
  hashed = λ j o a. let (i, b, e) = origin g m j o a in h.hashed i o b;
  filled = λ j o a. let (i, b, e) = origin g m j o a in h.filled i o b;
  bytewise = λ j o a. let (i, b, e) = origin g m j o a in h.bytewise i o b;
  single = λ j k o p a c s.
      let (i, b, e) = origin g m j o a in
      let (i', b', e') = origin g m k p c in h.single i i' o p b b' s;
  apart = λ j k o p a c s.
      let (i, b, e) = origin g m j o a in
      let (i', b', e') = origin g m k p c in h.apart i i' o p b b' s;
  not_empty = λ j o a. let (i, b, e) = origin g m j o a in h.not_empty i o b;
  empty_len = h.empty_len;
}

rehashed-IsHome : (g : StrTab) (m : ℕ) (o : StrObj) → IsHome g o → IsHome (rehashed g m) o
rehashed-IsHome g m o a =
    rehash-Among_new m g.strhash (g.strmask + 1) (λ i. []) (bit_and o.hash g.strmask) o
      (omega (arith, bit_and-le o.hash g.strmask)) a

pub resize-IsInterned : (g : StrTab) (m : ℕ) → IsInterned g → IsInterned (lj_str_resize g m)
unfolding lj_str_resize
resize-IsInterned g m h = elim (Bool-cases (g.sweeping || leb (lj_max_strtab - 1) m)) [
  | inl kept ↦ rw kept h
  | inr built ↦ rw built (rehashed-IsInterned g m h)
]

pub resize-IsHome : (g : StrTab) (m : ℕ) (o : StrObj) → IsHome g o → IsHome (lj_str_resize g m) o
unfolding lj_str_resize
resize-IsHome g m o h = elim (Bool-cases (g.sweeping || leb (lj_max_strtab - 1) m)) [
  | inl kept ↦ rw kept h
  | inr built ↦ rw built (rehashed-IsHome g m o h)
]

-- The table with `s` in front of its chain.
abbrev pushed : StrTab → StrObj → StrTab
pushed g s = record g {
  dead = put g.dead s.address false;
  strhash = put g.strhash (bit_and s.hash g.strmask) (s ∷ g.strhash (bit_and s.hash g.strmask));
  strnum = g.strnum + 1;
}

-- What a new object needs: its bytes are not in its chain, its address is not in use.
pub record IsNew (g : StrTab) (s : StrObj) : Type 0 where
  pub hashed : s.hash ≡ str_hash s.bytes s.len
  pub filled : 0 < s.len
  pub bytewise : AreBytes s.bytes
  pub unseen : (p : StrObj) → Among p (g.strhash (bit_and s.hash g.strmask)) → Same s p → ⊥
  pub unused : (i : ℕ) (p : StrObj) → Among p (g.strhash i) → p.address ≢ s.address
  pub not_empty : s.address ≢ g.strempty.address

-- Equal strings have the same hash.
Same-hash :
    (g : StrTab) (s p : StrObj) (i : ℕ)
    → IsInterned g
    → IsNew g s
    → Among p (g.strhash i)
    → Same s p
    → s.hash ≡ p.hash
Same-hash g s p i h n a (e, f) =
    n.hashed
    ∙ str_hash-same s.bytes p.bytes s.len n.filled f
    ∙ ap (str_hash p.bytes) e
    ∙ sym (h.hashed i p a)

-- No string of the table equals the new one.
unseen_at_all :
    (g : StrTab) (s p : StrObj) (i : ℕ)
    → IsInterned g
    → IsNew g s
    → Among p (g.strhash i)
    → Same s p
    → ⊥
unseen_at_all g s p i h n a same =
    let e : i ≡ bit_and s.hash g.strmask =
      h.placed i p a ∙ ap (λ k. bit_and k g.strmask) (sym (Same-hash g s p i h n a same)) in
    n.unseen p (subst (λ j. Among p (g.strhash j)) e a) same

member :
    (g : StrTab) (s o : StrObj) (i : ℕ)
    → Among o ((pushed g s).strhash i)
    → ((o ≡ s) × (i ≡ bit_and s.hash g.strmask)) ⊎ Among o (g.strhash i)
member g s o i a = put-Among g.strhash (bit_and s.hash g.strmask) i s o a

-- A property of the new string and of the old ones.
member-all :
    (g : StrTab) (s : StrObj) (P : StrObj → Type 0)
    → P s
    → ((i : ℕ) (o : StrObj) → Among o (g.strhash i) → P o)
    → (i : ℕ) (o : StrObj) → Among o ((pushed g s).strhash i)
    → P o
member-all g s P new old i o a = elim (member g s o i a) [
  | inl (e, k) ↦ subst P (sym e) new
  | inr b ↦ old i o b
]

-- A relation between the new string and itself, the new and the old ones, and the old ones.
member-pairs :
    (g : StrTab) (s : StrObj) (R : StrObj → StrObj → Type 0)
    → R s s
    → ((i : ℕ) (o : StrObj) → Among o (g.strhash i) → R o s)
    → ((i : ℕ) (o : StrObj) → Among o (g.strhash i) → R s o)
    → ((i j : ℕ) (o p : StrObj) → Among o (g.strhash i) → Among p (g.strhash j) → R o p)
    → (i j : ℕ) (o p : StrObj) → Among o ((pushed g s).strhash i)
    → Among p ((pushed g s).strhash j)
    → R o p
member-pairs g s R new before after old i j o p a b =
    member-all g s (λ p. R o p) (member-all g s (λ o. R o s) new before i o a)
      (λ k q c. member-all g s (λ o. R o q) (after k q c) (λ l t d. old l k t q d c) i o a) j p b

pushed-IsInterned : (g : StrTab) (s : StrObj) → IsInterned g → IsNew g s → IsInterned (pushed g s)
pushed-IsInterned g s h n = record {
  placed = λ i o a. elim (member g s o i a) [
    | inl (e, k) ↦ k ∙ ap (λ (t : StrObj). bit_and t.hash g.strmask) (sym e)
    | inr b ↦ h.placed i o b
  ];
  hashed = member-all g s (λ o. o.hash ≡ str_hash o.bytes o.len) n.hashed h.hashed;
  filled = member-all g s (λ o. 0 < o.len) n.filled h.filled;
  bytewise = member-all g s (λ o. AreBytes o.bytes) n.bytewise h.bytewise;
  single =
      member-pairs g s (λ o p. Same o p → o.address ≡ p.address) (λ e. refl)
        (λ i o a e. absurd (unseen_at_all g s o i h n a (Same-sym o s e)))
        (λ i o a e. absurd (unseen_at_all g s o i h n a e)) h.single;
  apart =
      member-pairs g s (λ o p. o.address ≡ p.address → Same o p) (λ e. Same-refl s)
        (λ i o a e. absurd (n.unused i o a e)) (λ i o a e. absurd (n.unused i o a (sym e))) h.apart;
  not_empty = member-all g s (λ o. o.address ≢ g.strempty.address) n.not_empty h.not_empty;
  empty_len = h.empty_len;
}

pub add_object-IsInterned :
    (g : StrTab) (s : StrObj) → IsInterned g → IsNew g s → IsInterned (add_object g s)
unfolding add_object
add_object-IsInterned g s h n = elim (Bool-cases (ltb g.strmask g.strnum)) [
  | inl full ↦
      rw full
        (resize-IsInterned (pushed g s) ((g.strmask * 2 + 1) % 2 ^ 32) (pushed-IsInterned g s h n))
  | inr room ↦ rw room (pushed-IsInterned g s h n)
]

add_object-IsHome : (g : StrTab) (s o : StrObj) → IsHome (pushed g s) o → IsHome (add_object g s) o
unfolding add_object
add_object-IsHome g s o h = elim (Bool-cases (ltb g.strmask g.strnum)) [
  | inl full ↦ rw full (resize-IsHome (pushed g s) ((g.strmask * 2 + 1) % 2 ^ 32) o h)
  | inr room ↦ rw room h
]

pub add_object-IsHome_new : (g : StrTab) (s : StrObj) → IsHome (add_object g s) s
add_object-IsHome_new g s =
    add_object-IsHome g s s (put-Among_new g.strhash (bit_and s.hash g.strmask) s)

pub add_object-IsHome_old : (g : StrTab) (s o : StrObj) → IsHome g o → IsHome (add_object g s) o
add_object-IsHome_old g s o h =
    add_object-IsHome g s o
      (put-Among_old g.strhash (bit_and s.hash g.strmask) (bit_and o.hash g.strmask) s o h)

resize-strempty : (g : StrTab) (m : ℕ) → (lj_str_resize g m).strempty ≡ g.strempty
unfolding lj_str_resize
resize-strempty g m = elim (Bool-cases (g.sweeping || leb (lj_max_strtab - 1) m)) [
  | inl kept ↦ rw kept refl
  | inr built ↦ rw built refl
]

pub add_object-strempty : (g : StrTab) (s : StrObj) → (add_object g s).strempty ≡ g.strempty
unfolding add_object
add_object-strempty g s = elim (Bool-cases (ltb g.strmask g.strnum)) [
  | inl full ↦ rw full (resize-strempty (pushed g s) ((g.strmask * 2 + 1) % 2 ^ 32))
  | inr room ↦ rw room refl
]
