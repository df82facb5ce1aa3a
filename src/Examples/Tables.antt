-- ===== src/Examples/Tables.antt =====
-- Runs of the hash part of tables.
use qyz_client_lua.Base.{
  ◌+◌, ◌&&◌, ltb, [], ◌∷◌, ℕ, zero, suc, ◌-◌, ◌≤◌, ◌≡◌, ◌≢◌, ◌⊎◌, refl, sym, ap, subst, ◌∙◌, inl,
  inr, true, false, ◌&&◌, none, some, ◌==◌, if◌then◌else◌, arith, Bool-cases,
}
use qyz_client_lua.Dump.Proto.{Num, Doubles}
use qyz_client_lua.Tab.{
  TValue, nil, bool, num, str, Node, GcTab, tvisnil, tvismzero, find, hashkey, key_hash,
  lj_tab_newkey,
}
use qyz_client_lua.Tab.Chain.{Reaches, here, step}
use qyz_client_lua.Tab.Valid.{IsIeee, IsKey, main, next_of, IsTab, Finds, find-Finds}
use qyz_client_lua.Tab.{rechain, belongs}
use qyz_client_lua.Tab.Insert.Rechain.{Links, IsSeparate, IsRechained, rechain-IsRechained}
use qyz_client_lua.Tab.Insert.Newkey.{Outcome, lj_tab_newkey-Outcome}
use qyz_client_lua.Tab.Access.{lj_tab_set}
use qyz_client_lua.Tab.Access.{is_int}
use qyz_client_lua.Dump.Write.{lj_fls, fls_loop}
use qyz_client_lua.Strs.Intern.{sub_word}
use qyz_client_lua.TabSize.{bestasize, best_loop}
use qyz_client_lua.Tab.Count.{
  rehash_sizes, counted_keys, countarray, counthash, array_bins, hash_bins, count_slots, countint,
  hsize2hbits,
}
use qyz_client_lua.Tab.Count.Room.{HasRoom, rehash_sizes-HasRoom}
use qyz_client_lua.Tab.New.{lj_tab_new}
use qyz_client_lua.Tab.New.Empty.{IsNewTab, lj_tab_new-IsNewTab}
use qyz_client_lua.Tab.Next.Scans.{places, entries}
use qyz_client_lua.Tab.Next.Visits.{traverse, traverse-entries}
use qyz_client_lua.Tab.Access.Refines.{Sets, lj_tab_set-Sets}

-- Doubles that are told by their words, but for the zeros.
abbrev plain_hi : Num → ℕ
plain_hi x = if tvismzero (num x) then 0 else x.hi

abbrev words : Doubles
words = record {
  num2int = λ x. x.lo;
  of_int = λ n. record { lo = n; hi = 0 };
  num_eq = λ x y. x.lo == y.lo && plain_hi x == plain_hi y;
}

eq_lo : (x y : Num) → words.num_eq x y ≡ true → x.lo ≡ y.lo
eq_lo x y e = ground arith

eq_hi : (x y : Num) → words.num_eq x y ≡ true → plain_hi x ≡ plain_hi y
eq_hi x y e = ground arith

eq_both : (x y : Num) → x.lo ≡ y.lo → plain_hi x ≡ plain_hi y → words.num_eq x y ≡ true
eq_both x y e f = ground arith

plain_hi-plain : (x : Num) → tvismzero (num x) ≡ false → plain_hi x ≡ x.hi
plain_hi-plain x e = rw e refl

int_plain : (n : ℕ) → tvismzero (num (words.of_int n)) ≡ false
int_plain n = elim (Bool-cases (n == 0)) [ inl e ↦ rw e refl | inr e ↦ rw e refl ]

num_ext : (x y : Num) → x.lo ≡ y.lo → x.hi ≡ y.hi → x ≡ y
num_ext x y e f = λ i. record { lo = e i; hi = f i }

words-IsIeee : IsIeee words
words-IsIeee = record {
  equal_sym = λ x y e. eq_both y x (sym (eq_lo x y e)) (sym (eq_hi x y e));
  equal_trans = λ x y z e f. eq_both x z (eq_lo x y e ∙ eq_lo y z f) (eq_hi x y e ∙ eq_hi y z f);
  exact = λ x y e p q.
      num_ext x y (eq_lo x y e) (sym (plain_hi-plain x p) ∙ eq_hi x y e ∙ plain_hi-plain y q);
  int_equal = λ n. eq_both (words.of_int n) (words.of_int n) refl refl;
  int_plain = int_plain;
  alike = eq_lo;
  int_exact = λ n l. refl;
  int_back = λ x. refl;
  zero_int = λ x e.
      eq_both x (words.of_int x.lo) refl
        (rw e (sym (plain_hi-plain (words.of_int x.lo) (int_plain x.lo))));
}

abbrev address_hash : ℕ → ℕ
address_hash a = a

abbrev empty_node : Node
empty_node = record { val = nil; key = nil; next = none }

abbrev two_nodes : ℕ → Node
two_nodes zero = empty_node
two_nodes (suc zero) = record { val = bool true; key = str 1; next = some 2 }
two_nodes (suc (suc zero)) = record { val = bool false; key = str 5; next = none }
two_nodes (suc (suc (suc i))) = empty_node

-- The keys 1 and 5 are in one chain.
abbrev two_keys : GcTab
two_keys = record {
  asize = 2;
  array = λ i. nil;
  node = two_nodes;
  hmask = 3;
  freetop = 4;
  nomm = 0;
}

next_is : (i j : ℕ) → next_of two_keys i ≡ some j → (i ≡ 1) × (j ≡ 2)
next_is zero j e = cc e
next_is (suc zero) j e = (refl, cc e)
next_is (suc (suc zero)) j e = cc e
next_is (suc (suc (suc i))) j e = cc e

key_is : (i : ℕ) → tvisnil (two_nodes i).key ≡ false → (i ≡ 1) ⊎ (i ≡ 2)
key_is zero e = cc e
key_is (suc zero) e = inl refl
key_is (suc (suc zero)) e = inr refl
key_is (suc (suc (suc i))) e = cc e

no_value : (i : ℕ) → tvisnil (two_nodes i).key ≡ true → tvisnil (two_nodes i).val ≡ true
no_value zero e = refl
no_value (suc zero) e = cc e
no_value (suc (suc zero)) e = cc e
no_value (suc (suc (suc i))) e = refl

str_same : {a b : ℕ} → str a ≡ str b → a ≡ b
str_same e = cc e

at_keys : (P : ℕ → Type 0) → P 1 → P 2 → (i : ℕ) → i ≤ 3 → tvisnil (two_nodes i).key ≡ false → P i
at_keys P one two i l e = elim (key_is i e) [
  | inl q ↦ subst P (sym q) one
  | inr q ↦ subst P (sym q) two
]

main_1 : main words address_hash two_keys (str 1) ≡ 1
unfolding hashkey key_hash
main_1 = refl

main_5 : main words address_hash two_keys (str 5) ≡ 1
unfolding hashkey key_hash
main_5 = refl

two_keys-IsTab : IsTab words address_hash two_keys
two_keys-IsTab = record {
  rank = λ i. 2 - i;
  top = omega arith;
  no_part = λ e. absurd (omega (arith, e));
  inside = λ i j e. omega (arith, (next_is i j e).1);
  from_key = λ i j e. subst (λ x. tvisnil (two_nodes x).key ≡ false) (sym (next_is i j e).0) refl;
  to_key = λ i j e. subst (λ x. tvisnil (two_nodes x).key ≡ false) (sym (next_is i j e).1) refl;
  falls = λ i j e. let (p, q) = next_is i j e in rw (p, q) (omega arith);
  apart = λ i j k e f. (next_is i k e).0 ∙ sym (next_is j k f).0;
  proper = at_keys (λ i. IsKey words address_hash (two_nodes i).key) tt tt;
  unset = λ i l e. no_value i e;
  reached =
      at_keys
        (λ i. Reaches (next_of two_keys) (main words address_hash two_keys (two_nodes i).key) i)
        (here main_1)
        (subst (λ x. Reaches (next_of two_keys) x 2) (sym main_5) (step 2 refl (here refl)));
  single = λ i j l m e q. one_key i j e (ap tvisnil (sym q) ∙ e) q;
  started =
      at_keys
        (λ i. tvisnil (two_nodes (main words address_hash two_keys (two_nodes i).key)).key ≡ false)
        (rw main_1 refl) (rw main_5 refl);
  owned =
      at_keys
        (λ i.
          main words address_hash two_keys
            (two_nodes (main words address_hash two_keys (two_nodes i).key)).key
          ≡ main words address_hash two_keys (two_nodes i).key)
        (rw main_1 main_1) (rw main_5 main_1);
}
  where
    one_key :
        (i j : ℕ)
        → tvisnil (two_nodes i).key ≡ false
        → tvisnil (two_nodes j).key ≡ false
        → (two_nodes i).key ≡ (two_nodes j).key
        → i ≡ j
    one_key zero j e f q = cc e
    one_key (suc zero) zero e f q = cc f
    one_key (suc zero) (suc zero) e f q = refl
    one_key (suc zero) (suc (suc zero)) e f q = absurd (omega (arith, str_same q))
    one_key (suc zero) (suc (suc (suc j))) e f q = cc f
    one_key (suc (suc zero)) zero e f q = cc f
    one_key (suc (suc zero)) (suc zero) e f q = absurd (omega (arith, str_same q))
    one_key (suc (suc zero)) (suc (suc zero)) e f q = refl
    one_key (suc (suc zero)) (suc (suc (suc j))) e f q = cc f
    one_key (suc (suc (suc i))) j e f q = cc e

absent_2 : (j : ℕ) → j ≤ two_keys.hmask → (two_keys.node j).key ≢ str 2
absent_2 zero l = λ e. cc e
absent_2 (suc zero) l = λ e. absurd (omega (arith, str_same e))
absent_2 (suc (suc zero)) l = λ e. absurd (omega (arith, str_same e))
absent_2 (suc (suc (suc j))) l = λ e. cc e

find-Finds_example :
    Finds words address_hash two_keys (str 5) (find words address_hash two_keys (str 5))
find-Finds_example = find-Finds words address_hash two_keys (str 5) words-IsIeee two_keys-IsTab tt

-- The node of the key 5 is the start of the chain of the key 2.
lj_tab_newkey-Outcome_example :
    Outcome words address_hash two_keys (str 2) (lj_tab_newkey words address_hash two_keys (str 2))
lj_tab_newkey-Outcome_example =
    lj_tab_newkey-Outcome words address_hash two_keys (str 2) two_keys-IsTab tt absent_2

lj_tab_set-Sets_example :
    Sets words address_hash two_keys
      (str 2)
      (bool true)
      (str 5)
      (lj_tab_set words address_hash two_keys (str 2))
lj_tab_set-Sets_example =
    lj_tab_set-Sets words address_hash two_keys (str 2) (bool true) (str 5) words-IsIeee
      two_keys-IsTab tt tt

two_keys-IsSplit :
    (i : ℕ) (x : Num)
    → i ≤ two_keys.hmask
    → (two_keys.node i).key ≡ num x
    → (ltb x.lo two_keys.asize && is_int words address_hash x) ≡ false
two_keys-IsSplit zero x l e = cc e
two_keys-IsSplit (suc zero) x l e = cc e
two_keys-IsSplit (suc (suc zero)) x l e = cc e
two_keys-IsSplit (suc (suc (suc i))) x l e = cc e

traverse-entries_example :
    traverse words address_hash (places two_keys + 1) two_keys nil
    ≡ some (entries words address_hash (places two_keys) two_keys 0)
traverse-entries_example =
    traverse-entries words address_hash two_keys words-IsIeee two_keys-IsTab two_keys-IsSplit
      (omega arith)

the_entries :
    entries words address_hash (places two_keys) two_keys 0
    ≡ (str 1, bool true) ∷ (str 5, bool false) ∷ []
unfolding entries
the_entries = refl

rehash_sizes-HasRoom_example :
    HasRoom words address_hash two_keys (str 2) (rehash_sizes words address_hash two_keys (str 2))
rehash_sizes-HasRoom_example =
    rehash_sizes-HasRoom words address_hash two_keys (str 2) (omega arith) (omega arith)

four_nodes : rehash_sizes words address_hash two_keys (str 2) ≡ some (0, 2)
unfolding rehash_sizes counted_keys countarray counthash array_bins hash_bins count_slots countint
    bestasize best_loop hsize2hbits lj_fls fls_loop sub_word
four_nodes = refl

abbrev old_slots : ℕ → TValue
old_slots i = bool true

abbrev old_nodes : ℕ → Node
old_nodes i = record { val = bool true; key = str 9; next = some i }

lj_tab_new-IsNewTab_example :
    IsNewTab words address_hash 3 2 (str 9) (lj_tab_new old_slots old_nodes 3 2)
lj_tab_new-IsNewTab_example =
    lj_tab_new-IsNewTab words address_hash old_slots old_nodes 3 2 (str 9) words-IsIeee tt

-- Behind the node 3 are the nodes 1 and 2, and 1 is for the key 4, whose chain starts at 0.
abbrev mixed_nodes : ℕ → Node
mixed_nodes zero = empty_node
mixed_nodes (suc zero) = record { val = bool true; key = str 4; next = some 2 }
mixed_nodes (suc (suc zero)) = record { val = bool true; key = str 3; next = none }
mixed_nodes (suc (suc (suc i))) = record { val = bool true; key = str 7; next = some 1 }

mixed-Links : Links mixed_nodes 3 (1 ∷ 2 ∷ [])
mixed-Links = (refl, (refl, refl))

mixed-IsSeparate : IsSeparate 3 0 (1 ∷ 2 ∷ []) []
mixed-IsSeparate = (
  λ e. omega arith,
  (λ e. omega arith, (λ e. omega arith, tt)),
  (λ e. omega arith, (λ e. omega arith, tt)),
  tt,
  tt,
  ((λ e. omega arith, tt), (tt, tt)),
  (tt, (tt, tt)),
)

rechain-IsRechained_example :
    (node' : ℕ → Node) × (rechain words address_hash 4 3 0 mixed_nodes 3 ≡ some node')
    × IsRechained
        (λ i. belongs words address_hash 3 0 (mixed_nodes i))
        mixed_nodes
        node'
        3
        0
        (1 ∷ 2 ∷ [])
        []
rechain-IsRechained_example =
    rechain-IsRechained words address_hash 4 3 0 mixed_nodes 3 (1 ∷ 2 ∷ []) [] mixed-Links refl
      mixed-IsSeparate (omega arith)

-- The node 1 is the one that belongs there.
the_string :
    (belongs words address_hash 3 0 (mixed_nodes 1) ≡ true)
    × (belongs words address_hash 3 0 (mixed_nodes 2) ≡ false)
unfolding belongs hashkey key_hash
the_string = (refl, refl)
