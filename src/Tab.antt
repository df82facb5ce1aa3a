-- ===== src/Tab.antt =====
-- The hash part of tables, luajit/lj_tab.c and luajit/lj_tab.h: hashing, getters, setters and the
-- insertion of keys. A node is known by its index. A string is known by its address, and `strhash`
-- gives the hash that the string at an address has.
pub mod Chain
pub mod Valid
pub mod Insert
pub mod Access
pub mod Next
pub mod New
pub mod Count
use Prim.Native.Nat.{bit_and, bit_xor}
use qyz_client_lua.Base.{
  ℕ, zero, suc, ◌+◌, ◌-◌, ◌*◌, ◌%◌, ◌^◌, Bool, true, false, not, ◌&&◌, ◌||◌, Option, none, some,
  ltb, ◌==◌, if◌then◌else◌, put,
}
use qyz_client_lua.Dump.Proto.{Num, Doubles}
use qyz_client_lua.Strs.Intern.{lj_rol, sub_word}

-- A tagged value. `gcref` has the tag and the reference of any other value.
pub data TValue : Type 0 where
  nil : TValue
  bool : Bool → TValue
  num : Num → TValue
  str : ℕ → TValue
  gcref : ℕ → ℕ → TValue

pub record Node : Type 0 where
  pub val : TValue
  pub key : TValue
  pub next : Option ℕ

pub record GcTab : Type 0 where
  pub asize : ℕ
  pub array : ℕ → TValue
  pub node : ℕ → Node
  pub hmask : ℕ
  pub freetop : ℕ
  pub nomm : ℕ

abbrev pub tvisnil : TValue → Bool
tvisnil nil = true
tvisnil (bool b) = false
tvisnil (num x) = false
tvisnil (str a) = false
tvisnil (gcref t r) = false

abbrev pub tvisstr : TValue → Bool
tvisstr (str a) = true
tvisstr nil = false
tvisstr (bool b) = false
tvisstr (num x) = false
tvisstr (gcref t r) = false

unfoldable pub hashrot : ℕ → ℕ → ℕ
hashrot lo hi =
    let lo1 = bit_xor lo hi in
    let hi1 = lj_rol hi 14 in
    let lo2 = sub_word lo1 hi1 in
    let hi2 = lj_rol hi1 5 in let hi3 = bit_xor hi2 lo2 in sub_word hi3 (lj_rol lo2 13)

-- HASH_BIAS as a word.
abbrev pub hash_bias : ℕ
hash_bias = 4294967296 - 0x04c11db7

-- The result of a walk along a chain.
pub data Walk : Type 0 where
  found : ℕ → Walk
  ended no_rounds : Walk

-- `(n = nextnode(n))`
abbrev pub to_next : (ℕ → Walk) → Option ℕ → Walk
to_next go none = ended
to_next go (some k) = go k

-- `do { if (test(n)) return n; } while ((n = nextnode(n)));`
unfoldable pub walk : ℕ → (ℕ → Node) → (Node → Bool) → ℕ → Walk
walk zero node test n = no_rounds
walk (suc rounds) node test n =
    let further = to_next (λ k. walk rounds node test k) (node n).next in
    if test (node n) then found n else further

-- `while (!tvisnil(&(--freenode)->key))`, from `freenode` on; `none` at the first node.
unfoldable pub free_loop : (ℕ → Node) → ℕ → Option ℕ
free_loop node zero = none
free_loop node (suc f) =
    let lower = free_loop node f in if tvisnil (node f).key then some f else lower

-- `nn` is the node behind `c`, and `n` the one that gets it.
unfoldable pub rechain_one : (ℕ → Node) → ℕ → ℕ → ℕ → ℕ → Node
rechain_one node n c nn =
    let node1 = put node c (record (node c) { next = (node nn).next }) in
    let node2 = put node1 nn (record (node1 nn) { next = (node1 n).next }) in
    put node2 n (record (node2 n) { next = some nn })

-- Where a value stands.
pub data Place : Type 0 where
  in_array in_hash : ℕ → Place

abbrev pub read : GcTab → Place → TValue
read t (in_array i) = t.array i
read t (in_hash i) = (t.node i).val

-- `copyTV(L, place, val)`
abbrev pub store : GcTab → Place → TValue → GcTab
store t (in_array i) v = record t { array = put t.array i v }
store t (in_hash i) v = record t { node = put t.node i (record (t.node i) { val = v }) }

-- What a setter gives: a place in the table as it is then, or the call of `rehashtab`, an error, or a
-- chain that does not end or lacks a node.
pub data Setting : Type 0 where
  slot : Place → GcTab → Setting
  rehash nan_index nil_index fault : Setting

abbrev pub tvismzero : TValue → Bool
tvismzero (num x) = x.lo == 0 && x.hi == 2147483648
tvismzero nil = false
tvismzero (bool b) = false
tvismzero (str a) = false
tvismzero (gcref t r) = false

abbrev pub zero_key : TValue
zero_key = num (record { lo = 0; hi = 0 })

-- The end of `lj_tab_newkey`, with the slot `n`.
unfoldable pub write_key : GcTab → ℕ → TValue → Setting
write_key t n key =
    let key' = if tvismzero key then zero_key else key in
    slot (in_hash n) (record t { node = put t.node n (record (t.node n) { key = key' }) })

abbrev pub rechain_next : (ℕ → Node) → (ℕ → Option (ℕ → Node)) → Option ℕ → Option (ℕ → Node)
rechain_next node go none = some node
rechain_next node go (some nn) = go nn

-- The colliding node `n` stands in another chain, behind `p`: it moves to the free node `f`.
unfoldable pub move_node : GcTab → ℕ → ℕ → ℕ → ℕ → Node
move_node t n f p =
    let node1 = put t.node p (record (t.node p) { next = some f }) in
    let node2 = put node1 f (node1 n) in put node2 n (record (node2 n) { next = none; val = nil })

-- The free node `f` goes behind `n`.
unfoldable pub link_free : GcTab → ℕ → ℕ → ℕ → Node
link_free t n f =
    let node1 = put t.node f (record (t.node f) { next = (t.node n).next }) in
    put node1 n (record (node1 n) { next = some f })

abbrev pub rechained : GcTab → ℕ → TValue → Option (ℕ → Node) → Setting
rechained t n key none = fault
rechained t n key (some node) = write_key (record t { node = node }) n key

-- `noderef(collide->next) == n`
abbrev pub precedes : ℕ → Node → Bool
precedes n c = elim c.next [ none ↦ false | some k ↦ k == n ]

module _ (fp : Doubles) (strhash : ℕ → ℕ) where
  unfoldable pub lj_obj_equal : TValue → TValue → Bool
  lj_obj_equal nil nil = true
  lj_obj_equal nil (bool b) = false
  lj_obj_equal nil (num x) = false
  lj_obj_equal nil (str a) = false
  lj_obj_equal nil (gcref t r) = false
  lj_obj_equal (bool b) nil = false
  lj_obj_equal (bool b) (bool c) = if b then c else not c
  lj_obj_equal (bool b) (num x) = false
  lj_obj_equal (bool b) (str a) = false
  lj_obj_equal (bool b) (gcref t r) = false
  lj_obj_equal (num x) nil = false
  lj_obj_equal (num x) (bool b) = false
  lj_obj_equal (num x) (num y) = fp.num_eq x y
  lj_obj_equal (num x) (str a) = false
  lj_obj_equal (num x) (gcref t r) = false
  lj_obj_equal (str a) nil = false
  lj_obj_equal (str a) (bool b) = false
  lj_obj_equal (str a) (num x) = false
  lj_obj_equal (str a) (str b) = a == b
  lj_obj_equal (str a) (gcref t r) = false
  lj_obj_equal (gcref t r) nil = false
  lj_obj_equal (gcref t r) (bool b) = false
  lj_obj_equal (gcref t r) (num x) = false
  lj_obj_equal (gcref t r) (str a) = false
  lj_obj_equal (gcref t r) (gcref u q) = t == u && r == q

  unfoldable pub key_hash : TValue → ℕ
  key_hash nil = hashrot 0 hash_bias
  key_hash (bool b) = if b then 1 else 0
  key_hash (num x) = hashrot x.lo (x.hi * 2 % 2 ^ 32)
  key_hash (str a) = strhash a
  key_hash (gcref t r) = hashrot r ((r + hash_bias) % 2 ^ 32)

  -- The node at which the chain of a key starts.
  unfoldable pub hashkey : ℕ → TValue → ℕ
  hashkey hmask key = bit_and (key_hash key) hmask

  -- The search for a key in the hash part, which is that of `lj_tab_getinth`, `lj_tab_getstr` and
  -- `lj_tab_get`, and of the setters.
  unfoldable pub find : GcTab → TValue → Walk
  find t key = walk (suc t.hmask) t.node (λ n. lj_obj_equal n.key key) (hashkey t.hmask key)

  -- A string key that is in use and whose chain starts at `n`.
  unfoldable pub belongs : ℕ → ℕ → Node → Bool
  belongs hmask n nn = tvisstr nn.key && (not (tvisnil nn.val) && hashkey hmask nn.key == n)

  -- The loop that rechains strings, along the chain behind `c`; `none` if the rounds run out.
  unfoldable pub rechain : ℕ → ℕ → ℕ → (ℕ → Node) → ℕ → Option (ℕ → Node)
  rechain zero hmask n node c = none
  rechain (suc rounds) hmask n node c =
      rechain_next node
        (λ nn.
          let moved = rechain rounds hmask n (rechain_one node n c nn) c in
          let kept = rechain rounds hmask n node nn in
          if belongs hmask n (node nn) then moved else kept)
        (node c).next

  -- `n` moves behind the predecessor that was found in its chain.
  abbrev pub relink : GcTab → ℕ → ℕ → TValue → Walk → Setting
  relink t n f key no_rounds = fault
  relink t n f key ended = fault
  relink t n f key (found p) =
      rechained t n key (rechain (suc t.hmask) t.hmask n (move_node t n f p) f)

  abbrev pub collision : GcTab → ℕ → TValue → Option ℕ → Setting
  collision t n key none = rehash
  collision t n key (some f) =
      let t' : GcTab = record t { freetop = f } in
      let collide = hashkey t.hmask (t.node n).key in
      if not (collide == n)
      then relink t' n f key (walk (suc t.hmask) t'.node (precedes n) collide)
      else write_key (record t' { node = link_free t' n f }) f key

  unfoldable pub lj_tab_newkey : GcTab → TValue → Setting
  lj_tab_newkey t key =
      let n = hashkey t.hmask key in
      if not (tvisnil (t.node n).val) || t.hmask == 0
      then collision t n key (free_loop t.node t.freetop)
      else write_key t n key
