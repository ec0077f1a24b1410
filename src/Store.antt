-- ===== src/Store.antt =====
-- The option store of libs/cmdr11/include/cmdr11/cmdr_var_t.hh and cmdr_var_t_inl.h: nodeT and
-- treeT. A node_pointer is the place of a node in the heap of all nodes that were made; the root
-- is a node like the others. The mutexes guard whole operations, which are taken one by one here.
pub mod Tree
pub mod Keys
pub mod Shape
pub mod Grow
pub mod Sets
pub mod Laws
pub mod Dictionary
mod Tests
use cmdr_cxx.Base.{
  ℕ, zero, suc, Bool, true, false, List, [], ◌∷◌, ◌++◌, Option, none, some, Str, length, get_elem?,
  set, ◌==◌, if◌then◌else◌, ◌>>=◌, is_empty,
}
use cmdr_cxx.Base.Maps.{Map, find, insert, or_else}
use cmdr_cxx.Text.Split.{split_char}

-- nodeT: the value that it is, its _children and its _indexes. (_parent is never set.)
pub record Node (V : Type 0) : Type 0 where
  pub value : V
  pub children : Map ℕ
  pub indexes : Map ℕ

abbrev pub Heap : Type 0 → Type 0
Heap V = List (Node V)

abbrev pub fresh : {V : Type 0} → V → Node V
fresh v = record { value = v; children = []; indexes = [] }

-- std::strchr(key, '.'): the texts in front of the first dot and behind it.
unfoldable pub cut_dot : Str → Option (Str × Str)
cut_dot [] = none
cut_dot (c ∷ s) =
    let rest = cut_dot s in if c == b'.' then some ([], s) else rest >>= λ r. some (c ∷ r.0, r.1)

module _ {V : Type 0} where
  -- _children.find(k) of the node
  unfoldable pub child : Heap V → ℕ → Str → Option ℕ
  child h n k = get_elem? h n >>= λ node. find k node.children

  -- _indexes.find(k) of the node
  unfoldable pub indexed : Heap V → ℕ → Str → Option ℕ
  indexed h n k = get_elem? h n >>= λ node. find k node.indexes

  -- The value of the node.
  unfoldable pub value_of : Heap V → ℕ → Option V
  value_of h n = get_elem? h n >>= λ node. some node.value

  -- A change of one node.
  unfoldable pub modify : Heap V → ℕ → (Node V → Node V) → Heap V
  modify h n f = elim (get_elem? h n) [ none ↦ h | some node ↦ set h n (f node) ]

  -- _children.emplace(k, c)
  unfoldable pub link : Heap V → ℕ → Str → ℕ → Heap V
  unfolding modify
  link h n k c = modify h n (λ node. record node { children = insert k c node.children })

  -- _indexes.emplace(k, p)
  unfoldable pub index : Heap V → ℕ → Str → ℕ → Heap V
  unfolding modify
  index h n k p = modify h n (λ node. record node { indexes = insert k p node.indexes })

  -- node->emplace(v)
  unfoldable pub put : Heap V → ℕ → V → Heap V
  unfolding modify
  put h n v = modify h n (λ node. record node { value = v })

  -- std::make_shared of a node with a value: the heap, and the pointer.
  unfoldable pub alloc : Heap V → V → Heap V
  alloc h v = h ++ fresh v ∷ []

  -- The child k of the node, made with an empty value if it is not there.
  pub enter : V → Heap V → ℕ → Str → Heap V × ℕ
  unfolding alloc link
  enter blank h n k = elim (child h n k) [
    | some c ↦ (h, c)
    | none ↦ (link (alloc h blank) n k (length h), length h)
  ]

  -- The child k of the node, with the value v.
  pub assign_child : Heap V → ℕ → Str → V → Heap V × ℕ
  unfolding alloc link put
  assign_child h n k v = elim (child h n k) [
    | some c ↦ (put h c v, c)
    | none ↦ (link (alloc h v) n k (length h), length h)
  ]

  -- _set(key, cb, a) at the node: the heap, and the pointer that the callback is handed. The
  -- callback of each level enters that pointer under the whole key of its level.
  pub set_at : V → ℕ → Heap V → ℕ → Str → V → Option (Heap V × ℕ)
  unfolding enter assign_child index
  set_at blank zero h n key v = none
  set_at blank (suc fuel) h n key v = elim (cut_dot key) [
    | some (k, remains) ↦
        let (h1, c) = enter blank h n k in
        set_at blank fuel h1 c remains v >>= λ r. some (index r.0 n key r.1, r.1)
    | none ↦ let (h1, c) = assign_child h n key v in some (index h1 n key c, c)
  ]

  -- set(key, a): as much fuel as the key can have parts.
  unfoldable pub set_raw : V → Heap V → ℕ → Str → V → Option (Heap V × ℕ)
  unfolding set_at
  set_raw blank h n key v = set_at blank (suc (length key)) h n key v

  -- _get_raw(key), where `blank` is null_element()
  unfoldable pub get_raw : V → Heap V → ℕ → Str → V
  unfolding indexed value_of
  get_raw blank h n key = or_else (indexed h n key >>= λ p. value_of h p) blank

-- prefix + '.' + key, where an empty prefix adds nothing
unfoldable pub prefixed : Str → Str → Str
prefixed prefix key = if is_empty prefix then key else prefix ++ b'.' ∷ key

module _ {V : Type 0} where
  -- set_raw_p(prefix, key, a)
  unfoldable pub set_raw_p : V → Heap V → ℕ → Str → Str → V → Option (Heap V × ℕ)
  unfolding set_raw prefixed
  set_raw_p blank h n prefix key v = set_raw blank h n (prefixed prefix key) v

  -- _get_raw_p(prefix, key)
  unfoldable pub get_raw_p : V → Heap V → ℕ → Str → Str → V
  unfolding get_raw prefixed
  get_raw_p blank h n prefix key = get_raw blank h n (prefixed prefix key)

  -- has(prefix, key): the key with its prefix is put together and not used.
  unfoldable pub has : Heap V → ℕ → Str → Str → Bool
  unfolding indexed prefixed
  has h n prefix key =
      let sk = prefixed prefix key in elim (indexed h n key) [ none ↦ false | some p ↦ true ]

  -- reset()
  unfoldable pub reset : Heap V → ℕ → Heap V
  unfolding modify
  reset h n = modify h n (λ node. record node { children = []; indexes = [] })

  -- The walk of subtree down the children; `none` is null_node().
  unfoldable pub descend : Heap V → ℕ → Str → List Str → Option ℕ
  unfolding child
  descend h n key [] = child h n key
  descend h n key (next ∷ rest) = child h n key >>= λ c. descend h c next rest

  -- subtree(prefix). The first part of an empty prefix is read out of range: `none` outside.
  pub subtree : Heap V → ℕ → Str → Option (Option ℕ)
  unfolding descend split_char
  subtree h n prefix = elim (split_char prefix b'.') [
    | [] ↦ none
    | key ∷ rest ↦ some (descend h n key rest)
  ]
