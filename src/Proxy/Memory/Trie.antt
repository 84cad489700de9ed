-- ===== src/Proxy/Memory/Trie.antt =====
-- server/handlers/proxy/cache.go: the prefix tree of the keys. A key is the list of its runes. The
-- children of a node are a Go map; the order of the list is the order in which `range` visits them.
pub mod Laws
pub mod Shape
pub mod Search
use synctv.Base.{ℕ, Bool, true, false, Option, none, some, [], ◌∷◌, ◌==◌, if◌then◌else◌}
use synctv.Base.Text.{Text, is_empty}

mutual
  pub data TrieNode : Type 0 where
    node : Children → Text → Bool → TrieNode

  pub data Children : Type 0 where
    leaf : Children
    child : ℕ → TrieNode → Children → Children

abbrev pub new_trie_node : TrieNode
new_trie_node = node leaf [] false

-- `node.children[ch]`
unfoldable pub next : ℕ → Children → Option TrieNode
next c leaf = none
next c (child d n cs) = if d == c then some n else next c cs

-- The map after `node.children[ch]` is assigned, or changed in place.
unfoldable pub with_child : ℕ → (Option TrieNode → TrieNode) → Children → Children
with_child c f leaf = child c (f none) leaf
with_child c f (child d n cs) =
    if d == c then child d (f (some n)) cs else child d n (with_child c f cs)

abbrev pub or_new : Option TrieNode → TrieNode
or_new none = new_trie_node
or_new (some n) = n

-- The loop of `Set` that adds a key: the runes left of it, the key and the node.
unfoldable pub insert : Text → Text → TrieNode → TrieNode
unfolding with_child
insert [] key (node cs k e) = node cs key true
insert (c ∷ p) key (node cs k e) = node (with_child c (λ o. insert p key (or_new o)) cs) k e

-- The loop of `Set` that takes a key out: its nodes stay. `none`: a nil node is read.
unfoldable pub unmark : Text → TrieNode → Option TrieNode
unfolding next with_child
unmark [] (node cs k e) = some (node cs [] false)
unmark (c ∷ p) (node cs k e) = elim (next c cs) [
  | none ↦ none
  | some n ↦ elim (unmark p n) [
    | none ↦ none
    | some n' ↦ some (node (with_child c (λ o. n') cs) k e)
  ]
]

-- The loop of `GetAnyWithPrefix` over the runes of the prefix.
unfoldable pub descend : Text → TrieNode → Option TrieNode
unfolding next
descend [] n = some n
descend (c ∷ p) (node cs k e) = elim (next c cs) [ none ↦ none | some n ↦ descend p n ]

-- The first complete key, depth first; empty if there is none.
unfoldable mutual
  pub find_key : TrieNode → Text
  find_key (node cs k e) = let rest = find_among cs in if e then k else rest

  pub find_among : Children → Text
  find_among leaf = []
  find_among (child c n cs) =
      let key = find_key n in let rest = find_among cs in if is_empty key then rest else key
