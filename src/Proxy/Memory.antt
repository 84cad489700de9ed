-- ===== src/Proxy/Memory.antt =====
-- server/handlers/proxy/cache.go: the cache of items in memory, with eviction of the least recently
-- used. Each call runs under the cache's lock as one step. Sizes are naturals: no subtraction of
-- the code goes below 0 (IsValid). A limit that is not positive is 0, and means none.
pub mod Trie
pub mod Entries
pub mod Invariant
pub mod Eviction
pub mod Stored
pub mod Prefix
pub mod Runs
use synctv.Base.{
  ℕ, zero, suc, ◌+◌, ◌-◌, Bool, true, false, ◌&&◌, ◌||◌, Option, none, some, List, [], ◌∷◌, ltb,
  leb, length, if◌then◌else◌,
}
use synctv.Base.Result.{failure, Result, ok, err}
use synctv.Base.Text.{Text, texts_eq, is_empty}
use synctv.Proxy.Slice.{CacheItem}
use synctv.Proxy.Memory.Trie.{TrieNode, new_trie_node, insert, unmark, descend, find_key}

pub record CacheEntry : Type 0 where
  pub item : CacheItem
  pub key : Text
  pub size : ℕ

-- The doubly linked list of a library: elements are addresses, `read` and `write` are reads and
-- assignments through `Element.Value`.
pub record Dllist (L : Type 0) : Type 0 where
  pub new : L
  pub len : L → ℕ
  pub back : L → Option ℕ
  pub push_front : CacheEntry → L → ℕ × L
  pub move_to_front : ℕ → L → L
  pub remove : ℕ → L → L
  pub read : ℕ → L → Option CacheEntry
  pub write : ℕ → CacheEntry → L → L

pub record MemoryCache (L : Type 0) : Type 0 where
  pub m : Text → Option ℕ
  pub lru_list : L
  pub prefix_trie : TrieNode
  pub capacity : ℕ
  pub max_size_bytes : ℕ
  pub current_size : ℕ

module _ {L : Type 0} (list : Dllist L) where
  unfoldable pub new_memory_cache : ℕ → ℕ → MemoryCache L
  new_memory_cache capacity max_size = record {
    m = λ k. none;
    lru_list = list.new;
    prefix_trie = new_trie_node;
    capacity = capacity;
    max_size_bytes = max_size;
    current_size = 0;
  }

  -- The item of an element.
  abbrev pub item_at : ℕ → L → Option CacheItem
  item_at a l = elim (list.read a l) [ none ↦ none | some e ↦ some e.item ]

  unfoldable pub get_item : Text → MemoryCache L → Result (Option CacheItem) × MemoryCache L
  get_item key c =
      if is_empty key then (err (failure "cache key cannot be empty"), c) else elim (c.m key) [
        | none ↦ (ok none, c)
        | some a ↦
            let l : L = list.move_to_front a c.lru_list in
            (ok (item_at a l), record c { lru_list = l })
      ]

  -- The item of the key that the search ended with.
  unfoldable pub found_item : Text → MemoryCache L → Option CacheItem
  found_item key c =
      if is_empty key then none else elim (c.m key) [ none ↦ none | some a ↦ item_at a c.lru_list ]

  unfoldable pub get_any_with_prefix : Text → MemoryCache L → Result (Option CacheItem)
  unfolding found_item
  get_any_with_prefix prefix c =
      if is_empty prefix
      then err (failure "prefix cannot be empty")
      else elim (descend prefix c.prefix_trie) [
        | none ↦ ok none
        | some n ↦ ok (found_item (find_key n) c)
      ]

  unfoldable pub needs_room : ℕ → MemoryCache L → Bool
  needs_room new_size c =
      ltb 0 (list.len c.lru_list)
      && ((ltb 0 c.capacity && leb c.capacity (list.len c.lru_list))
          || (ltb 0 c.max_size_bytes && ltb c.max_size_bytes (c.current_size + new_size)))

  -- One round of the eviction. `none`: a nil pointer is read, or the round would be repeated.
  unfoldable pub evict_back : MemoryCache L → Option (MemoryCache L)
  evict_back c = elim (list.back c.lru_list) [
    | none ↦ none
    | some a ↦ elim (list.read a c.lru_list) [
      | none ↦ none
      | some e ↦ elim (unmark e.key c.prefix_trie) [
        | none ↦ none
        | some t ↦ some (record c {
          current_size = c.current_size - e.size;
          m = λ k. if texts_eq e.key k then none else c.m k;
          lru_list = list.remove a c.lru_list;
          prefix_trie = t;
        })
      ]
    ]
  ]

  -- The loop of the eviction; `none` also if the fuel runs out.
  unfoldable pub evict : ℕ → ℕ → MemoryCache L → Option (MemoryCache L)
  unfolding needs_room evict_back
  evict zero new_size c = if needs_room new_size c then none else some c
  evict (suc fuel) new_size c =
      let rest : Option (MemoryCache L) = elim (evict_back c) [
        | none ↦ none
        | some c' ↦ evict fuel new_size c'
      ] in
      if needs_room new_size c then rest else some c

  unfoldable pub update_entry : ℕ → CacheItem → ℕ → MemoryCache L → Option (MemoryCache L)
  update_entry a item new_size c =
      let l : L = list.move_to_front a c.lru_list in
      elim (list.read a c.lru_list) [
        | none ↦ none
        | some e ↦ some (record c {
          current_size = c.current_size - e.size + new_size;
          lru_list = list.write a (record e { item = item; size = new_size }) l;
        })
      ]

  unfoldable pub add_entry : Text → CacheItem → ℕ → MemoryCache L → MemoryCache L
  add_entry key item new_size c =
      let (a, l) =
        list.push_front (record { item = item; key = key; size = new_size }) c.lru_list in
      record c {
        m = λ k. if texts_eq key k then some a else c.m k;
        lru_list = l;
        current_size = c.current_size + new_size;
        prefix_trie = insert key key c.prefix_trie;
      }

abbrev pub stored :
    {L : Type 0} → Option (MemoryCache L) → Option (Result (Unit {0}) × MemoryCache L)
stored none = none
stored (some c) = some (ok tt, c)

-- `metadata` is the JSON of an item's metadata, `none` if that fails.
module _ (metadata : CacheItem → Option (List ℕ)) where
  unfoldable pub item_size : CacheItem → ℕ
  item_size item = elim (metadata item) [
    | none ↦ length item.bytes
    | some json ↦ length item.bytes + length json
  ]

module _ {L : Type 0} (list : Dllist L) (metadata : CacheItem → Option (List ℕ)) where
  -- `Set` of an item; `none` if a nil pointer is read or its loop does not end. Each round of the
  -- loop takes an element off the list, so its length is enough fuel.
  unfoldable pub put_item :
      Text → CacheItem → MemoryCache L → Option (Result (Unit {0}) × MemoryCache L)
  unfolding item_size evict update_entry add_entry
  put_item key item c = elim (c.m key) [
    | some a ↦ stored (update_entry list a item (item_size metadata item) c)
    | none ↦ elim (evict list (list.len c.lru_list) (item_size metadata item) c) [
      | none ↦ none
      | some c' ↦ stored (some (add_entry list key item (item_size metadata item) c'))
    ]
  ]

  unfoldable pub set_item :
      Text → Option CacheItem → MemoryCache L → Option (Result (Unit {0}) × MemoryCache L)
  unfolding put_item
  set_item key new c =
      if is_empty key then some (err (failure "cache key cannot be empty"), c) else elim new [
        | none ↦ some (err (failure "cannot cache nil CacheItem"), c)
        | some item ↦ put_item key item c
      ]
