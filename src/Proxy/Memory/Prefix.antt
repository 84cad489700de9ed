-- ===== src/Proxy/Memory/Prefix.antt =====
-- `GetAnyWithPrefix` finds an item exactly if some key of the cache starts with the prefix.
use mathlib.Core.Bool.{false≢true}
use synctv.Base.{
  ℕ, true, false, Option, none, some, [], ◌∷◌, ◌++◌, ◌≡◌, refl, ◌⊎◌, Bool-cases, Option-cases, inl,
  inr, ap, ◌∙◌, sym,
}
use synctv.Base.Result.{ok}
use synctv.Base.Text.{Text, is_empty}
use synctv.Proxy.Slice.{CacheItem}
use synctv.Proxy.Memory.Trie.{TrieNode, descend, find_key}
use synctv.Proxy.Memory.Trie.Laws.{marked, marked-descend, descend-none}
use synctv.Proxy.Memory.Trie.Shape.{descend-IsShaped}
use synctv.Proxy.Memory.Trie.Search.{find_key-marked, find_key-found}
use synctv.Proxy.Memory.{Dllist, MemoryCache, found_item, get_any_with_prefix, item_at}
use synctv.Proxy.Memory.Entries.{Entries, DllistLaws, address_of, item_of}
use synctv.Proxy.Memory.Entries.Laws.{item_of-none}
use synctv.Proxy.Memory.Invariant.{IsValid, read_entry, if_present, key_in}

empty-append : (p q : Text) → is_empty p ≡ false → is_empty (p ++ q) ≡ false
unfolding is_empty
empty-append [] q h = cc
empty-append (c ∷ p) q h = refl

absent : (k : Text) (o : Option ℕ) → if_present k o ≡ none → o ≡ none
absent k none h = refl
absent k (some a) h = cc

present : (k j : Text) (o : Option ℕ) → if_present k o ≡ some j → (a : ℕ) × (o ≡ some a) × (k ≡ j)
present k j none h = cc
present k j (some a) h = (a, refl, cc)

module _ {L : Type 0} (list : Dllist L) (view : L → Entries) (laws : DllistLaws list view) where
  -- The marks below a node that a prefix leads to are the keys with that prefix.
  marked_below :
      (prefix q : Text) (c : MemoryCache L) (n : TrieNode)
      → IsValid list view laws c
      → descend prefix c.prefix_trie ≡ some n
      → marked q n ≡ key_in (prefix ++ q) (view c.lru_list)
  marked_below prefix q c n v d = marked-descend prefix q c.prefix_trie n d ∙ v.marks (prefix ++ q)

  found_item-some :
      (k : Text) (a : ℕ) (c : MemoryCache L)
      → IsValid list view laws c
      → is_empty k ≡ false
      → address_of k (view c.lru_list) ≡ some a
      → (item : CacheItem) × (found_item list k c ≡ some item)
        × (item_of k (view c.lru_list) ≡ some item)
  unfolding found_item
  found_item-some k a c v named h =
      let m = v.indexed k ∙ h in
      let (e, at, key, it) = read_entry list view laws c k a v m in
      (e.item, rw (named, m, item_at, laws.read_is a c.lru_list ∙ at) refl, it)

  key_named_below :
      (prefix : Text) (c : MemoryCache L) (n : TrieNode)
      → IsValid list view laws c
      → is_empty prefix ≡ false
      → descend prefix c.prefix_trie ≡ some n
      → (q k : Text) → marked q n ≡ some k
      → is_empty k ≡ false
  key_named_below prefix c n v h d q k m =
      let (a, at, key) =
        present (prefix ++ q) k (address_of (prefix ++ q) (view c.lru_list))
          (sym (marked_below prefix q c n v d) ∙ m) in
      ap is_empty (sym key) ∙ empty-append prefix q h

  nothing_below :
      (prefix q : Text) (c : MemoryCache L) (n : TrieNode)
      → IsValid list view laws c
      → is_empty prefix ≡ false
      → descend prefix c.prefix_trie ≡ some n
      → is_empty (find_key n) ≡ true
      → address_of (prefix ++ q) (view c.lru_list) ≡ none
  nothing_below prefix q c n v h d e =
      elim (Option-cases (address_of (prefix ++ q) (view c.lru_list))) [
        | inl a ↦ a
        | inr (x, a) ↦
            let m = marked_below prefix q c n v d ∙ ap (if_present (prefix ++ q)) a in
            absurd (
              false≢true (
                sym (
                  find_key-found n (descend-IsShaped prefix c.prefix_trie n v.shaped d)
                    (key_named_below prefix c n v h d) q (prefix ++ q) m)
                ∙ e))
      ]

  -- In a valid cache, with a list that follows its library's documentation, a search for a prefix
  -- that is not empty gives the item of some key that starts with it, or nothing, and then no key
  -- of the cache starts with it.
  pub get_any_with_prefix_iff :
      (prefix : Text) (c : MemoryCache L)
      → IsValid list view laws c
      → is_empty prefix ≡ false
      → ((q : Text) × (item : CacheItem) × (get_any_with_prefix list prefix c ≡ ok (some item))
          × (item_of (prefix ++ q) (view c.lru_list) ≡ some item))
        ⊎ ((get_any_with_prefix list prefix c ≡ ok none)
            × ((q : Text) → item_of (prefix ++ q) (view c.lru_list) ≡ none))
  unfolding get_any_with_prefix
  get_any_with_prefix_iff prefix c v h = elim (Option-cases (descend prefix c.prefix_trie)) [
    | inl d ↦ inr (
      rw (h, d) refl,
      λ q. item_of-none (prefix ++ q) (view c.lru_list) (
          absent (prefix ++ q) (address_of (prefix ++ q) (view c.lru_list))
            (sym (v.marks (prefix ++ q)) ∙ descend-none prefix q c.prefix_trie d)),
    )
    | inr (n, d) ↦ elim (Bool-cases (is_empty (find_key n))) [
      | inl e ↦ inr (
        rw (h, d, found_item, e) refl,
        λ q. item_of-none (prefix ++ q) (view c.lru_list) (nothing_below prefix q c n v h d e),
      )
      | inr e ↦
          let (q, m) = find_key-marked n (descend-IsShaped prefix c.prefix_trie n v.shaped d) e in
          let (a, at, key) =
            present (prefix ++ q) (find_key n) (address_of (prefix ++ q) (view c.lru_list))
              (sym (marked_below prefix q c n v d) ∙ m) in
          let (item, found, it) =
            found_item-some (prefix ++ q) a c v (empty-append prefix q h) at in
          inl (q, item, rw (h, d, sym key) (ap ok found), it)
    ]
  ]
