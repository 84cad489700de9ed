-- ===== src/Proxy/Memory/Invariant.antt =====
-- The map, the list and the prefix tree of the cache agree, and its size is counted right.
use synctv.Base.{
  ℕ, ◌+◌, ◌-◌, ◌<◌, Bool, true, false, Option, none, some, ◌∷◌, ◌==◌, length, ◌≡◌, refl, arith,
  if◌then◌else◌, Bool-cases, Option-cases, if_true, inl, inr, ap, ◌∙◌, sym,
}
use synctv.Base.Text.{Text, texts_eq, is_empty}
use synctv.Base.Text.Laws.{texts_eq_iff}
use synctv.Proxy.Slice.{CacheItem}
use synctv.Proxy.Memory.Trie.{TrieNode, unmark}
use synctv.Proxy.Memory.Trie.Laws.{marked, marked_new, marked-insert, marked-unmark, unmark-some}
use synctv.Proxy.Memory.Trie.Shape.{IsShaped, insert-IsShaped, unmark-IsShaped}
use synctv.Proxy.Memory.{
  CacheEntry, Dllist, MemoryCache, get_item, evict_back, update_entry, add_entry, new_memory_cache,
}
use synctv.Proxy.Memory.Entries.{
  Entries, DllistLaws, entry_at, without, last_address, address_of, item_of, total_size, IsDistinct,
  in_front, overwritten,
}
use synctv.Proxy.Memory.Entries.Laws.{
  address_of_key, entry_of_key, address_of-without, without-IsDistinct, total-without,
  front-IsDistinct, front-address_of, last-entry,
}

-- The key that the tree has to mark.
abbrev pub if_present : Text → Option ℕ → Option Text
if_present k none = none
if_present k (some a) = some k

abbrev pub key_in : Text → Entries → Option Text
key_in k l = if_present k (address_of k l)

if_present-cut :
    (b : Bool) (k : Text) (o : Option ℕ)
    → (if b then none else if_present k o) ≡ if_present k (if b then none else o)
if_present-cut true k o = refl
if_present-cut false k o = refl

if_present-add :
    (k key : Text) (a : ℕ) (o : Option ℕ)
    → (if texts_eq key k then some key else if_present k o)
      ≡ if_present k (if texts_eq key k then some a else o)
if_present-add k key a o = elim (Bool-cases (texts_eq key k)) [
  | inl b ↦ rw b (ap some ((texts_eq_iff key k).0 b))
  | inr b ↦ rw b refl
]

module _ {L : Type 0} (list : Dllist L) (view : L → Entries) (laws : DllistLaws list view) where
  abbrev pub entries : MemoryCache L → Entries
  entries c = view c.lru_list

  pub record IsValid (c : MemoryCache L) : Type 0 where
    pub distinct : IsDistinct (view c.lru_list)
    pub indexed : (k : Text) → c.m k ≡ address_of k (view c.lru_list)
    pub sized : c.current_size ≡ total_size (view c.lru_list)
    pub marks : (k : Text) → marked k c.prefix_trie ≡ key_in k (view c.lru_list)
    pub shaped : IsShaped c.prefix_trie

  pub new-IsValid : (capacity max_size : ℕ) → IsValid (new_memory_cache list capacity max_size)
  unfolding new_memory_cache IsShaped marked
  new-IsValid capacity max_size = record {
    distinct = rw laws.new_is tt;
    indexed = λ k. rw laws.new_is refl;
    sized = rw laws.new_is refl;
    marks = λ k. rw laws.new_is (marked_new k);
    shaped = tt;
  }

  pub read_entry :
      (c : MemoryCache L) (k : Text) (a : ℕ)
      → IsValid c
      → c.m k ≡ some a
      → (e : CacheEntry) × (entry_at a (view c.lru_list) ≡ some e)
        × (e.key ≡ k)
        × (item_of k (view c.lru_list) ≡ some e.item)
  read_entry c k a v h = entry_of_key k (view c.lru_list) a v.distinct (sym (v.indexed k) ∙ h)

  -- Moving an entry to the front, with another item perhaps, in a cache that is otherwise the same.
  front-IsValid :
      (c d : MemoryCache L) (a : ℕ) (e f : CacheEntry)
      → IsValid c
      → entry_at a (view c.lru_list) ≡ some e
      → f.key ≡ e.key
      → view d.lru_list ≡ (a, f) ∷ without a (view c.lru_list)
      → d.m ≡ c.m
      → d.prefix_trie ≡ c.prefix_trie
      → d.current_size + e.size ≡ c.current_size + f.size
      → IsValid d
  front-IsValid c d a e f v at key is same tree size =
      let l = view c.lru_list in
      let keep = λ (k : Text). front-address_of a k l e f v.distinct at key in
      record {
        distinct = rw is (front-IsDistinct a l e f v.distinct at key);
        indexed = λ k. rw (same, is, keep k) (v.indexed k);
        sized = rw is (omega (arith, total-without a l e at, v.sized));
        marks = λ k. rw (tree, is) (v.marks k ∙ sym (ap (if_present k) (keep k)));
        shaped = rw tree v.shaped;
      }

  pub get_item-IsValid : (k : Text) (c : MemoryCache L) → IsValid c → IsValid (get_item list k c).1
  unfolding get_item
  get_item-IsValid k c v = elim (Bool-cases (is_empty k)) [
    | inl b ↦ rw b v
    | inr b ↦ elim (Option-cases (c.m k)) [
      | inl m ↦ rw (b, m) v
      | inr (a, m) ↦
          let (e, at, key, it) = read_entry c k a v m in
          rw (b, m)
            (front-IsValid c (record c { lru_list = list.move_to_front a c.lru_list }) a e e v at
              refl (laws.move_is a c.lru_list ∙ ap (λ o. in_front a o (view c.lru_list)) at) refl
              refl refl)
    ]
  ]

  -- An update that finds its element.
  pub update_entry-some :
      (k : Text) (a : ℕ) (item : CacheItem) (n : ℕ) (c : MemoryCache L)
      → IsValid c
      → c.m k ≡ some a
      → (d : MemoryCache L) × (e : CacheEntry) × (update_entry list a item n c ≡ some d)
        × IsValid d
        × (entry_at a (view c.lru_list) ≡ some e)
        × (e.key ≡ k)
        × (view d.lru_list ≡ (a, record e { item = item; size = n }) ∷ without a (view c.lru_list))
        × (d.capacity ≡ c.capacity)
  unfolding update_entry
  update_entry-some k a item n c v h =
      let l = view c.lru_list in
      let (e, at, key, it) = read_entry c k a v h in
      let f : CacheEntry = record e { item = item; size = n } in
      let d : MemoryCache L = record c {
        current_size = c.current_size - e.size + n;
        lru_list = list.write a f (list.move_to_front a c.lru_list);
      } in
      let is : view d.lru_list ≡ (a, f) ∷ without a l =
        laws.write_is a f (list.move_to_front a c.lru_list)
        ∙ ap (overwritten a f) (laws.move_is a c.lru_list ∙ ap (λ o. in_front a o l) at)
        ∙ if_true (a == a) _ _ (ground arith) in
      (
        d,
        e,
        rw (laws.read_is a c.lru_list ∙ at, update_entry) refl,
        front-IsValid c d a e f v at refl is refl refl
            (omega (arith, total-without a l e at, v.sized)),
        at,
        key,
        is,
        refl,
      )

  removed-IsValid :
      (c : MemoryCache L) (a : ℕ) (e : CacheEntry) (t : TrieNode)
      → IsValid c
      → entry_at a (view c.lru_list) ≡ some e
      → unmark e.key c.prefix_trie ≡ some t
      → IsValid (record c {
        current_size = c.current_size - e.size;
        m = λ k. if texts_eq e.key k then none else c.m k;
        lru_list = list.remove a c.lru_list;
        prefix_trie = t;
      })
  removed-IsValid c a e t v at cut =
      let l = view c.lru_list in
      let gone = λ (k : Text). address_of-without a k l e v.distinct at in
      record {
        distinct = rw (laws.remove_is a c.lru_list) (without-IsDistinct a l v.distinct);
        indexed = λ k.
            rw (laws.remove_is a c.lru_list, gone k)
              (ap (λ o. if texts_eq e.key k then none else o) (v.indexed k));
        sized = rw (laws.remove_is a c.lru_list) (omega (arith, total-without a l e at, v.sized));
        marks = λ k.
            marked-unmark e.key k c.prefix_trie t cut
            ∙ ap (λ o. if texts_eq e.key k then none else o) (v.marks k)
            ∙ if_present-cut (texts_eq e.key k) k (address_of k l)
            ∙ sym (ap (if_present k) (ap (address_of k) (laws.remove_is a c.lru_list) ∙ gone k));
        shaped = unmark-IsShaped e.key c.prefix_trie t v.shaped cut;
      }

  pub evict_back-some :
      (c : MemoryCache L)
      → IsValid c
      → 0 < length (view c.lru_list)
      → (d : MemoryCache L) × (a : ℕ) × (e : CacheEntry) × (evict_back list c ≡ some d)
        × IsValid d
        × (last_address (view c.lru_list) ≡ some a)
        × (entry_at a (view c.lru_list) ≡ some e)
        × (view d.lru_list ≡ without a (view c.lru_list))
        × (d.capacity ≡ c.capacity)
        × (d.max_size_bytes ≡ c.max_size_bytes)
  unfolding evict_back
  evict_back-some c v h =
      let l = view c.lru_list in
      let (a, e, last, at) = last-entry l v.distinct h in
      let here = address_of_key a l e v.distinct at in
      let (t, cut) =
        unmark-some e.key c.prefix_trie e.key (v.marks e.key ∙ ap (if_present e.key) here) in
      let d : MemoryCache L = record c {
        current_size = c.current_size - e.size;
        m = λ k. if texts_eq e.key k then none else c.m k;
        lru_list = list.remove a c.lru_list;
        prefix_trie = t;
      } in
      (
        d,
        a,
        e,
        rw (laws.back_is c.lru_list ∙ last, evict_back, laws.read_is a c.lru_list ∙ at, cut) refl,
        removed-IsValid c a e t v at cut,
        last,
        at,
        laws.remove_is a c.lru_list,
        refl,
        refl,
      )

  pub add_entry-IsValid :
      (k : Text) (item : CacheItem) (n : ℕ) (c : MemoryCache L)
      → IsValid c
      → c.m k ≡ none
      → is_empty k ≡ false
      → IsValid (add_entry list k item n c)
  unfolding add_entry
  add_entry-IsValid key item n c v h named =
      let l = view c.lru_list in
      let e : CacheEntry = record { item = item; key = key; size = n } in
      let a = (list.push_front e c.lru_list).0 in
      let is = laws.push_is e c.lru_list in
      record {
        distinct = rw is (laws.push_new e c.lru_list, sym (v.indexed key) ∙ h, named, v.distinct);
        indexed = λ k. rw is (ap (λ o. if texts_eq key k then some a else o) (v.indexed k));
        sized = rw is (omega (arith, v.sized));
        marks = λ k.
            marked-insert key key k c.prefix_trie
            ∙ ap (λ o. if texts_eq key k then some key else o) (v.marks k)
            ∙ if_present-add k key a (address_of k l)
            ∙ sym (ap (key_in k) is);
        shaped = insert-IsShaped key key c.prefix_trie v.shaped;
      }
