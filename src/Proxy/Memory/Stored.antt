-- ===== src/Proxy/Memory/Stored.antt =====
-- What can be read after a call of `Get` or `Set`.
use mathlib.Core.List.{append-nil}
use synctv.Base.{
  ℕ, ◌+◌, ◌≤◌, ◌<◌, false, Option, none, some, List, [], ◌∷◌, ◌++◌, ◌==◌, length, ◌≡◌, refl, arith,
  ◌⊎◌, if◌then◌else◌, if_true, if_false, Bool-cases, Option-cases, inl, inr, ap, ◌∙◌, sym,
}
use synctv.Base.Result.{Result, ok, err, failure}
use synctv.Base.Text.{Text, texts_eq, is_empty}
use synctv.Base.Text.Laws.{texts_eq_iff, texts_eq_refl}
use synctv.Proxy.Slice.{CacheItem}
use synctv.Proxy.Memory.{
  CacheEntry, Dllist, MemoryCache, get_item, needs_room, evict, add_entry, update_entry, item_size,
  put_item, item_at, stored,
}
use synctv.Proxy.Memory.Entries.{
  Entries, DllistLaws, entry_at, without, in_front, address_of, item_of, IsDistinct,
}
use synctv.Proxy.Memory.Entries.Laws.{address_of_key, length-without, item_of-none, front-item_of}
use synctv.Proxy.Memory.Invariant.{IsValid, read_entry, update_entry-some, add_entry-IsValid}
use synctv.Proxy.Memory.Eviction.{IsEvicted, evict-IsEvicted, absent}

abbrev pub keys : Entries → List Text
keys [] = []
keys ((a, e) ∷ l) = e.key ∷ keys l

-- The keys but one, most recent first.
abbrev pub other_keys : Text → Entries → List Text
other_keys k [] = []
other_keys k ((a, e) ∷ l) = if texts_eq e.key k then other_keys k l else e.key ∷ other_keys k l

other_keys_absent : (k : Text) (l : Entries) → address_of k l ≡ none → other_keys k l ≡ keys l
other_keys_absent k [] h = refl
other_keys_absent k ((a, e) ∷ l) h = ground (arith, other_keys_absent k l)

other_keys-without :
    (a : ℕ) (l : Entries) (e : CacheEntry)
    → IsDistinct l
    → entry_at a l ≡ some e
    → other_keys e.key l ≡ keys (without a l)
other_keys-without a [] e d h = cc
other_keys-without a ((b, f) ∷ l) e (x, y, z, d) h = elim (Bool-cases (b == a)) [
  | inl s ↦ ground (arith, other_keys_absent f.key l y, texts_eq_refl f.key)
  | inr s ↦
      let ih = other_keys-without a l e d (ground arith) in
      let other = address_of_key a l e d (ground arith) in ground (arith, texts_eq_iff f.key e.key)
]

keys-append : (l r : Entries) → keys (l ++ r) ≡ keys l ++ keys r
keys-append [] r = refl
keys-append ((a, e) ∷ l) r = ap (◌∷◌ e.key) (keys-append l r)

kept_or_gone :
    (k : Text) (l gone : Entries) → (item_of k l ≡ item_of k (l ++ gone)) ⊎ (item_of k l ≡ none)
kept_or_gone k [] gone = inr refl
kept_or_gone k ((a, e) ∷ l) gone = elim (Bool-cases (texts_eq e.key k)) [
  | inl b ↦ inl (rw b refl)
  | inr b ↦ rw b (kept_or_gone k l gone)
]

module _ {L : Type 0} (list : Dllist L) (view : L → Entries) (laws : DllistLaws list view) where
  -- A cache of a capacity keeps it, if it is not 0.
  abbrev pub IsBounded : ℕ → MemoryCache L → Type 0
  IsBounded capacity c =
      (c.capacity ≡ capacity) × (0 < capacity → length (view c.lru_list) ≤ capacity)

  -- The answer of `Get`: the item of the key, or an error for the empty key.
  abbrev pub answer : Text → MemoryCache L → Result (Option CacheItem)
  answer k c =
      if is_empty k
      then err (failure "cache key cannot be empty")
      else ok (item_of k (view c.lru_list))

  moved-item_at :
      (a : ℕ) (c : MemoryCache L) (e : CacheEntry)
      → entry_at a (view c.lru_list) ≡ some e
      → item_at list a (list.move_to_front a c.lru_list) ≡ some e.item
  moved-item_at a c e at =
      let front = laws.move_is a c.lru_list ∙ ap (λ o. in_front a o (view c.lru_list)) at in
      let read = laws.read_is a (list.move_to_front a c.lru_list) ∙ ap (entry_at a) front in
      rw
        (
          read
              ∙ if_true (a == a) (some e) (entry_at a (without a (view c.lru_list))) (ground arith),
          item_at,
        )
        refl

  pub get_item-answer :
      (k : Text) (c : MemoryCache L) → IsValid list view laws c → (get_item list k c).0 ≡ answer k c
  unfolding get_item
  get_item-answer k c v = elim (Bool-cases (is_empty k)) [
    | inl b ↦ rw b refl
    | inr b ↦ elim (Option-cases (c.m k)) [
      | inl m ↦ rw (b, m) (ap ok (sym (item_of-none k (view c.lru_list) (sym (v.indexed k) ∙ m))))
      | inr (a, m) ↦
          let (e, at, key, it) = read_entry list view laws c k a v m in
          rw (b, m) (ap ok (moved-item_at a c e at ∙ sym it))
    ]
  ]

  -- What `Set` of an item leaves.
  pub record IsStored (key : Text) (item : CacheItem) (c d : MemoryCache L) : Type 0 where
    pub valid : IsValid list view laws d
    pub same : item_of key (view d.lru_list) ≡ some item
    pub others :
        (k : Text)
        → texts_eq key k ≡ false
        → (item_of k (view d.lru_list) ≡ item_of k (view c.lru_list))
          ⊎ (item_of k (view d.lru_list) ≡ none)
    pub order :
        (kept : List Text) × (gone : List Text) × (keys (view d.lru_list) ≡ key ∷ kept)
        × (other_keys key (view c.lru_list) ≡ kept ++ gone)
    pub bounded : (capacity : ℕ) → IsBounded capacity c → IsBounded capacity d
    pub fits :
        c.m key ≡ none
        → 0 < d.max_size_bytes
        → (d.current_size ≤ d.max_size_bytes) ⊎ (keys (view d.lru_list) ≡ key ∷ [])

  updated-IsStored :
      (key : Text) (item : CacheItem) (n a : ℕ) (c : MemoryCache L)
      → IsValid list view laws c
      → c.m key ≡ some a
      → (d : MemoryCache L) × (update_entry list a item n c ≡ some d) × IsStored key item c d
  updated-IsStored key item n a c v m =
      let l = view c.lru_list in
      let (d, e, done, valid, at, name, is, cap) =
        update_entry-some list view laws key a item n c v m in
      let f : CacheEntry = record e { item = item; size = n } in
      let front = λ (k : Text). ap (item_of k) is ∙ front-item_of a k l e f v.distinct at refl in
      (
        d,
        done,
        record {
          valid = valid;
          same =
              front key
              ∙ if_true (texts_eq e.key key) (some item) (item_of key l)
                  ((texts_eq_iff e.key key).1 name);
          others = λ k other.
              inl (front k ∙ if_false (texts_eq e.key k) (some item) (item_of k l) (rw name other));
          order = (
            keys (without a l),
            [],
            ap keys is ∙ ap (λ k. k ∷ keys (without a l)) name,
            ap (λ k. other_keys k l) (sym name)
                ∙ other_keys-without a l e v.distinct at
                ∙ sym (append-nil (keys (without a l))),
          );
          fits = λ none p. absurd (cc (m, none));
          bounded = λ n b. (cap ∙ b.0, λ p. rw is (omega (arith, b.1 p, length-without a l e at)));
        },
      )

  fitting :
      (d : MemoryCache L) (l : Entries) (n : ℕ) (key : Text) (after : L) {a : ℕ} {e : CacheEntry}
      → view d.lru_list ≡ l
      → view after ≡ (a, e) ∷ l
      → e.key ≡ key
      → needs_room list n d ≡ false
      → 0 < d.max_size_bytes
      → (d.current_size + n ≤ d.max_size_bytes) ⊎ (keys (view after) ≡ key ∷ [])
  unfolding needs_room
  fitting d [] n key after was is name f p = inr (ap keys is ∙ ap (λ k. k ∷ []) name)
  fitting d (x ∷ l) n key after was is name f p =
      inl (ground (arith, laws.len_is d.lru_list, ap length was))

  added-IsStored :
      (key : Text) (item : CacheItem) (n : ℕ) (c d : MemoryCache L)
      → IsValid list view laws c
      → c.m key ≡ none
      → is_empty key ≡ false
      → IsEvicted list view laws n c d
      → IsStored key item c (add_entry list key item n d)
  unfolding add_entry needs_room
  added-IsStored key item n c d v m named r =
      let e : CacheEntry = record { item = item; key = key; size = n } in
      let is = laws.push_is e d.lru_list in
      let (gone, was) = r.kept in
      record {
        valid =
            add_entry-IsValid list view laws key item n d r.valid
              (absent list view laws n c d key v r m) named;
        same =
            ap (item_of key) is
            ∙ if_true (texts_eq key key) (some item) (item_of key (view d.lru_list))
                (texts_eq_refl key);
        others = λ k other. rw (is, other, was) (kept_or_gone k (view d.lru_list) gone);
        order = (
          keys (view d.lru_list),
          keys gone,
          ap keys is,
          other_keys_absent key (view c.lru_list) (sym (v.indexed key) ∙ m)
              ∙ ap keys was
              ∙ keys-append (view d.lru_list) gone,
        );
        fits = λ new p.
            fitting d (view d.lru_list) n key (list.push_front e d.lru_list).1 refl is refl r.fits
              p;
        bounded = λ n b. (
          r.capacity ∙ b.0,
          λ p. rw is (ground (arith, r.fits, r.capacity, b.0, laws.len_is d.lru_list)),
        );
      }

  put_item_hit :
      (metadata : CacheItem → Option (List ℕ)) (key : Text) (item : CacheItem) (a : ℕ)
      (c : MemoryCache L)
      → c.m key ≡ some a
      → put_item list metadata key item c
        ≡ stored (update_entry list a item (item_size metadata item) c)
  unfolding put_item
  put_item_hit metadata key item a c m = rw (m, put_item) refl

  put_item_new :
      (metadata : CacheItem → Option (List ℕ)) (key : Text) (item : CacheItem) (c d : MemoryCache L)
      → c.m key ≡ none
      → evict list (list.len c.lru_list) (item_size metadata item) c ≡ some d
      → put_item list metadata key item c
        ≡ some (ok tt, add_entry list key item (item_size metadata item) d)
  unfolding put_item
  put_item_new metadata key item c d m e = ground arith

  -- With a list that follows its library's documentation, setting an item under a key that is not
  -- empty in a valid cache ends without a panic: the item is the first of the list, every other
  -- key has the item it had or none, those kept are in their order and those gone were the last,
  -- a capacity that was kept is kept, and with a new key the size is within the limit or the item
  -- is alone.
  pub put_item-IsStored :
      (metadata : CacheItem → Option (List ℕ)) (key : Text) (item : CacheItem) (c : MemoryCache L)
      → IsValid list view laws c
      → is_empty key ≡ false
      → (d : MemoryCache L) × (put_item list metadata key item c ≡ some (ok tt, d))
        × IsStored key item c d
  put_item-IsStored metadata key item c v named = elim (Option-cases (c.m key)) [
    | inr (a, m) ↦
        let (d, done, s) = updated-IsStored key item (item_size metadata item) a c v m in
        (d, put_item_hit metadata key item a c m ∙ ap stored done, s)
    | inl m ↦
        let n = item_size metadata item in
        let (d, done, r) =
          evict-IsEvicted list view laws (list.len c.lru_list) n c v
            (omega (arith, laws.len_is c.lru_list)) in
        (
          add_entry list key item n d,
          put_item_new metadata key item c d m done,
          added-IsStored key item n c d v m named r,
        )
  ]
