-- ===== src/Proxy/Request/Stored.antt =====
-- The cache in memory gives only what it was given: it implements the cache that the slices need.
use mathlib.Core.Path.{subst}
use synctv.Base.{
  ℕ, false, Option, some, List, [], ◌∷◌, ◌++◌, ◌≡◌, refl, if◌then◌else◌, Bool-cases, Option-cases,
  inl, inr, ap, ◌∙◌, sym, if_true, if_false,
}
use synctv.Base.Result.{Result, ok}
use synctv.Base.Text.{Text, texts_eq, is_empty, decimal}
use synctv.Base.Text.Laws.{texts_eq_iff, decimal_injective}
use synctv.Proxy.Slice.{CacheItem}
use synctv.Proxy.Slice.Range.{CacheLaws}
use synctv.Proxy.Header.{hyphen}
use synctv.Proxy.Memory.{CacheEntry, Dllist, MemoryCache, get_item, set_item}
use synctv.Proxy.Memory.Entries.{Entries, DllistLaws, item_of, in_front}
use synctv.Proxy.Memory.Entries.Laws.{front-item_of}
use synctv.Proxy.Memory.Invariant.{IsValid, read_entry, get_item-IsValid}
use synctv.Proxy.Memory.Stored.{get_item-answer, IsStored, put_item-IsStored}
use synctv.Proxy.Request.{cache_key, memory_cache, recovered}

append_injective : (p x y : Text) → p ++ x ≡ p ++ y → x ≡ y
append_injective [] x y h = h
append_injective (c ∷ p) x y h = append_injective p x y (cc)

tail_injective : (c : ℕ) (x y : Text) → c ∷ x ≡ c ∷ y → x ≡ y
tail_injective c x y h = cc

-- Offsets have keys of their own.
pub cache_key_injective :
    (hash : Text) (size i j : ℕ) → cache_key hash size i ≡ cache_key hash size j → i ≡ j
unfolding cache_key
cache_key_injective hash size i j h =
    let one = tail_injective hyphen _ _ (append_injective hash _ _ h) in
    decimal_injective i j (tail_injective hyphen _ _ (append_injective (decimal size) _ _ one))

cache_key-is_empty : (hash : Text) (size i : ℕ) → is_empty (cache_key hash size i) ≡ false
unfolding cache_key is_empty
cache_key-is_empty [] size i = refl
cache_key-is_empty (c ∷ hash) size i = refl

same_item : (i j : CacheItem) → some i ≡ some j → i ≡ j
same_item i j h = cc

same_answer :
    (o : Option CacheItem) (i : CacheItem)
    → ◌≡◌ {A = Result (Option CacheItem)} (ok o) (ok (some i))
    → o ≡ some i
same_answer o i h = cc

module _ {L : Type 0} (list : Dllist L) (view : L → Entries) (laws : DllistLaws list view)
    (metadata : CacheItem → Option (List ℕ)) (hash : Text) (size : ℕ) where
  -- The cache is valid, and every item under the key of an offset has the property.
  pub record Holds (P : ℕ → CacheItem → Type 0) (c : MemoryCache L) : Type 0 where
    pub valid : IsValid list view laws c
    pub all :
        (offset : ℕ) (item : CacheItem)
        → item_of (cache_key hash size offset) (view c.lru_list) ≡ some item
        → P offset item

  unchanged :
      (j k : Text) (c : MemoryCache L) (e : CacheEntry)
      → e.key ≡ k
      → item_of k (view c.lru_list) ≡ some e.item
      → (if texts_eq e.key j then some e.item else item_of j (view c.lru_list))
        ≡ item_of j (view c.lru_list)
  unchanged j k c e key it = elim (Bool-cases (texts_eq e.key j)) [
    | inl b ↦
        if_true (texts_eq e.key j) _ _ b
        ∙ sym it
        ∙ ap (λ x. item_of x (view c.lru_list)) (sym key ∙ (texts_eq_iff e.key j).0 b)
    | inr b ↦ if_false (texts_eq e.key j) _ _ b
  ]

  -- `Get` changes the order of the entries only.
  get_item-item_of :
      (k j : Text) (c : MemoryCache L)
      → IsValid list view laws c
      → item_of j (view (get_item list k c).1.lru_list) ≡ item_of j (view c.lru_list)
  unfolding get_item
  get_item-item_of k j c v = elim (Bool-cases (is_empty k)) [
    | inl b ↦ rw b refl
    | inr b ↦ elim (Option-cases (c.m k)) [
      | inl m ↦ rw (b, m) refl
      | inr (a, m) ↦
          let (e, at, key, it) = read_entry list view laws c k a v m in
          let front = laws.move_is a c.lru_list ∙ ap (λ o. in_front a o (view c.lru_list)) at in
          rw (b, m)
            (ap (item_of j) front
              ∙ front-item_of a j (view c.lru_list) e e v.distinct at refl
              ∙ unchanged j k c e key it)
    ]
  ]

  got :
      (k : ℕ) (c : MemoryCache L) (item : CacheItem)
      → IsValid list view laws c
      → (get_item list (cache_key hash size k) c).0 ≡ ok (some item)
      → item_of (cache_key hash size k) (view c.lru_list) ≡ some item
  got k c item v is =
      let key = cache_key hash size k in
      same_answer (item_of key (view c.lru_list)) item (
        sym (if_false (is_empty key) _ _ (cache_key-is_empty hash size k))
        ∙ sym (get_item-answer list view laws key c v)
        ∙ is)

  stored_new :
      (P : ℕ → CacheItem → Type 0) (k : ℕ) (item : CacheItem) (c d : MemoryCache L)
      → Holds P c
      → P k item
      → IsStored list view laws (cache_key hash size k) item c d
      → Holds P d
  stored_new P k item c d h p s = record {
    valid = s.valid;
    all = λ offset other is.
        elim (Bool-cases (texts_eq (cache_key hash size k) (cache_key hash size offset))) [
          | inl b ↦
              let e =
                cache_key_injective hash size k offset
                  ((texts_eq_iff (cache_key hash size k) (cache_key hash size offset)).0 b) in
              let found =
                sym s.same ∙ ap (λ x. item_of (cache_key hash size x) (view d.lru_list)) e ∙ is in
              subst (λ x. P x other) e (subst (P k) (same_item item other found) p)
          | inr b ↦ elim (s.others (cache_key hash size offset) b) [
            | inl kept ↦ h.all offset other (sym kept ∙ is)
            | inr gone ↦ absurd (cc (gone, is))
          ]
        ];
  }

  set-recovered :
      (P : ℕ → CacheItem → Type 0) (k : ℕ) (item : CacheItem) (c : MemoryCache L)
      → Holds P c
      → P k item
      → Holds P (recovered c (set_item list metadata (cache_key hash size k) (some item) c)).1
  unfolding set_item
  set-recovered P k item c h p =
      let key = cache_key hash size k in
      let (d, done, s) =
        put_item-IsStored list view laws metadata key item c h.valid
          (cache_key-is_empty hash size k) in
      rw (cache_key-is_empty hash size k, done) (stored_new P k item c d h p s)

  -- The cache in memory satisfies what the slices rely on.
  pub memory-CacheLaws : CacheLaws (memory_cache list metadata hash size) Holds
  unfolding memory_cache
  memory-CacheLaws = record {
    get_holds = λ P k c h. record {
      valid = get_item-IsValid list view laws (cache_key hash size k) c h.valid;
      all = λ offset item is. h.all offset item (
          sym (get_item-item_of (cache_key hash size k) (cache_key hash size offset) c h.valid)
          ∙ is);
    };
    get_is = λ P k c item h is. h.all k item (got k c item h.valid is);
    set_holds = λ P k item c h p. set-recovered P k item c h p;
  }
