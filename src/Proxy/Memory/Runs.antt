-- ===== src/Proxy/Memory/Runs.antt =====
-- Every sequence of calls of the cache goes through and keeps it valid and bounded.
use synctv.Base.{
  ℕ, Option, none, some, List, [], ◌∷◌, ◌≡◌, refl, arith, Bool-cases, Option-cases, inl, inr, ap,
  ◌∙◌,
}
use synctv.Base.Text.{Text, is_empty}
use synctv.Proxy.Slice.{CacheItem}
use synctv.Proxy.Memory.{Dllist, MemoryCache, get_item, set_item, new_memory_cache}
use synctv.Proxy.Memory.Entries.{Entries, DllistLaws, in_front}
use synctv.Proxy.Memory.Entries.Laws.{length-without}
use synctv.Proxy.Memory.Invariant.{IsValid, read_entry, new-IsValid, get_item-IsValid}
use synctv.Proxy.Memory.Stored.{IsBounded, put_item-IsStored}

pub data Call : Type 0 where
  get any : Text → Call
  set : Text → Option CacheItem → Call

abbrev pub state_of :
    {L : Type 0} {A : Type 0} → Option (A × MemoryCache L) → Option (MemoryCache L)
state_of none = none
state_of (some (a, c)) = some c

module _ {L : Type 0} (list : Dllist L) (metadata : CacheItem → Option (List ℕ)) where
  -- The cache after a call; `none` if the call panics.
  pub after : Call → MemoryCache L → Option (MemoryCache L)
  after (get k) c = some (get_item list k c).1
  after (any k) c = some c
  after (set k item) c = state_of (set_item list metadata k item c)

  pub run : List Call → MemoryCache L → Option (MemoryCache L)
  run [] c = some c
  run (x ∷ xs) c = elim (after x c) [ none ↦ none | some d ↦ run xs d ]

module _ {L : Type 0} (list : Dllist L) (view : L → Entries) (laws : DllistLaws list view)
    (metadata : CacheItem → Option (List ℕ)) (capacity : ℕ) where
  get_item-IsBounded :
      (k : Text) (c : MemoryCache L)
      → IsValid list view laws c
      → IsBounded list view laws capacity c
      → IsBounded list view laws capacity (get_item list k c).1
  unfolding get_item
  get_item-IsBounded k c v b = elim (Bool-cases (is_empty k)) [
    | inl e ↦ rw e b
    | inr e ↦ elim (Option-cases (c.m k)) [
      | inl m ↦ rw (e, m) b
      | inr (a, m) ↦
          let (x, at, key, it) = read_entry list view laws c k a v m in
          let front = laws.move_is a c.lru_list ∙ ap (λ o. in_front a o (view c.lru_list)) at in
          rw (e, m)
            (b.0, λ p. rw front (omega (arith, b.1 p, length-without a (view c.lru_list) x at)))
    ]
  ]

  after-some :
      (x : Call) (c : MemoryCache L)
      → IsValid list view laws c
      → IsBounded list view laws capacity c
      → (d : MemoryCache L) × (after list metadata x c ≡ some d)
        × IsValid list view laws d
        × IsBounded list view laws capacity d
  unfolding after set_item
  after-some (get k) c v b = (
    (get_item list k c).1,
    refl,
    get_item-IsValid list view laws k c v,
    get_item-IsBounded k c v b,
  )
  after-some (any k) c v b = (c, refl, v, b)
  after-some (set k none) c v b = (c, ground arith, v, b)
  after-some (set k (some item)) c v b = elim (Bool-cases (is_empty k)) [
    | inl e ↦ (c, rw e refl, v, b)
    | inr e ↦
        let (d, done, s) = put_item-IsStored list view laws metadata k item c v e in
        (d, rw (e, done) refl, s.valid, s.bounded capacity b)
  ]

  run-some :
      (xs : List Call) (c : MemoryCache L)
      → IsValid list view laws c
      → IsBounded list view laws capacity c
      → (d : MemoryCache L) × (run list metadata xs c ≡ some d)
        × IsValid list view laws d
        × IsBounded list view laws capacity d
  unfolding run
  run-some [] c v b = (c, refl, v, b)
  run-some (x ∷ xs) c v b =
      let (d, done, w, p) = after-some x c v b in
      let (e, rest, u, q) = run-some xs d w p in (e, rw (done, run) rest, u, q)

  -- With a list that follows its library's documentation, any calls on a new cache in memory go
  -- through without a panic and end; after them the map, the list, the tree of prefixes and the
  -- size agree with each other, and the entries are not more than a capacity that is not 0.
  pub run-IsValid :
      (max_size : ℕ) (xs : List Call)
      → (d : MemoryCache L) × (run list metadata xs (new_memory_cache list capacity max_size)
          ≡ some d)
        × IsValid list view laws d
        × IsBounded list view laws capacity d
  unfolding new_memory_cache
  run-IsValid max_size xs =
      run-some xs (new_memory_cache list capacity max_size)
        (new-IsValid list view laws capacity max_size) (refl, λ p. rw laws.new_is (omega arith))
