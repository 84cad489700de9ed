-- ===== src/Proxy/Memory/Eviction.antt =====
-- The eviction takes entries off the back until the new one fits, and ends.
use mathlib.Core.List.{append_assoc, append-nil}
use synctv.Base.{
  ℕ, zero, suc, ◌≤◌, ◌<◌, true, false, none, some, [], ◌∷◌, ◌++◌, ◌==◌, length, ◌≡◌, refl, arith,
  Bool-cases, inl, inr, ap, ◌∙◌, sym,
}
use synctv.Base.Text.{Text}
use synctv.Proxy.Memory.{CacheEntry, Dllist, MemoryCache, needs_room, evict}
use synctv.Proxy.Memory.Entries.{
  Entries, DllistLaws, entry_at, without, last_address, address_of, IsDistinct,
}
use synctv.Proxy.Memory.Entries.Laws.{length-without, last-entry}
use synctv.Proxy.Memory.Invariant.{IsValid, evict_back-some}

without_last :
    (l : Entries) (a : ℕ) (e : CacheEntry)
    → IsDistinct l
    → last_address l ≡ some a
    → entry_at a l ≡ some e
    → l ≡ without a l ++ (a, e) ∷ []
without_last [] a e d h at = cc
without_last ((b, f) ∷ []) a e d h at = ground arith
without_last ((b, f) ∷ x ∷ l) a e (u, v, w, d) h at = elim (Bool-cases (b == a)) [
  | inl s ↦
      let (a', e', last, there) = last-entry (x ∷ l) d (omega arith) in
      let t : b ≡ a' = ground arith in absurd (cc (ap (λ y. entry_at y (x ∷ l)) t))
  | inr s ↦ rw s (ap (◌∷◌ (b, f)) (without_last (x ∷ l) a e d h (ground arith)))
]

present-append : (k : Text) (l r : Entries) → address_of k (l ++ r) ≡ none → address_of k l ≡ none
present-append k [] r h = refl
present-append k ((b, f) ∷ l) r h = ground (arith, present-append k l r)

module _ {L : Type 0} (list : Dllist L) (view : L → Entries) (laws : DllistLaws list view) where
  -- What the eviction leaves of a cache for an item of a size.
  pub record IsEvicted (n : ℕ) (c d : MemoryCache L) : Type 0 where
    pub valid : IsValid list view laws d
    pub fits : needs_room list n d ≡ false
    pub kept : (gone : Entries) × (view c.lru_list ≡ view d.lru_list ++ gone)
    pub capacity : d.capacity ≡ c.capacity
    pub max_size : d.max_size_bytes ≡ c.max_size_bytes

  pub absent :
      (n : ℕ) (c d : MemoryCache L) (k : Text)
      → IsValid list view laws c
      → IsEvicted n c d
      → c.m k ≡ none
      → d.m k ≡ none
  absent n c d k v r h =
      let (gone, is) = r.kept in
      r.valid.indexed k
      ∙ present-append k (view d.lru_list) gone (sym (ap (address_of k) is) ∙ sym (v.indexed k) ∙ h)

  nothing_gone :
      (n : ℕ) (c : MemoryCache L)
      → IsValid list view laws c
      → needs_room list n c ≡ false
      → IsEvicted n c c
  nothing_gone n c v h = record {
    valid = v;
    fits = h;
    kept = ([], sym (append-nil (view c.lru_list)));
    capacity = refl;
    max_size = refl;
  }

  needs_none :
      (n : ℕ) (c : MemoryCache L) → length (view c.lru_list) ≤ 0 → needs_room list n c ≡ false
  unfolding needs_room
  needs_none n c h = ground (arith, laws.len_is c.lru_list)

  needs_some :
      (n : ℕ) (c : MemoryCache L) → needs_room list n c ≡ true → 0 < length (view c.lru_list)
  unfolding needs_room
  needs_some n c h = ground (arith, laws.len_is c.lru_list)

  pub evict-IsEvicted :
      (fuel n : ℕ) (c : MemoryCache L)
      → IsValid list view laws c
      → length (view c.lru_list) ≤ fuel
      → (d : MemoryCache L) × (evict list fuel n c ≡ some d) × IsEvicted n c d
  unfolding evict
  evict-IsEvicted zero n c v h =
      let full : needs_room list n c ≡ false = needs_none n c (omega arith) in
      (c, rw full refl, nothing_gone n c v full)
  evict-IsEvicted (suc fuel) n c v h = elim (Bool-cases (needs_room list n c)) [
    | inr full ↦ (c, rw full refl, nothing_gone n c v full)
    | inl more ↦
        let (d, a, e, one, valid, last, at, is, cap, most) =
          evict_back-some list view laws c v (needs_some n c more) in
        let (r, rest, left) =
          evict-IsEvicted fuel n d valid
            (rw is (omega (arith, length-without a (view c.lru_list) e at))) in
        let (gone, kept) = left.kept in
        (
          r,
          rw (more, one) rest,
          record {
            valid = left.valid;
            fits = left.fits;
            kept = (
              gone ++ (a, e) ∷ [],
              without_last (view c.lru_list) a e v.distinct last at
                  ∙ ap (λ x. x ++ (a, e) ∷ []) (sym is ∙ kept)
                  ∙ append_assoc (view r.lru_list) gone ((a, e) ∷ []),
            );
            capacity = left.capacity ∙ cap;
            max_size = left.max_size ∙ most;
          },
        )
  ]
