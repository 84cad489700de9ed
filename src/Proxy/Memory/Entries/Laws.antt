-- ===== src/Proxy/Memory/Entries/Laws.antt =====
-- What removing an entry, or moving it to the front, does to what a list of entries says.
use synctv.Base.{
  ℕ, ◌+◌, ◌<◌, false, none, some, [], ◌∷◌, ◌==◌, length, ◌≡◌, refl, arith, if◌then◌else◌,
  Bool-cases, inl, inr, ap,
}
use synctv.Base.Text.{Text, texts_eq, is_empty}
use synctv.Base.Text.Laws.{texts_eq_iff, texts_eq_refl}
use synctv.Proxy.Memory.{CacheEntry}
use synctv.Proxy.Memory.Entries.{
  Entries, entry_at, without, last_address, address_of, item_of, total_size, IsDistinct,
}

-- Facts on the entry that stands at an address.
pub address_of_key :
    (a : ℕ) (l : Entries) (e : CacheEntry)
    → IsDistinct l
    → entry_at a l ≡ some e
    → address_of e.key l ≡ some a
address_of_key a [] e d h = cc
address_of_key a ((b, f) ∷ l) e (x, y, z, d) h = elim (Bool-cases (b == a)) [
  | inl s ↦ ground (arith, texts_eq_refl e.key)
  | inr s ↦
      let ih = address_of_key a l e d (ground arith) in ground (arith, texts_eq_iff f.key e.key)
]

pub key_named :
    (a : ℕ) (l : Entries) (e : CacheEntry)
    → IsDistinct l
    → entry_at a l ≡ some e
    → is_empty e.key ≡ false
key_named a [] e d h = cc
key_named a ((b, f) ∷ l) e (x, y, z, d) h = ground (arith, key_named a l e d)

pub entry_of_key :
    (k : Text) (l : Entries) (a : ℕ)
    → IsDistinct l
    → address_of k l ≡ some a
    → (e : CacheEntry) × (entry_at a l ≡ some e) × (e.key ≡ k) × (item_of k l ≡ some e.item)
entry_of_key k [] a d h = cc
entry_of_key k ((b, f) ∷ l) a (x, y, z, d) h = elim (Bool-cases (texts_eq f.key k)) [
  | inl s ↦ (f, ground arith, (texts_eq_iff f.key k).0 s, ground arith)
  | inr s ↦
      let (e, p, q, r) = entry_of_key k l a d (ground arith) in (e, ground arith, q, ground arith)
]

pub item_of-none : (k : Text) (l : Entries) → address_of k l ≡ none → item_of k l ≡ none
item_of-none k [] h = refl
item_of-none k ((b, f) ∷ l) h = ground (arith, item_of-none k l)

pub entry_at-without :
    (a b : ℕ) (l : Entries)
    → IsDistinct l
    → entry_at b (without a l) ≡ (if b == a then none else entry_at b l)
entry_at-without a b [] d = ground arith
entry_at-without a b ((c, f) ∷ l) (x, y, z, d) = ground (arith, entry_at-without a b l d)

pub address_of-without :
    (a : ℕ) (k : Text) (l : Entries) (e : CacheEntry)
    → IsDistinct l
    → entry_at a l ≡ some e
    → address_of k (without a l) ≡ (if texts_eq e.key k then none else address_of k l)
address_of-without a k [] e d h = cc
address_of-without a k ((b, f) ∷ l) e (x, y, z, d) h = elim (Bool-cases (b == a)) [
  | inl s ↦ ground (arith, texts_eq_iff f.key k)
  | inr s ↦
      let ih = address_of-without a k l e d (ground arith) in
      let other = address_of_key a l e d (ground arith) in
      ground (arith, texts_eq_iff f.key k, texts_eq_iff e.key k)
]

pub item_of-without :
    (a : ℕ) (k : Text) (l : Entries) (e : CacheEntry)
    → IsDistinct l
    → entry_at a l ≡ some e
    → item_of k (without a l) ≡ (if texts_eq e.key k then none else item_of k l)
item_of-without a k [] e d h = cc
item_of-without a k ((b, f) ∷ l) e (x, y, z, d) h = elim (Bool-cases (b == a)) [
  | inl s ↦ ground (arith, texts_eq_iff f.key k, item_of-none k l)
  | inr s ↦
      let ih = item_of-without a k l e d (ground arith) in
      let other = address_of_key a l e d (ground arith) in
      ground (arith, texts_eq_iff f.key k, texts_eq_iff e.key k)
]

absent-without :
    (a : ℕ) (k : Text) (l : Entries) → address_of k l ≡ none → address_of k (without a l) ≡ none
absent-without a k [] h = refl
absent-without a k ((b, f) ∷ l) h = ground (arith, absent-without a k l)

pub without-IsDistinct : (a : ℕ) (l : Entries) → IsDistinct l → IsDistinct (without a l)
without-IsDistinct a [] d = d
without-IsDistinct a ((b, f) ∷ l) (x, y, z, d) = elim (Bool-cases (b == a)) [
  | inl s ↦ rw s d
  | inr s ↦ rw s (
    ground (arith, entry_at-without a b l d),
    absent-without a f.key l y,
    z,
    without-IsDistinct a l d,
  )
]

pub total-without :
    (a : ℕ) (l : Entries) (e : CacheEntry)
    → entry_at a l ≡ some e
    → total_size (without a l) + e.size ≡ total_size l
total-without a [] e h = cc
total-without a ((b, f) ∷ l) e h = ground (arith, total-without a l e)

pub length-without :
    (a : ℕ) (l : Entries) (e : CacheEntry)
    → entry_at a l ≡ some e
    → length (without a l) + 1 ≡ length l
length-without a [] e h = cc
length-without a ((b, f) ∷ l) e h = ground (arith, length-without a l e)

-- An entry, with another item perhaps, in front of the others.
pub front-IsDistinct :
    (a : ℕ) (l : Entries) (e f : CacheEntry)
    → IsDistinct l
    → entry_at a l ≡ some e
    → f.key ≡ e.key
    → IsDistinct ((a, f) ∷ without a l)
front-IsDistinct a l e f d h s = (
  ground (arith, entry_at-without a a l d),
  ground (arith, address_of-without a f.key l e d h, texts_eq_iff e.key f.key),
  rw s (key_named a l e d h),
  without-IsDistinct a l d,
)

pub front-address_of :
    (a : ℕ) (k : Text) (l : Entries) (e f : CacheEntry)
    → IsDistinct l
    → entry_at a l ≡ some e
    → f.key ≡ e.key
    → address_of k ((a, f) ∷ without a l) ≡ address_of k l
front-address_of a k l e f d h s = ground (
  arith,
  address_of-without a k l e d h,
  texts_eq_iff e.key k,
  texts_eq_iff f.key k,
  address_of_key a l e d h,
)

pub front-item_of :
    (a : ℕ) (k : Text) (l : Entries) (e f : CacheEntry)
    → IsDistinct l
    → entry_at a l ≡ some e
    → f.key ≡ e.key
    → item_of k ((a, f) ∷ without a l) ≡ (if texts_eq e.key k then some f.item else item_of k l)
front-item_of a k l e f d h s =
    ground (arith, item_of-without a k l e d h, texts_eq_iff e.key k, texts_eq_iff f.key k)

not_first :
    (b a : ℕ) (f e : CacheEntry) (l : Entries)
    → entry_at b l ≡ none
    → entry_at a l ≡ some e
    → entry_at a ((b, f) ∷ l) ≡ some e
not_first b a f e l u q = elim (Bool-cases (b == a)) [
  | inl s ↦ let t : b ≡ a = ground arith in absurd (cc (ap (λ x. entry_at x l) t))
  | inr s ↦ ground arith
]

-- A list that is not empty has a last entry.
pub last-entry :
    (l : Entries)
    → IsDistinct l
    → 0 < length l
    → (a : ℕ) × (e : CacheEntry) × (last_address l ≡ some a) × (entry_at a l ≡ some e)
last-entry [] d h = absurd (omega arith)
last-entry ((a, e) ∷ []) d h = (a, e, refl, ground arith)
last-entry ((b, f) ∷ x ∷ l) (u, v, w, d) h =
    let (a, e, p, q) = last-entry (x ∷ l) d (omega arith) in
    (a, e, p, not_first b a f e (x ∷ l) u q)
