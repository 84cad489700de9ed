-- ===== src/Proxy/Memory/Entries.antt =====
-- The list of a cache as its library documents it: the entries by address, most recent first.
pub mod Laws
use synctv.Base.{
  ℕ, zero, suc, ◌+◌, ◌-◌, ◌≤◌, Bool, true, false, Option, none, some, List, [], ◌∷◌, ◌==◌, length,
  ◌≡◌, refl, arith, if◌then◌else◌, Bool-cases, inl, inr,
}
use synctv.Base.Text.{Text, texts_eq, is_empty}
use synctv.Base.Text.Laws.{texts_eq_iff}
use synctv.Proxy.Slice.{CacheItem}
use synctv.Proxy.Memory.{CacheEntry, Dllist}

abbrev pub Entries : Type 0
Entries = List (ℕ × CacheEntry)

abbrev pub entry_at : ℕ → Entries → Option CacheEntry
entry_at a [] = none
entry_at a ((b, e) ∷ l) = if b == a then some e else entry_at a l

abbrev pub without : ℕ → Entries → Entries
without a [] = []
without a ((b, e) ∷ l) = if b == a then l else (b, e) ∷ without a l

abbrev pub in_front : ℕ → Option CacheEntry → Entries → Entries
in_front a none l = l
in_front a (some e) l = (a, e) ∷ without a l

abbrev pub to_front : ℕ → Entries → Entries
to_front a l = in_front a (entry_at a l) l

abbrev pub overwritten : ℕ → CacheEntry → Entries → Entries
overwritten a e [] = []
overwritten a e ((b, f) ∷ l) = if b == a then (b, e) ∷ l else (b, f) ∷ overwritten a e l

abbrev pub last_address : Entries → Option ℕ
last_address [] = none
last_address ((a, e) ∷ []) = some a
last_address ((a, e) ∷ b ∷ l) = last_address (b ∷ l)

-- What the cache relies on of the library: how each operation changes the list of elements from
-- front to back, and that a new element has an address of its own.
pub record DllistLaws {L : Type 0} (list : Dllist L) (view : L → Entries) : Type 0 where
  pub new_is : view list.new ≡ []
  pub len_is : (l : L) → list.len l ≡ length (view l)
  pub back_is : (l : L) → list.back l ≡ last_address (view l)
  pub read_is : (a : ℕ) (l : L) → list.read a l ≡ entry_at a (view l)
  pub push_is :
      (e : CacheEntry) (l : L)
      → view (list.push_front e l).1 ≡ ((list.push_front e l).0, e) ∷ view l
  pub push_new : (e : CacheEntry) (l : L) → entry_at (list.push_front e l).0 (view l) ≡ none
  pub move_is : (a : ℕ) (l : L) → view (list.move_to_front a l) ≡ to_front a (view l)
  pub remove_is : (a : ℕ) (l : L) → view (list.remove a l) ≡ without a (view l)
  pub write_is :
      (a : ℕ) (e : CacheEntry) (l : L) → view (list.write a e l) ≡ overwritten a e (view l)

-- The address of a key's entry.
abbrev pub address_of : Text → Entries → Option ℕ
address_of k [] = none
address_of k ((a, e) ∷ l) = if texts_eq e.key k then some a else address_of k l

-- The item of a key.
abbrev pub item_of : Text → Entries → Option CacheItem
item_of k [] = none
item_of k ((a, e) ∷ l) = if texts_eq e.key k then some e.item else item_of k l

abbrev pub total_size : Entries → ℕ
total_size [] = 0
total_size ((a, e) ∷ l) = e.size + total_size l

-- Addresses and keys stand once, and no key is empty.
abbrev pub IsDistinct : Entries → Type 0
IsDistinct [] = Unit {0}
IsDistinct ((a, e) ∷ l) =
    (entry_at a l ≡ none) × (address_of e.key l ≡ none) × (is_empty e.key ≡ false) × IsDistinct l
