-- ===== src/Examples/Caches.antt =====
-- The theorems on the cache in memory, with a list of elements that is a list of pairs.
use synctv.Base.{
  ℕ, zero, suc, ◌+◌, ◌≤◌, Option, none, some, List, [], ◌∷◌, ◌++◌, ◌≡◌, refl, arith, ◌⊎◌,
}
use synctv.Base.Result.{Result, ok}
use synctv.Base.Text.{Text, codes, is_empty}
use synctv.Proxy.Slice.{CacheItem, Response}
use synctv.Proxy.Memory.{
  Dllist, MemoryCache, new_memory_cache, add_entry, put_item, get_any_with_prefix,
}
use synctv.Proxy.Memory.Entries.{
  Entries, DllistLaws, entry_at, without, to_front, overwritten, last_address, item_of,
}
use synctv.Proxy.Memory.Invariant.{IsValid, new-IsValid, add_entry-IsValid}
use synctv.Proxy.Memory.Stored.{IsBounded, IsStored, put_item-IsStored}
use synctv.Proxy.Memory.Prefix.{get_any_with_prefix_iff}
use synctv.Proxy.Memory.Runs.{Call, get, any, set, run, run-IsValid}
use synctv.Proxy.Request.{memory_cache, proxy_requests}
use synctv.Proxy.Request.Served.{AllAnswered, memory-AllAnswered}
use synctv.Examples.Slices.{letters, source, source-IsSourceOf}

-- An address that is larger than all others.
abbrev fresh : Entries → ℕ
fresh [] = 0
fresh ((a, e) ∷ l) = suc (a + fresh l)

fresh_absent : (n : ℕ) (l : Entries) → fresh l ≤ n → entry_at n l ≡ none
fresh_absent n [] h = refl
fresh_absent n ((a, e) ∷ l) h = ground (arith, fresh_absent n l)

abbrev list : Dllist Entries
list = record {
  new = [];
  len = synctv.Base.length;
  back = last_address;
  push_front = λ e l. (fresh l, (fresh l, e) ∷ l);
  move_to_front = to_front;
  remove = without;
  read = entry_at;
  write = overwritten;
}

abbrev view : Entries → Entries
view l = l

list-DllistLaws : DllistLaws list view
list-DllistLaws = record {
  new_is = refl;
  len_is = λ l. refl;
  back_is = λ l. refl;
  read_is = λ a l. refl;
  push_is = λ e l. refl;
  push_new = λ e l. fresh_absent (fresh l) l (omega arith);
  move_is = λ a l. refl;
  remove_is = λ a l. refl;
  write_is = λ a e l. refl;
}

abbrev metadata : CacheItem → Option (List ℕ)
metadata i = some (1 ∷ 2 ∷ [])

abbrev item : CacheItem
item = record { bytes = 7 ∷ 8 ∷ []; content_total_length = some 5; content_type = "video/mp4" }

abbrev calls : List Call
calls =
    set (codes "a") (some item)
    ∷ set (codes "ab") (some item)
    ∷ get (codes "a")
    ∷ set (codes "c") (some item)
    ∷ any (codes "a")
    ∷ []

run-IsValid_example :
    (d : MemoryCache Entries) × (run list metadata calls (new_memory_cache list 2 100) ≡ some d)
    × IsValid list view list-DllistLaws d
    × IsBounded list view list-DllistLaws 2 d
run-IsValid_example = run-IsValid list view list-DllistLaws metadata 2 100 calls

-- A cache for one item that has one.
abbrev full : MemoryCache Entries
full = add_entry list (codes "ab") item 4 (new_memory_cache list 1 100)

full-IsValid : IsValid list view list-DllistLaws full
unfolding new_memory_cache is_empty
full-IsValid =
    add_entry-IsValid list view list-DllistLaws (codes "ab") item 4 (new_memory_cache list 1 100)
      (new-IsValid list view list-DllistLaws 1 100) refl refl

put_item-IsStored_example :
    (d : MemoryCache Entries) × (put_item list metadata (codes "c") item full ≡ some (ok tt, d))
    × IsStored list view list-DllistLaws (codes "c") item full d
unfolding is_empty
put_item-IsStored_example =
    put_item-IsStored list view list-DllistLaws metadata (codes "c") item full full-IsValid refl

get_any_with_prefix_iff_example :
    ((q : Text) × (i : CacheItem) × (get_any_with_prefix list (codes "a") full ≡ ok (some i))
      × (item_of (codes "a" ++ q) (view full.lru_list) ≡ some i))
    ⊎ ((get_any_with_prefix list (codes "a") full ≡ ok none)
        × ((q : Text) → item_of (codes "a" ++ q) (view full.lru_list) ≡ none))
unfolding is_empty
get_any_with_prefix_iff_example =
    get_any_with_prefix_iff list view list-DllistLaws (codes "a") full full-IsValid refl

abbrev headers : List Text
headers = codes "bytes=1-3" ∷ codes "bytes=3-1" ∷ codes "" ∷ []

memory-AllAnswered_example :
    (w : List (Result (Unit {0}) × Response) × MemoryCache Entries) × (proxy_requests source
        (memory_cache list metadata (codes "key") 2)
        2
        headers
        (new_memory_cache list 2 100)
      ≡ some w)
    × AllAnswered letters headers w.0
memory-AllAnswered_example =
    memory-AllAnswered letters source source-IsSourceOf list view list-DllistLaws metadata
      (codes "key") 2 2 100 headers (omega arith)
