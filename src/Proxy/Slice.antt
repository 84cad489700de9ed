-- ===== src/Proxy/Slice.antt =====
-- server/handlers/proxy/slice.go: ranges of a source's bytes, served from cached slices.
-- `int64` values that the code tests to be at least 0 are naturals, and -1 is `none`. A proxy has
-- one key and one slice size, so the aligned offset stands for the cache key. Headers other than
-- the length are only copied; the writer of the response takes what it is given.
pub mod Range
pub mod Body
pub mod Served
pub mod Answer
pub mod Reliable
use synctv.Base.{
  ℕ, zero, suc, ◌+◌, ◌-◌, ◌*◌, ◌/◌, min, String, Bool, true, false, Option, none, some, List, [],
  ◌∷◌, ◌++◌, ltb, leb, ◌==◌, length, take, drop, if◌then◌else◌,
}
use synctv.Base.Result.{Error, failure, wrapped, Result, ok, err}
use synctv.Base.Int.{ℤ, pos, negsuc, diff, positive_part}

pub record ByteRange : Type 0 where
  pub start : ℕ
  pub end : Option ℕ

pub record CacheItem : Type 0 where
  pub bytes : List ℕ
  pub content_total_length : Option ℕ
  pub content_type : String

-- What `io.ReadFull` gives: the buffer, the part of it that there was, nothing, or an error.
pub data Read : Type 0 where
  full partial : List ℕ → Read
  at_end : Read
  failed : Error → Read

-- The interface `Proxy` of a source. `seek` says whether seeking to an offset fails, and
-- `read_full` reads there.
pub record Source : Type 0 where
  pub seek : ℕ → Option Error
  pub read_full : ℕ → ℕ → Read
  pub total_length : Result (Option ℕ)
  pub media_type : Result String

-- The interface `Cache`, on a state of its own.
pub record Cache (S : Type 0) : Type 0 where
  pub get : ℕ → S → Result (Option CacheItem) × S
  pub set : ℕ → CacheItem → S → Result (Unit {0}) × S

-- The slice size is positive: Go panics on 0.
unfoldable pub aligned_offset : ℕ → ℕ → ℕ
aligned_offset offset slice_size = (offset / slice_size) * slice_size

unfoldable pub content_length : ℕ → Option ℕ → Option ℕ → ℤ
content_length start none none = negsuc 0
content_length start none (some total) = diff total start
content_length start (some end) none = diff (end + 1) start
content_length start (some end) (some total) =
    if leb total end then diff total start else diff (end + 1) start

unfoldable pub known_length : Result (Option ℕ) → Result ℕ
known_length (err e) = err (wrapped "failed to get content total length from source: " e)
known_length (ok none) = err (failure "source does not support range requests")
known_length (ok (some total)) = ok total

module _ (source : Source) where
  unfoldable pub content_total_length : Result ℕ
  unfolding known_length
  content_total_length = known_length source.total_length

  -- The rest of `fetchFromSource`, from the content type on.
  unfoldable pub new_item : ℕ → List ℕ → Result CacheItem
  new_item total bytes = elim source.media_type [
    | err e ↦ err (wrapped "failed to get content type from source: " e)
    | ok t ↦ ok (record { bytes = bytes; content_total_length = some total; content_type = t })
  ]

  unfoldable pub fetched : ℕ → Read → Result CacheItem
  unfolding content_total_length new_item
  fetched offset (full bytes) = elim content_total_length [
    | err e ↦ err (wrapped "failed to get content total length from source: " e)
    | ok total ↦ new_item total bytes
  ]
  fetched offset (partial bytes) = elim content_total_length [
    | err e ↦ err (wrapped "failed to get content total length from source: " e)
    | ok total ↦
        if total == offset + length bytes
        then new_item total bytes
        else err (failure "source content total length mismatch")
  ]
  fetched offset at_end = err (wrapped "failed to read from source: " (failure "EOF"))
  fetched offset (failed e) = err (wrapped "failed to read from source: " e)

  unfoldable pub fetch_from_source : ℕ → ℕ → Result CacheItem
  unfolding fetched
  fetch_from_source slice_size offset = elim (source.seek offset) [
    | some e ↦ err (wrapped "failed to seek in source: " e)
    | none ↦ fetched offset (source.read_full offset slice_size)
  ]

-- The error or success of the writes, the bytes written, and the cache.
abbrev pub Written : Type 0 → Type 0
Written S = Result (Unit {0}) × List ℕ × S

abbrev pub prepend : {S : Type 0} → List ℕ → Option (Written S) → Option (Written S)
prepend bytes none = none
prepend bytes (some (result, written, s)) = some (result, bytes ++ written, s)

-- One round of the loop over the subsequent slices, before the rounds that follow.
unfoldable pub write_slice :
    {S : Type 0}
    → (ℕ → S → Option (Written S))
    → ℕ
    → Result (CacheItem × Bool)
    → S
    → Option (Written S)
write_slice rest remaining (err e) s = some (err (wrapped "failed to get cache item: " e), [], s)
write_slice rest remaining (ok (item, cached)) s =
    let n = min (length item.bytes) remaining in
    prepend (take n item.bytes) (rest (remaining - n) s)

module _ {S : Type 0} (source : Source) (cache : Cache S) (slice_size : ℕ) where
  -- Store a fetched item in the cache.
  unfoldable pub keep_item : ℕ → Result CacheItem → S → Result (CacheItem × Bool) × S
  keep_item offset (err e) s = (err (wrapped "failed to fetch item from source: " e), s)
  keep_item offset (ok item) s =
      let (stored, s') = cache.set offset item s in
      elim stored [
        | err e ↦ (err (wrapped "failed to store item in cache: " e), s')
        | ok _ ↦ (ok (item, false), s')
      ]

  unfoldable pub found_or_fetched :
      ℕ → Result (Option CacheItem) → S → Result (CacheItem × Bool) × S
  unfolding keep_item fetch_from_source
  found_or_fetched offset (err e) s = (err (wrapped "failed to get item from cache: " e), s)
  found_or_fetched offset (ok (some item)) s = (ok (item, true), s)
  found_or_fetched offset (ok none) s =
      keep_item offset (fetch_from_source source slice_size offset) s

  -- The item, and whether it was cached.
  unfoldable pub get_cache_item : ℕ → S → Result (CacheItem × Bool) × S
  unfolding found_or_fetched
  get_cache_item offset s = let (found, s') = cache.get offset s in found_or_fetched offset found s'

  -- The loop; `none`: out of fuel.
  unfoldable pub write_slices : ℕ → ℕ → ℕ → S → Option (Written S)
  unfolding get_cache_item write_slice
  write_slices fuel offset zero s = some (ok tt, [], s)
  write_slices zero offset (suc r) s = none
  write_slices (suc fuel) offset (suc r) s =
      let (item, s') = get_cache_item offset s in
      write_slice (λ left t. write_slices fuel (offset + slice_size) left t) (suc r) item s'

  unfoldable pub write_response : ByteRange → ℕ → CacheItem → S → Option (Written S)
  unfolding content_length write_slices
  write_response byte_range aligned item s =
      if ltb byte_range.start aligned
      then some (err (failure "slice offset cannot be negative"), [], s)
      else let slice_offset = byte_range.start - aligned in
        let remaining =
          positive_part
            (content_length byte_range.start byte_range.end item.content_total_length) in
        let n = min (length item.bytes - slice_offset) remaining in
        prepend (take n (drop slice_offset item.bytes))
          (write_slices remaining (aligned + slice_size) (remaining - n) s)

-- The parts of a response that the proxy decides. An error before the first byte has a status.
pub record Response : Type 0 where
  pub status : ℕ
  pub hit : Bool
  pub content_length : ℤ
  pub content_type : String
  pub body : List ℕ

abbrev pub with_body :
    {S : Type 0} → Response → Option (Written S) → Option (Result (Unit {0}) × Response × S)
with_body headers none = none
with_body headers (some (result, written, s)) = some (result, record headers { body = written }, s)

abbrev pub no_response : ℕ → Response
no_response status = record {
  status = status;
  hit = false;
  content_length = pos 0;
  content_type = "text/plain";
  body = [];
}

-- `setResponseHeaders`, before anything is written.
unfoldable pub response_headers : ByteRange → CacheItem → Bool → Bool → Response
unfolding content_length
response_headers byte_range item cached is_range_request = record {
  status = if is_range_request then 206 else 200;
  hit = cached;
  content_length = content_length byte_range.start byte_range.end item.content_total_length;
  content_type = item.content_type;
  body = [];
}

module _ {S : Type 0} (source : Source) (cache : Cache S) (slice_size : ℕ) where
  unfoldable pub respond :
      ByteRange
      → Bool
      → ℕ
      → Result (CacheItem × Bool)
      → S
      → Option (Result (Unit {0}) × Response × S)
  unfolding response_headers write_response
  respond byte_range is_range_request aligned (err e) s =
      some (err (wrapped "failed to get cache item: " e), no_response 500, s)
  respond byte_range is_range_request aligned (ok (item, cached)) s =
      let headers = response_headers byte_range item cached is_range_request in
      with_body headers (write_response source cache slice_size byte_range aligned item s)

  -- The method `Proxy` once the header of the range is parsed.
  unfoldable pub proxy : ByteRange → Bool → S → Option (Result (Unit {0}) × Response × S)
  unfolding aligned_offset get_cache_item respond
  proxy byte_range is_range_request s =
      let aligned = aligned_offset byte_range.start slice_size in
      let (item, s') = get_cache_item source cache slice_size aligned s in
      respond byte_range is_range_request aligned item s'
