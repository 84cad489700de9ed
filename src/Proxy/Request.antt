-- ===== src/Proxy/Request.antt =====
-- server/handlers/proxy: the method `Proxy` from the header of the request on, with the cache in
-- memory behind the interface that it uses.
pub mod Stored
pub mod Served
use synctv.Base.{ℕ, Bool, true, false, not, Option, none, some, List, [], ◌∷◌, ◌++◌}
use synctv.Base.Result.{failure, wrapped, Result, ok, err}
use synctv.Base.Text.{Text, is_empty, decimal}
use synctv.Proxy.Slice.{ByteRange, CacheItem, Source, Cache, Response, no_response, proxy}
use synctv.Proxy.Header.{hyphen, parse_byte_range}
use synctv.Proxy.Memory.{Dllist, MemoryCache, get_item, set_item}

-- `cacheKey`, from the hexadecimal hash of the key on.
unfoldable pub cache_key : Text → ℕ → ℕ → Text
cache_key hash slice_size offset = hash ++ hyphen ∷ (decimal slice_size ++ hyphen ∷ decimal offset)

-- A call that panics is an error here; on a valid cache none does.
abbrev pub recovered :
    {L : Type 0}
    → MemoryCache L
    → Option (Result (Unit {0}) × MemoryCache L)
    → Result (Unit {0}) × MemoryCache L
recovered c none = (err (failure "panic"), c)
recovered c (some answer) = answer

module _ {L : Type 0} (list : Dllist L) (metadata : CacheItem → Option (List ℕ)) (hash : Text)
    (slice_size : ℕ) where
  -- The cache in memory as the proxy of one source calls it.
  unfoldable pub memory_cache : Cache (MemoryCache L)
  unfolding cache_key get_item set_item
  memory_cache = record {
    get = λ offset c. get_item list (cache_key hash slice_size offset) c;
    set = λ offset item c.
        recovered c (set_item list metadata (cache_key hash slice_size offset) (some item) c);
  }

module _ {S : Type 0} (source : Source) (cache : Cache S) (slice_size : ℕ) where
  abbrev pub Answer : Type 0
  Answer = Result (Unit {0}) × Response

  unfoldable pub proxy_range : Text → Result ByteRange → S → Option (Answer × S)
  unfolding proxy
  proxy_range header (err e) s =
      some ((err (wrapped "failed to parse Range header: " e), no_response 400), s)
  proxy_range header (ok byte_range) s =
      elim (proxy source cache slice_size byte_range (not (is_empty header)) s) [
        | none ↦ none
        | some (result, response, s') ↦ some ((result, response), s')
      ]

  -- The method `Proxy`.
  unfoldable pub proxy_request : Text → S → Option (Answer × S)
  unfolding proxy_range parse_byte_range
  proxy_request header s = proxy_range header (parse_byte_range header) s

  -- Requests one after the other, and their answers.
  unfoldable pub proxy_requests : List Text → S → Option (List Answer × S)
  unfolding proxy_request
  proxy_requests [] s = some ([], s)
  proxy_requests (h ∷ hs) s = elim (proxy_request h s) [
    | none ↦ none
    | some (answer, s') ↦ elim (proxy_requests hs s') [
      | none ↦ none
      | some (answers, s'') ↦ some (answer ∷ answers, s'')
    ]
  ]
