-- ===== src/Proxy/Stored.antt =====
-- server/handlers/proxy/cache.go: a cache item as bytes, with `WriteTo` and `ReadFrom`. The JSON of
-- the metadata is a library's: `marshal` and `unmarshal` are parameters. Readers and writers are
-- not nil; a reader is the bytes that it has left.
pub mod Words
pub mod RoundTrip
use synctv.Base.{
  ℕ, zero, suc, ◌+◌, ◌-◌, ◌*◌, ◌/◌, ◌%◌, ◌^◌, Bool, true, false, ◌||◌, Option, none, some, List, [],
  ◌∷◌, ◌++◌, ltb, leb, ◌==◌, length, take, drop, if◌then◌else◌, String,
}
use synctv.Base.Result.{Error, failure, wrapped, Result, ok, err, M, ◌>>=◌, ◌>>◌}

pub record StoredItem (Metadata : Type 0) : Type 0 where
  pub metadata : Option Metadata
  pub bytes : List ℕ

-- The big-endian bytes of a number, most significant first, and the number of such bytes.
unfoldable pub big_endian : ℕ → ℕ → List ℕ
big_endian zero n = []
big_endian (suc k) n = n / 256 ^ k % 256 ∷ big_endian k n

unfoldable pub word_value : ℕ → List ℕ → ℕ
word_value acc [] = acc
word_value acc (b ∷ bs) = word_value (acc * 256 + b) bs

-- A writer: what of the bytes of its next call it takes, and the error that it returns. The first
-- argument counts the calls.
abbrev pub Writer : Type 0
Writer = ℕ → List ℕ → Option (List ℕ × Error)

pub record Written : Type 0 where
  pub output : List ℕ
  pub written : ℕ
  pub error : Option Error

-- One write, before those that follow. A length is counted whole or not at all.
unfoldable pub write_part :
    Writer → ℕ → String → Bool → List ℕ → (Written → Written) → Written → Written
write_part w call text counted part next s = elim (w call part) [
  | none ↦ next (record s { output = s.output ++ part; written = s.written + length part })
  | some (taken, e) ↦ record {
    output = s.output ++ taken;
    written = if counted then s.written + length taken else s.written;
    error = some (wrapped text e);
  }
]

module _ {Metadata : Type 0} (marshal : Metadata → Result (List ℕ)) where
  unfoldable pub write_parts : Writer → List ℕ → List ℕ → Written
  write_parts w json bytes =
      write_part w 0 "failed to write metadata length: " false (big_endian 8 (length json))
        (write_part w 1 "failed to write metadata bytes: " true json (
          write_part w 2 "failed to write data length: " false (big_endian 8 (length bytes))
            (write_part w 3 "failed to write data bytes: " true bytes (λ s. s))))
        (record { output = []; written = 0; error = none })

  unfoldable pub write_to : Writer → StoredItem Metadata → Written
  unfolding write_parts
  write_to w item = elim item.metadata [
    | none ↦ record {
      output = [];
      written = 0;
      error = some (failure "CacheItem contains nil Metadata");
    }
    | some m ↦ elim (marshal m) [
      | err e ↦ record {
        output = [];
        written = 0;
        error = some (wrapped "failed to marshal metadata: " e);
      }
      | ok json ↦ write_parts w json item.bytes
    ]
  ]

pub record Reading (Metadata : Type 0) : Type 0 where
  pub item : StoredItem Metadata
  pub left : List ℕ
  pub read : ℕ

abbrev pub zeros : ℕ → List ℕ
zeros zero = []
zeros (suc n) = 0 ∷ zeros n

module _ {Metadata : Type 0} where
  -- `binary.Read` of an `int64`, as its bit pattern.
  unfoldable pub read_word : String → M (Reading Metadata) ℕ
  unfolding word_value
  read_word text s =
      if ltb (length s.left) 8
      then (err (wrapped text (failure "EOF")), record s { left = [] })
      else (ok (word_value 0 (take 8 s.left)), record s { left = drop 8 s.left; read = s.read + 8 })

  -- `io.ReadFull` of a number of bytes.
  unfoldable pub read_full : String → ℕ → M (Reading Metadata) (List ℕ)
  read_full text n s =
      if ltb (length s.left) n
      then (
        err (wrapped text (failure "EOF")),
        record s { left = []; read = s.read + length s.left },
      )
      else (ok (take n s.left), record s { left = drop n s.left; read = s.read + n })

  abbrev pub refuse_if : Bool → String → M (Reading Metadata) (Unit {0})
  refuse_if true text s = (err (failure text), s)
  refuse_if false text s = (ok tt, s)

  abbrev pub set_metadata : Metadata → M (Reading Metadata) (Unit {0})
  set_metadata m s = (ok tt, record s { item = record { metadata = some m; bytes = s.item.bytes } })

  abbrev pub set_bytes : List ℕ → M (Reading Metadata) (Unit {0})
  set_bytes bytes s =
      (ok tt, record s { item = record { metadata = s.item.metadata; bytes = bytes } })

  -- A new buffer for the data, as a read of its length leaves it.
  abbrev pub fill_bytes : ℕ → M (Reading Metadata) (Unit {0})
  fill_bytes k s = set_bytes (take k s.left ++ zeros (k - length s.left)) s

  abbrev pub check : String → Option Error → M (Reading Metadata) (Unit {0})
  check text none s = (ok tt, s)
  check text (some e) s = (err (wrapped text e), s)

-- What `Unmarshal` makes of the new metadata, and its error.
module _ {Metadata : Type 0} (unmarshal : List ℕ → Metadata × Option Error) where
  -- `ReadFrom` from the length of the data on. A pattern from 2 ^ 63 on is a negative length.
  unfoldable pub read_data : ℕ → M (Reading Metadata) (Unit {0})
  read_data k = do
    refuse_if (leb (2 ^ 63) k) "data length cannot be negative"
    fill_bytes k
    bytes ← read_full "failed to read data bytes: " k
    set_bytes bytes

  unfoldable pub read_json : List ℕ → M (Reading Metadata) (Unit {0})
  read_json json = do
    set_metadata (unmarshal json).0
    check "failed to unmarshal metadata: " (unmarshal json).1
    k ← read_word "failed to read data length: "
    read_data k

  unfoldable pub read_metadata : ℕ → M (Reading Metadata) (Unit {0})
  read_metadata n = do
    refuse_if (n == 0 || leb (2 ^ 63) n) "metadata length must be positive"
    json ← read_full "failed to read metadata bytes: " n
    read_json json

  unfoldable pub read_from : M (Reading Metadata) (Unit {0})
  read_from = do n ← read_word "failed to read metadata length: "; read_metadata n
