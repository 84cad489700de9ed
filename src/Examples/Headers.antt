-- ===== src/Examples/Headers.antt =====
-- The theorems on headers of ranges and on stored items, at short ones.
use synctv.Base.{ℕ, none, some, List, [], ◌∷◌, ◌++◌, ◌≡◌, refl, arith, Option}
use synctv.Base.Result.{Error, failure, Result, ok}
use synctv.Base.Int.{pos}
use synctv.Base.Text.{codes, decimal}
use synctv.Proxy.Header.{
  range_value, fmt_content_range, parse_content_range_start_and_end,
  parse_content_range_total_length,
}
use synctv.Proxy.Header.Parsed.{IsInOrder, parse_byte_range-IsInOrder, parse_byte_range-range_value}
use synctv.Proxy.Stored.{StoredItem, Writer, write_to, read_from}
use synctv.Proxy.Stored.RoundTrip.{read_from-write_to}
use synctv.Proxy.Header.Printed.{content_range_round_trip}

parse_byte_range-IsInOrder_example : IsInOrder (record { start = 10; end = some 31 })
unfolding range_value decimal
parse_byte_range-IsInOrder_example =
    parse_byte_range-IsInOrder (codes "bytes=10-31") (record { start = 10; end = some 31 })
      (parse_byte_range-range_value 10 31 (omega arith) (omega arith))

content_range_round_trip_example :
    (parse_content_range_start_and_end (fmt_content_range 10 none (some 500))
      ≡ ok (pos 10, pos 499))
    × (parse_content_range_total_length (fmt_content_range 10 none (some 500)) ≡ ok (pos 500))
content_range_round_trip_example =
    content_range_round_trip 10 none (some 500) 499 refl (omega arith) (omega arith) (omega arith)

-- Metadata that are a number, and its encoding as one byte.
abbrev marshal : ℕ → Result (List ℕ)
marshal m = ok (m ∷ [])

abbrev unmarshal : List ℕ → ℕ × Option Error
unmarshal (m ∷ []) = (m, none)
unmarshal json = (0, some (failure "unexpected end of JSON input"))

abbrev buffer : Writer
buffer call part = none

abbrev old : StoredItem ℕ
old = record { metadata = none; bytes = [] }

read_from-write_to_example :
    let item : StoredItem ℕ = record { metadata = some 4; bytes = 7 ∷ 8 ∷ 9 ∷ [] } in
    let out = write_to marshal buffer item in
    (out.error ≡ none)
    × (read_from unmarshal (record { item = old; left = out.output ++ (5 ∷ []); read = 0 })
        ≡ (ok tt, record { item = item; left = 5 ∷ []; read = out.written }))
read_from-write_to_example =
    read_from-write_to unmarshal marshal buffer 4 (4 ∷ []) (7 ∷ 8 ∷ 9 ∷ []) (5 ∷ []) old
      (λ call part. refl) refl refl (omega arith) (omega arith) (omega arith)
