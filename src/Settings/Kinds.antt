-- ===== src/Settings/Kinds.antt =====
-- internal/settings: the settings of whole numbers, of truth values and of texts.
use synctv.Base.{zero, suc, Bool, true, false, ◌||◌, Option, none, some, if◌then◌else◌}
use synctv.Base.Int.{ℤ, pos, negsuc}
use synctv.Base.Text.{Text, codes, texts_eq, parse_int, format_int}
use synctv.Base.Result.{failure, Result, ok, err}
use synctv.Settings.{Hooks}

-- `strconv.ParseInt`, whose errors are one here.
unfoldable pub read_int64 : Text → Result ℤ
unfolding parse_int
read_int64 s = elim (parse_int s) [ some v ↦ ok v | none ↦ err (failure "invalid syntax") ]

-- `strconv.ParseBool` and `strconv.FormatBool`.
unfoldable pub read_bool : Text → Result Bool
unfolding texts_eq
read_bool s =
    if texts_eq s (codes "1")
      || texts_eq s (codes "t")
      || texts_eq s (codes "T")
      || texts_eq s (codes "TRUE")
      || texts_eq s (codes "true")
      || texts_eq s (codes "True")
    then ok true
    else if texts_eq s (codes "0")
        || texts_eq s (codes "f")
        || texts_eq s (codes "F")
        || texts_eq s (codes "FALSE")
        || texts_eq s (codes "false")
        || texts_eq s (codes "False")
    then ok false
    else err (failure "invalid syntax")

abbrev pub print_bool : Bool → Text
print_bool true = codes "true"
print_bool false = codes "false"

unfoldable pub int64_hooks :
    Option (ℤ → Result (Unit {0}))
    → Option (ℤ → Result ℤ)
    → Option (ℤ → Result ℤ)
    → Option (ℤ → ℤ)
    → Hooks ℤ
int64_hooks validator before_init before_set after_get = record {
  read = read_int64;
  print = format_int;
  validator = validator;
  before_init = before_init;
  before_set = before_set;
  after_get = after_get;
}

-- These have no validator.
unfoldable pub bool_hooks :
    Option (Bool → Result Bool) → Option (Bool → Result Bool) → Option (Bool → Bool) → Hooks Bool
bool_hooks before_init before_set after_get = record {
  read = read_bool;
  print = print_bool;
  validator = none;
  before_init = before_init;
  before_set = before_set;
  after_get = after_get;
}

unfoldable pub string_hooks :
    Option (Text → Result (Unit {0}))
    → Option (Text → Result Text)
    → Option (Text → Result Text)
    → Option (Text → Text)
    → Hooks Text
string_hooks validator before_init before_set after_get = record {
  read = λ s. ok s;
  print = λ s. s;
  validator = validator;
  before_init = before_init;
  before_set = before_set;
  after_get = after_get;
}

-- The hook of `RoomTTL`.
abbrev pub at_least_one : ℤ → Result ℤ
at_least_one (pos zero) = err (failure "room ttl must be greater than 0")
at_least_one (pos (suc n)) = ok (pos (suc n))
at_least_one (negsuc n) = err (failure "room ttl must be greater than 0")
