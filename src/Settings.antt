-- ===== src/Settings.antt =====
-- internal/settings: a setting of the site, with its hooks and its row in the table of settings. The
-- types of settings differ in how a value is parsed and printed. Hooks that follow a change, and
-- the queue of settings to be initialised, are left out.
pub mod Kinds
pub mod RoundTrip
pub mod Passwords
use synctv.Base.{String, Bool, true, false, Option, none, some, str_eq, if◌then◌else◌}
use synctv.Base.Text.{Text}
use synctv.Base.Result.{Error, failure, driver_failure, Result, ok, err, M, ◌>>=◌}
use synctv.Db.{handle_update_result}

pub record Hooks (A : Type 0) : Type 0 where
  -- how `strconv` reads and prints a value
  pub read : Text → Result A
  pub print : A → Text
  -- `nil` is `none`
  pub validator : Option (A → Result (Unit {0}))
  pub before_init : Option (A → Result A)
  pub before_set : Option (A → Result A)
  pub after_get : Option (A → A)

pub record Setting (A : Type 0) : Type 0 where
  pub name : String
  pub inited : Bool
  pub value : A
  pub default_value : A

abbrev pub SettingTable : Type 0
SettingTable = String → Option Text

-- A setting and the table of all settings.
pub record Held (A : Type 0) : Type 0 where
  pub setting : Setting A
  pub table : SettingTable

unfoldable pub new_setting : {A : Type 0} → String → A → Setting A
new_setting name value = record {
  name = name;
  inited = false;
  value = value;
  default_value = value;
}

-- `failed` is the driver's error.
unfoldable pub update_setting_item_value :
    Option String → SettingTable → String → Text → Result (Unit {0}) × SettingTable
unfolding handle_update_result
update_setting_item_value failed table name value = elim failed [
  | some e ↦ (
    handle_update_result (record { error = some (driver_failure e); rows_affected = 0 }) "setting",
    table,
  )
  | none ↦ elim (table name) [
    | none ↦ (handle_update_result (record { error = none; rows_affected = 0 }) "setting", table)
    | some row ↦ (
      handle_update_result (record { error = none; rows_affected = 1 }) "setting",
      λ n. if str_eq n name then some value else table n,
    )
  ]
]

abbrev pub hooked : {A : Type 0} → Option (A → Result A) → A → Result A
hooked none v = ok v
hooked (some hook) v = hook v

abbrev pub vetted : {A : Type 0} → Option (A → Result (Unit {0})) → A → Result A
vetted none v = ok v
vetted (some validator) v = elim (validator v) [ ok _ ↦ ok v | err e ↦ err e ]

abbrev pub chained : {A B : Type 0} → Result A → (A → Result B) → Result B
chained (err e) next = err e
chained (ok a) next = next a

module _ {A : Type 0} (hooks : Hooks A) where
  unfoldable pub parse : Text → Result A
  parse s = chained (hooks.read s) (vetted hooks.validator)

  unfoldable pub get : Setting A → A
  get s = elim hooks.after_get [ none ↦ s.value | some hook ↦ hook s.value ]

  abbrev pub inited_with : Setting A → Result A → Result (Unit {0}) × Setting A
  inited_with s (err e) = (err e, s)
  inited_with s (ok v) = (ok tt, record s { value = v; inited = true })

  unfoldable pub init : Text → M (Setting A) (Unit {0})
  unfolding parse
  init value s =
      if s.inited
      then (err (failure "setting already inited"), s)
      else inited_with s (chained (parse value) (hooked hooks.before_init))

  abbrev pub remembered : A → Held A → Result (Unit {0}) × SettingTable → Result (Unit {0}) × Held A
  remembered v h (err e, table) = (err e, record h { table = table })
  remembered v h (ok _, table) =
      (ok tt, record { setting = record h.setting { value = v }; table = table })

  -- The statement, and the value in memory if it succeeds.
  unfoldable pub store : Option String → A → M (Held A) (Unit {0})
  unfolding update_setting_item_value
  store failed v h =
      remembered v h (update_setting_item_value failed h.table h.setting.name (hooks.print v))

  abbrev pub stored_if : Option String → Result A → M (Held A) (Unit {0})
  stored_if failed (err e) h = (err e, h)
  stored_if failed (ok v) h = store failed v h

  unfoldable pub set : Option String → A → M (Held A) (Unit {0})
  unfolding store
  set failed v = stored_if failed (chained (vetted hooks.validator v) (hooked hooks.before_set))

  unfoldable pub set_string : Option String → Text → M (Held A) (Unit {0})
  unfolding store parse
  set_string failed s = stored_if failed (chained (parse s) (hooked hooks.before_set))
