-- ===== src/Settings/Passwords.antt =====
-- internal/settings/var.go: the two settings on the passwords of rooms, of which each is checked
-- against the other.
use synctv.Base.{
  String, Bool, false, ◌&&◌, Option, none, some, List, [], ◌∷◌, ◌≡◌, refl, arith, if◌then◌else◌,
}
use synctv.Base.Text.{Text}
use synctv.Base.Result.{failure, Result, ok, err}
use synctv.Settings.{
  Hooks, Setting, Held, SettingTable, new_setting, update_setting_item_value, chained, parse,
  remembered, store, stored_if, set, set_string,
}
use synctv.Settings.Kinds.{bool_hooks}

pub record PasswordSettings : Type 0 where
  pub must_need : Setting Bool
  pub must_no_need : Setting Bool
  pub table : SettingTable

unfoldable pub password_settings : SettingTable → PasswordSettings
unfolding new_setting
password_settings table = record {
  must_need = new_setting "room_must_need_pwd" false;
  must_no_need = new_setting "room_must_no_need_pwd" false;
  table = table;
}

-- The hook of one of them, by the present value of the other.
abbrev pub unless_other : Bool → Bool → Result Bool
unless_other other b =
    if b && other
    then err (failure "room_must_need_pwd and room_must_no_need_pwd can't be true at the same time")
    else ok b

abbrev pub hooks_beside : Setting Bool → Hooks Bool
hooks_beside other = bool_hooks none (some (unless_other other.value)) none

abbrev pub with_need :
    PasswordSettings → Result (Unit {0}) × Held Bool → Result (Unit {0}) × PasswordSettings
with_need p (result, h) = (result, record p { must_need = h.setting; table = h.table })

abbrev pub with_no_need :
    PasswordSettings → Result (Unit {0}) × Held Bool → Result (Unit {0}) × PasswordSettings
with_no_need p (result, h) = (result, record p { must_no_need = h.setting; table = h.table })

pub data PasswordCall : Type 0 where
  sets_need sets_no_need : Bool → PasswordCall
  writes_need writes_no_need : Text → PasswordCall

module _ (failed : Option String) where
  unfoldable pub password_call :
      PasswordCall → PasswordSettings → Result (Unit {0}) × PasswordSettings
  unfolding bool_hooks set set_string
  password_call (sets_need b) p = with_need p (
      set (hooks_beside p.must_no_need) failed b
        (record { setting = p.must_need; table = p.table }))
  password_call (sets_no_need b) p = with_no_need p (
      set (hooks_beside p.must_need) failed b
        (record { setting = p.must_no_need; table = p.table }))
  password_call (writes_need s) p = with_need p (
      set_string (hooks_beside p.must_no_need) failed s
        (record { setting = p.must_need; table = p.table }))
  password_call (writes_no_need s) p = with_no_need p (
      set_string (hooks_beside p.must_need) failed s
        (record { setting = p.must_no_need; table = p.table }))

-- The calls, and whether the database fails each.
unfoldable pub password_run :
    List (PasswordCall × Option String) → PasswordSettings → PasswordSettings
unfolding password_call
password_run [] p = p
password_run ((c, failed) ∷ cs) p = password_run cs (password_call failed c p).1

abbrev pub IsExclusive : PasswordSettings → Type 0
IsExclusive p = (p.must_need.value && p.must_no_need.value) ≡ false

IsExclusive-remembered :
    (hooks : Hooks Bool) (other b : Bool) (h : Held Bool) (r : Result (Unit {0}) × SettingTable)
    → (b && other) ≡ false
    → (h.setting.value && other) ≡ false
    → ((remembered hooks b h r).1.setting.value && other) ≡ false
IsExclusive-remembered hooks other b h (err e, t) good before = before
IsExclusive-remembered hooks other b h (ok x, t) good before = good

-- Either setting and the value of the other.
IsExclusive-stored_if :
    (hooks : Hooks Bool) (other : Bool) (failed : Option String) (r : Result Bool) (h : Held Bool)
    → ((b : Bool) → r ≡ ok b → (b && other) ≡ false)
    → (h.setting.value && other) ≡ false
    → ((stored_if hooks failed r h).1.setting.value && other) ≡ false
unfolding store
IsExclusive-stored_if hooks other failed (err e) h good before = before
IsExclusive-stored_if hooks other failed (ok b) h good before =
    IsExclusive-remembered hooks other b h
      (update_setting_item_value failed h.table h.setting.name (hooks.print b)) (good b refl) before

chained_exclusive :
    (other : Bool) (r : Result Bool) (b : Bool)
    → chained r (unless_other other) ≡ ok b
    → (b && other) ≡ false
chained_exclusive other (err e) b h = absurd (cc h)
chained_exclusive other (ok c) b h = ground arith

and_comm : (a b : Bool) → (a && b) ≡ false → (b && a) ≡ false
and_comm a b h = ground arith

call-IsExclusive :
    (failed : Option String) (c : PasswordCall) (p : PasswordSettings)
    → IsExclusive p
    → IsExclusive (password_call failed c p).1
unfolding password_call bool_hooks set set_string
call-IsExclusive failed (sets_need b) p h =
    IsExclusive-stored_if (hooks_beside p.must_no_need) p.must_no_need.value failed _ _
      (chained_exclusive p.must_no_need.value (ok b)) h
call-IsExclusive failed (sets_no_need b) p h = and_comm _ p.must_need.value (
    IsExclusive-stored_if (hooks_beside p.must_need) p.must_need.value failed _ _
      (chained_exclusive p.must_need.value (ok b)) (and_comm p.must_need.value _ h))
call-IsExclusive failed (writes_need s) p h =
    IsExclusive-stored_if (hooks_beside p.must_no_need) p.must_no_need.value failed _ _
      (chained_exclusive p.must_no_need.value (parse (hooks_beside p.must_no_need) s)) h
call-IsExclusive failed (writes_no_need s) p h = and_comm _ p.must_need.value (
    IsExclusive-stored_if (hooks_beside p.must_need) p.must_need.value failed _ _
      (chained_exclusive p.must_need.value (parse (hooks_beside p.must_need) s))
      (and_comm p.must_need.value _ h))

password_run_from :
    (cs : List (PasswordCall × Option String)) (p : PasswordSettings)
    → IsExclusive p
    → IsExclusive (password_run cs p)
unfolding password_run
password_run_from [] p h = h
password_run_from ((c, failed) ∷ cs) p h =
    password_run_from cs (password_call failed c p).1 (call-IsExclusive failed c p h)

-- After any changes by value or by text of the two settings on passwords, which start new, also
-- where the database fails, they are not both true in memory.
pub password_run-IsExclusive :
    (cs : List (PasswordCall × Option String)) (table : SettingTable)
    → IsExclusive (password_run cs (password_settings table))
unfolding password_settings new_setting
password_run-IsExclusive cs table = password_run_from cs (password_settings table) refl
