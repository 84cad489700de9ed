-- ===== src/Examples/Options.antt =====
-- The theorems on the settings of the site, at two of its settings.
use synctv.Base.{arith, zero, suc, String, true, Option, none, some, List, [], ◌∷◌, ◌≡◌, refl}
use synctv.Base.Int.{ℤ, pos, negsuc}
use synctv.Base.Text.{Text, codes}
use synctv.Base.Result.{ok}
use synctv.Settings.{
  Hooks, Held, SettingTable, new_setting, update_setting_item_value, store, set, init,
}
use synctv.Settings.Kinds.{int64_hooks, at_least_one}
use synctv.Settings.RoundTrip.{Checks, init-set}
use synctv.Settings.Passwords.{
  PasswordCall, sets_need, sets_no_need, writes_no_need, IsExclusive, password_settings,
  password_run, password_run-IsExclusive,
}

abbrev table : SettingTable
table name = some (codes "false")

abbrev calls : List (PasswordCall × Option String)
calls =
    (sets_need true, none)
    ∷ (sets_no_need true, none)
    ∷ (writes_no_need (codes "T"), some "timeout")
    ∷ []

password_run-IsExclusive_example : IsExclusive (password_run calls (password_settings table))
password_run-IsExclusive_example = password_run-IsExclusive calls table

abbrev hooks : Hooks ℤ
hooks = int64_hooks none none (some at_least_one) none

abbrev room_ttl : Held ℤ
room_ttl = record { setting = new_setting "room_ttl" (pos 48); table = table }

at_least_one-Checks : Checks hooks (some at_least_one)
at_least_one-Checks (pos zero) w e = absurd (cc e)
at_least_one-Checks (pos (suc n)) w e = cc e
at_least_one-Checks (negsuc n) w e = absurd (cc e)

init-set_example :
    (text : Text) × ((set hooks none (pos 24) room_ttl).1.table "room_ttl" ≡ some text)
    × (init hooks text (new_setting "room_ttl" (pos 48)) ≡ (
      ok tt,
      record (new_setting "room_ttl" (pos 48)) {
        value = (set hooks none (pos 24) room_ttl).1.setting.value;
        inited = true;
      },
    ))
unfolding new_setting set store update_setting_item_value int64_hooks
init-set_example =
    init-set none (some at_least_one) none none (pos 24) (pos 48) room_ttl at_least_one-Checks
      (omega arith) refl
