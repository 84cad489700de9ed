-- ===== src/Examples/Users.antt =====
-- The theorems on users at the room of the examples, with an administrator in its table.
use synctv.Base.{
  ℕ, ◌+◌, true, false, none, some, List, [], ◌∷◌, str_eq, ◌≡◌, refl, arith, inl, if◌then◌else◌,
}
use synctv.Base.Result.{ok, err}
use synctv.Model.Member.Status.{active}
use synctv.Model.Member.Role
use synctv.Model.Member.{RoomMember}
use synctv.Model.User
use synctv.Model.User.{UserRow, is_root}
use synctv.Db.User.{Users, UserDriver, update_username}
use synctv.Op.Room.{World, is_creator, is_guest}
use synctv.Op.User.{User, is_site_admin}
use synctv.Op.User.Account.{Account}
use synctv.Op.User.Account.Saved.{
  AccountCall, sets_admin_role, bans, sets_username, sets_password, unbinds, account_run, IsSaved,
  account_run-IsSaved,
}
use synctv.Op.User.Members.{Notice, SiteSettings, no_permission_error}
use synctv.Op.User.Members.Calls as Calls
use synctv.Op.User.Members.Calls.{Change, change}
use synctv.Op.User.Members.Untouched.{IsUntouched}
use synctv.Op.User.Members.Refused.{IsPlain, change-refused}
use synctv.Op.User.Members.Protected.{IsAdminRow, Fails, by_ban, demotion-Fails}
use synctv.Examples.{steady, row, tables, world, hash, compare_hash}

abbrev pub user_row : UserRow
user_row = record {
  username = "ann";
  email = "ann@example.org";
  hashed_password = 1 ∷ [];
  role = User.user;
  registered_by_email = false;
}

abbrev pub checksum : List ℕ → ℕ
checksum [] = 0
checksum (b ∷ bytes) = b + checksum bytes

abbrev ann : User
ann = record { id = "ann"; row = user_row; version = 1 }

abbrev site : SiteSettings
site = record { room_must_need_pwd = false; room_must_no_need_pwd = false }

abbrev status : Notice ℕ
status = record { message = λ u. u.version; waited = λ w. (ok tt, w) }

ann-IsPlain : IsPlain steady true "ann" world
unfolding is_creator Role.is_admin
ann-IsPlain = (refl, λ r e. ground arith)

change-refused_example :
    ((change steady true compare_hash hash site status ann (Calls.bans "bob") world).0
      ≡ err no_permission_error)
    × IsUntouched "ann" world
        (change steady true compare_hash hash site status ann (Calls.bans "bob") world).1
unfolding is_site_admin User.is_admin is_root
change-refused_example =
    change-refused steady true compare_hash hash site status ann (Calls.bans "bob") world
      (λ u. inl refl) ann-IsPlain refl

abbrev admin_row : RoomMember
admin_row = record (row "eve" active) { role = Role.admin; admin_permissions = 63 }

-- The room with a second administrator, who bans the first.
abbrev administered : World ℕ
administered = record world {
  db = record tables {
    members = λ r u.
        if str_eq u "eve"
        then some admin_row
        else if str_eq u "ann"
        then some (record (row "ann" active) { role = Role.admin; admin_permissions = 63 })
        else none;
  };
}

eve-IsAdminRow : IsAdminRow steady true "eve" administered
unfolding is_guest Role.is_admin
eve-IsAdminRow = record {
  coherent = λ u. inl refl;
  queries = refl;
  no_guest = refl;
  has_row = (admin_row, refl, refl);
}

demotion-Fails_example :
    Fails steady true "ann" administered
      (change steady true compare_hash hash site status ann (Calls.bans "eve") administered)
unfolding is_creator
demotion-Fails_example =
    demotion-Fails steady true compare_hash hash site status ann "eve" (Calls.bans "eve")
      administered by_ban refl refl eve-IsAdminRow

-- A table whose statements on names fail.
abbrev users : Users
users id = if str_eq id "ann" then some user_row else none

abbrev driver : UserDriver
driver update_username = some "timeout"
driver query = none

abbrev account : Account
account = record { user = ann; users = users }

abbrev calls : List AccountCall
calls = sets_admin_role ∷ sets_username "bea" ∷ sets_password "secret" ∷ unbinds ∷ bans ∷ []

account_run-IsSaved_example :
    IsSaved driver compare_hash hash checksum
      (account_run driver compare_hash hash checksum calls account)
account_run-IsSaved_example =
    account_run-IsSaved driver compare_hash hash checksum calls account refl
      (record { row = refl; version = refl })
