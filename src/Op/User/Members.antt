-- ===== src/Op/User/Members.antt =====
-- internal/op/user.go: what a user changes in a room, behind the tests of his rights.
pub mod Calls
pub mod Untouched
pub mod Refused
pub mod Protected
use synctv.Base.{
  Option, none, some, ℕ, String, Bool, true, false, ◌&&◌, not, List, str_eq, if◌then◌else◌,
}
use synctv.Base.Result.{Error, failure, Result, ok, err, M}
use synctv.Model.Member.Permission.{RoomMemberPermission, RoomAdminPermission}
use synctv.Model.Member.Permission
use synctv.Model.Room.{RoomSettings}
use synctv.Db.{Driver}
use synctv.Op.Room.{World, Room, is_creator, send_to_user_with_id}
use synctv.Op.Room.Members.{has_permission, room_has_admin_permission, is_room_admin}
use synctv.Op.Room.Settings.{set_settings, update_settings, set_password}
use synctv.Op.Room.Changes
use synctv.Op.User.{User, is_site_admin, is_guest_user}

abbrev pub no_permission_error : Error
no_permission_error = failure "no permission"

-- The settings of the site that the guards read.
pub record SiteSettings : Type 0 where
  pub room_must_need_pwd : Bool
  pub room_must_no_need_pwd : Bool

-- How a member is told of a change: the message MY_STATUS with the user as its sender, and what a
-- call gives in the end that waits for the reader of a connection, from where it waits.
pub record Notice (Msg : Type 0) : Type 0 where
  pub message : User → Msg
  pub waited : M (World Msg) (Unit {0})

module _ {Msg : Type 0} where
  abbrev pub told :
      Notice Msg → World Msg → Option (Result (Unit {0}) × Room Msg) → Result (Unit {0}) × World Msg
  told notice w none = notice.waited w
  told notice w (some (result, r)) = (result, record w { room = r })

  -- A change behind a test, which may have loaded members.
  unfoldable pub when_permitted :
      M (World Msg) (Unit {0}) → Bool × World Msg → Result (Unit {0}) × World Msg
  when_permitted change (permitted, v) =
      if permitted then change v else (err no_permission_error, v)

  -- The error of `errors.New` if a test holds.
  abbrev pub unless : Bool → String → M (World Msg) (Unit {0}) → M (World Msg) (Unit {0})
  unless b text change w = if b then (err (failure text), w) else change w

  -- What follows a change that succeeded.
  abbrev pub after_ok :
      M (World Msg) (Unit {0}) → Result (Unit {0}) × World Msg → Result (Unit {0}) × World Msg
  after_ok next (err e, v) = (err e, v)
  after_ok next (ok a, v) = next v

  unfoldable pub is_room_creator : User → World Msg → Bool
  is_room_creator u w = is_creator w.room u.id

module _ (driver : Driver) (enable_guest : Bool) {Msg : Type 0} where
  unfoldable pub user_has_permission : User → RoomMemberPermission → World Msg → Bool × World Msg
  user_has_permission u permission w =
      if is_site_admin u then (true, w) else has_permission driver enable_guest u.id permission w

  unfoldable pub user_has_admin_permission :
      User → RoomAdminPermission → World Msg → Bool × World Msg
  user_has_admin_permission u permission w =
      if is_site_admin u
      then (true, w)
      else if is_guest_user u
      then (false, w)
      else room_has_admin_permission driver enable_guest u.id permission w

  unfoldable pub ban_user_member : User → String → M (World Msg) (Unit {0})
  ban_user_member u user_id w =
      when_permitted
        (unless (str_eq u.id user_id) "cannot ban yourself" (λ v.
          let (admin, x) = is_room_admin driver enable_guest user_id v in
          unless (admin && not (is_room_creator u x)) "cannot ban admin"
            (Changes.ban_member driver user_id) x))
        (user_has_admin_permission u Permission.ban_room_member w)

  unfoldable pub unban_user_member : User → String → M (World Msg) (Unit {0})
  unban_user_member u user_id w =
      when_permitted
        (unless (str_eq u.id user_id) "cannot unban yourself" (Changes.unban_member driver user_id))
        (user_has_admin_permission u Permission.ban_room_member w)

  unfoldable pub delete_user_member : User → String → M (World Msg) (Unit {0})
  delete_user_member u user_id w =
      when_permitted (Changes.delete_member driver user_id)
        (user_has_admin_permission u Permission.approve_pending_member w)

  unfoldable pub approve_user_member : User → String → M (World Msg) (Unit {0})
  approve_user_member u user_id w =
      when_permitted (Changes.approve_pending_member driver user_id)
        (user_has_admin_permission u Permission.approve_pending_member w)

  unfoldable pub set_user_room_settings : User → RoomSettings → M (World Msg) (Unit {0})
  set_user_room_settings u settings w =
      when_permitted (set_settings driver settings)
        (user_has_admin_permission u Permission.set_room_settings w)

  unfoldable pub update_user_room_settings :
      User → (RoomSettings → RoomSettings) → M (World Msg) (Unit {0})
  update_user_room_settings u columns w =
      when_permitted (update_settings driver columns)
        (user_has_admin_permission u Permission.set_room_settings w)

  unfoldable pub set_user_room_password :
      (compare_hash : List ℕ → String → Bool) (generate : String → Result (List ℕ))
      → SiteSettings
      → User
      → String
      → M (World Msg) (Unit {0})
  set_user_room_password compare_hash generate site u password w =
      when_permitted
        (unless (not (is_site_admin u) && str_eq password "" && site.room_must_need_pwd)
          "room must need password"
          (unless (not (is_site_admin u) && not (str_eq password "") && site.room_must_no_need_pwd)
            "room must no need password" (set_password driver compare_hash generate password)))
        (user_has_admin_permission u Permission.set_room_password w)

  module _ (status : Notice Msg) where
    -- A change of a member's rights that the member is told of.
    abbrev pub then_tell : User → String → M (World Msg) (Unit {0}) → M (World Msg) (Unit {0})
    then_tell u user_id change w =
        after_ok (λ v. told status v (send_to_user_with_id user_id (status.message u) v.room))
          (change w)

    -- The guards of the four changes of permissions.
    unfoldable pub for_member :
        User → String → String → M (World Msg) (Unit {0}) → M (World Msg) (Unit {0})
    for_member u user_id text change w =
        when_permitted
          (λ v.
            let (admin, x) = is_room_admin driver enable_guest user_id v in
            unless (admin && not (is_room_creator u x)) text (then_tell u user_id change) x)
          (user_has_admin_permission u Permission.set_user_permission w)

    unfoldable pub set_user_permissions :
        User → String → RoomMemberPermission → M (World Msg) (Unit {0})
    unfolding for_member
    set_user_permissions u user_id permissions =
        for_member u user_id "cannot set admin permissions"
          (Changes.set_member_permissions driver user_id permissions)

    unfoldable pub add_user_permissions :
        User → String → RoomMemberPermission → M (World Msg) (Unit {0})
    unfolding for_member
    add_user_permissions u user_id permissions =
        for_member u user_id "cannot add admin permissions"
          (Changes.add_member_permissions driver enable_guest user_id permissions)

    unfoldable pub remove_user_permissions :
        User → String → RoomMemberPermission → M (World Msg) (Unit {0})
    unfolding for_member
    remove_user_permissions u user_id permissions =
        for_member u user_id "cannot remove admin permissions"
          (Changes.remove_member_permissions driver enable_guest user_id permissions)

    unfoldable pub reset_user_permissions : User → String → M (World Msg) (Unit {0})
    unfolding for_member
    reset_user_permissions u user_id =
        for_member u user_id "cannot reset admin permissions"
          (Changes.reset_member_permissions driver user_id)

    -- The guard of the changes that only the room's creator makes.
    unfoldable pub for_creator : User → String → M (World Msg) (Unit {0}) → M (World Msg) (Unit {0})
    for_creator u user_id change w =
        when_permitted (then_tell u user_id change) (is_room_creator u w, w)

    unfoldable pub set_user_room_admin :
        User → String → RoomAdminPermission → M (World Msg) (Unit {0})
    unfolding for_creator
    set_user_room_admin u user_id permissions =
        for_creator u user_id (Changes.set_admin driver user_id permissions)

    unfoldable pub set_user_room_member :
        User → String → RoomMemberPermission → M (World Msg) (Unit {0})
    unfolding for_creator
    set_user_room_member u user_id permissions =
        for_creator u user_id (Changes.set_member driver user_id permissions)

    unfoldable pub set_user_admin_permissions :
        User → String → RoomAdminPermission → M (World Msg) (Unit {0})
    unfolding for_creator
    set_user_admin_permissions u user_id permissions =
        for_creator u user_id
          (Changes.set_admin_permissions driver enable_guest user_id permissions)

    unfoldable pub add_user_admin_permissions :
        User → String → RoomAdminPermission → M (World Msg) (Unit {0})
    unfolding for_creator
    add_user_admin_permissions u user_id permissions =
        for_creator u user_id
          (Changes.add_admin_permissions driver enable_guest user_id permissions)

    unfoldable pub remove_user_admin_permissions :
        User → String → RoomAdminPermission → M (World Msg) (Unit {0})
    unfolding for_creator
    remove_user_admin_permissions u user_id permissions =
        for_creator u user_id
          (Changes.remove_admin_permissions driver enable_guest user_id permissions)

    unfoldable pub reset_user_admin_permissions : User → String → M (World Msg) (Unit {0})
    unfolding for_creator
    reset_user_admin_permissions u user_id =
        for_creator u user_id (Changes.reset_admin_permissions driver enable_guest user_id)
