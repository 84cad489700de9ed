-- ===== src/Op/Room/Changes.antt =====
-- internal/op/room.go: the changes of a member's permissions, status and role. Each writes the
-- table and drops the member from the cache, whether or not the statement succeeds.
use synctv.Base.{String, Bool, if◌then◌else◌}
use synctv.Base.Result.{failure, Result, ok, err, M}
use synctv.Model.Member.Role.{is_admin}
use synctv.Model.Member.Permission.{
  RoomMemberPermission, RoomAdminPermission, default_admin_permissions, add, remove,
}
use synctv.Model.Member.{RoomMember}
use synctv.Db.{Driver, Db}
use synctv.Db.Member
use synctv.Op.Room.{World, is_creator, is_guest, forget, kick_room_user}
use synctv.Op.Room.Members.{load_member, is_room_admin}
use synctv.Op.Room.Settings.{on_room, set_guest_permissions}

module _ {Msg : Type 0} where
  -- A statement, after which the deferred `r.members.Delete(userID)` runs.
  abbrev pub then_forget : String → (Db → Result (Unit {0}) × Db) → M (World Msg) (Unit {0})
  then_forget user_id statement w =
      let (result, db) = statement w.db in
      (result, record w { room = forget user_id w.room; db = db })

  -- The same with `KickUser`, whose error is dropped.
  abbrev pub then_kick : String → (Db → Result (Unit {0}) × Db) → M (World Msg) (Unit {0})
  then_kick user_id statement w =
      let (result, v) = then_forget user_id statement w in
      (result, (on_room (kick_room_user user_id) v).1)

  unfoldable pub when_admin :
      (RoomMember → World Msg → Result (Unit {0}) × World Msg)
      → Result RoomMember
      → M (World Msg) (Unit {0})
  when_admin change (err e) v = (err e, v)
  when_admin change (ok m) v =
      if is_admin m.role then change m v else (err (failure "not admin"), v)

module _ (driver : Driver) {Msg : Type 0} where
  unfoldable pub set_member_permissions : String → RoomMemberPermission → M (World Msg) (Unit {0})
  set_member_permissions user_id permissions w =
      if is_creator w.room user_id
      then (err (failure "you are creator, cannot set permissions"), w)
      else if is_guest w.room user_id
      then set_guest_permissions driver permissions w
      else then_forget user_id
          (λ db. Member.set_member_permissions driver db w.room.id user_id permissions) w

  unfoldable pub reset_member_permissions : String → M (World Msg) (Unit {0})
  unfolding set_member_permissions
  reset_member_permissions user_id w =
      set_member_permissions user_id w.room.settings.user_default_permissions w

  unfoldable pub approve_pending_member : String → M (World Msg) (Unit {0})
  approve_pending_member user_id w =
      if is_creator w.room user_id
      then (err (failure "creator cannot be approved as a pending member"), w)
      else then_forget user_id
          (λ db. Member.room_approve_pending_member driver db w.room.id user_id) w

  unfoldable pub ban_member : String → M (World Msg) (Unit {0})
  ban_member user_id w =
      if is_creator w.room user_id
      then (err (failure "creator cannot be banned"), w)
      else if is_guest w.room user_id
      then (err (failure "please set whether to disable guest users in the room settings"), w)
      else then_kick user_id (λ db. Member.room_ban_member driver db w.room.id user_id) w

  unfoldable pub unban_member : String → M (World Msg) (Unit {0})
  unban_member user_id w =
      if is_creator w.room user_id
      then (err (failure "creator cannot be unbanned"), w)
      else if is_guest w.room user_id
      then (err (failure "please set whether to enable guest users in the room settings"), w)
      else then_forget user_id (λ db. Member.room_unban_member driver db w.room.id user_id) w

  unfoldable pub delete_member : String → M (World Msg) (Unit {0})
  delete_member user_id w =
      if is_creator w.room user_id
      then (err (failure "creator cannot be deleted"), w)
      else then_kick user_id (λ db. Member.delete_room_member driver db w.room.id user_id) w

  unfoldable pub set_admin : String → RoomAdminPermission → M (World Msg) (Unit {0})
  set_admin user_id permissions w =
      if is_creator w.room user_id
      then (err (failure "creator cannot set admin"), w)
      else if is_guest w.room user_id
      then (err (failure "cannot set guest as admin"), w)
      else then_forget user_id (λ db. Member.room_set_admin driver db w.room.id user_id permissions)
          w

  unfoldable pub set_member : String → RoomMemberPermission → M (World Msg) (Unit {0})
  set_member user_id permissions w =
      if is_creator w.room user_id
      then (err (failure "creator cannot set member"), w)
      else then_forget user_id
          (λ db. Member.room_set_member driver db w.room.id user_id permissions) w

module _ (driver : Driver) (enable_guest : Bool) {Msg : Type 0} where
  unfoldable pub add_member_permissions : String → RoomMemberPermission → M (World Msg) (Unit {0})
  add_member_permissions user_id permissions w =
      if is_guest w.room user_id
      then set_guest_permissions driver (add w.room.settings.guest_permissions permissions) w
      else let (admin, v) = is_room_admin driver enable_guest user_id w in
        if admin
        then (err (failure "cannot add permissions to admin"), v)
        else then_forget user_id
            (λ db. Member.add_member_permissions driver db v.room.id user_id permissions) v

  unfoldable pub remove_member_permissions :
      String → RoomMemberPermission → M (World Msg) (Unit {0})
  remove_member_permissions user_id permissions w =
      if is_guest w.room user_id
      then set_guest_permissions driver (remove w.room.settings.guest_permissions permissions) w
      else let (admin, v) = is_room_admin driver enable_guest user_id w in
        if admin
        then (err (failure "cannot remove permissions from admin"), v)
        else then_forget user_id
            (λ db. Member.remove_member_permissions driver db v.room.id user_id permissions) v

  -- The guards that the three changes of administrative permissions share, with their texts.
  unfoldable pub for_admin :
      String
      → String
      → String
      → (RoomMember → World Msg → Result (Unit {0}) × World Msg)
      → M (World Msg) (Unit {0})
  unfolding when_admin
  for_admin user_id creator_text guest_text change w =
      if is_creator w.room user_id
      then (err (failure creator_text), w)
      else if is_guest w.room user_id
      then (err (failure guest_text), w)
      else let (result, v) = load_member driver enable_guest user_id w in when_admin change result v

  unfoldable pub set_admin_permissions : String → RoomAdminPermission → M (World Msg) (Unit {0})
  unfolding for_admin
  set_admin_permissions user_id permissions =
      for_admin user_id "creator cannot set admin permissions"
        "cannot set admin permissions to guest"
        (λ m v.
          then_forget user_id
            (λ db. Member.room_set_admin_permissions driver db v.room.id user_id permissions) v)

  unfoldable pub reset_admin_permissions : String → M (World Msg) (Unit {0})
  unfolding set_admin_permissions
  reset_admin_permissions user_id = set_admin_permissions user_id default_admin_permissions

  unfoldable pub add_admin_permissions : String → RoomAdminPermission → M (World Msg) (Unit {0})
  unfolding for_admin
  add_admin_permissions user_id permissions =
      for_admin user_id "creator cannot add admin permissions"
        "cannot add admin permissions to guest"
        (λ m v.
          then_forget user_id
            (λ db. Member.room_add_admin_permissions driver db v.room.id user_id permissions) v)

  unfoldable pub remove_admin_permissions : String → RoomAdminPermission → M (World Msg) (Unit {0})
  unfolding for_admin
  remove_admin_permissions user_id permissions =
      for_admin user_id "creator cannot remove admin permissions"
        "cannot remove admin permissions from guest"
        (λ m v.
          then_forget user_id
            (λ db. Member.room_remove_admin_permissions driver db v.room.id user_id permissions) v)
