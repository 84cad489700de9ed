-- ===== src/Op/Room/Members.antt =====
-- internal/op/room.go: loading members through the cache, and the tests of permissions.
use synctv.Base.{
  String, Bool, true, false, ◌&&◌, ◌||◌, not, none, some, List, [], ◌∷◌, ◌++◌, str_eq,
  if◌then◌else◌,
}
use synctv.Base.Result.{Error, failure, wrapped, is_not_found, Result, ok, err, M, ◌>>=◌}
use synctv.Model.Member.Status.{RoomMemberStatus, not_joined, pending, active, is_banned}
use synctv.Model.Member.Role.{RoomMemberRole, member, creator, is_admin}
use synctv.Model.Member.Permission
use synctv.Model.Member.Permission.{
  RoomMemberPermission, RoomAdminPermission, all_permissions, no_permission, all_admin_permissions,
  no_admin_permission, has,
}
use synctv.Model.Member.{RoomMember, has_admin_permission}
use synctv.Model.Room.{RoomSettings}
use synctv.Db.{Driver}
use synctv.Db.Member.{
  CreateRoomMemberRelationConfig, with_room_member_status, with_room_member_permissions,
  with_room_member_role, with_room_member_admin_permissions, get_room_member,
  first_or_create_room_member_relation, room_member_not_found,
}
use synctv.Op.Room.{Room, World, is_creator, is_guest}

module _ {Msg : Type 0} where
  -- What `storeMember` makes of a row.
  unfoldable pub amend : Room Msg → String → RoomMember → RoomMember
  unfolding is_creator is_guest is_admin is_banned
  amend r user_id m =
      if is_creator r user_id
      then record m {
        role = creator;
        permissions = all_permissions;
        admin_permissions = all_admin_permissions;
        status = active;
      }
      else if is_guest r user_id
      then record m {
        role = member;
        permissions = r.settings.guest_permissions;
        admin_permissions = no_admin_permission;
        status = if is_banned m.status then active else m.status;
      }
      else if is_admin m.role
      then record m { permissions = all_permissions }
      else m

  -- `LoadOrStore`: a member that is cached already wins.
  unfoldable pub store_member : String → RoomMember → M (World Msg) RoomMember
  store_member user_id m w =
      let amended = amend w.room user_id m in
      elim (w.room.members user_id) [
        | some cached ↦ (ok cached, w)
        | none ↦ (
          ok amended,
          record w {
            room = record w.room {
              members = λ u. if str_eq u user_id then some amended else w.room.members u;
            };
          },
        )
      ]

  -- The options for a row that `LoadOrCreateMember` creates.
  unfoldable pub create_conf : Room Msg → String → List CreateRoomMemberRelationConfig
  unfolding is_creator is_guest
  create_conf r user_id =
      if is_creator r user_id
      then with_room_member_status active
        ∷ with_room_member_permissions all_permissions
        ∷ with_room_member_role creator
        ∷ with_room_member_admin_permissions all_admin_permissions
        ∷ []
      else (if is_guest r user_id
          then with_room_member_permissions no_permission
            ∷ with_room_member_role member
            ∷ with_room_member_admin_permissions no_admin_permission
            ∷ []
          else with_room_member_permissions r.settings.user_default_permissions
            ∷ with_room_member_role member
            ∷ with_room_member_admin_permissions no_admin_permission
            ∷ [])
        ++ (if r.settings.join_need_review
            then with_room_member_status pending ∷ []
            else with_room_member_status active ∷ [])

abbrev pub result_or {ℓ} : {A : Type 0} {B : Type ℓ} → B → (A → B) → Result A → B
result_or b f (ok a) = f a
result_or b f (err e) = b

-- The permissions that the room's settings withhold from plain members.
unfoldable pub withheld : RoomSettings → RoomMemberPermission → Bool
unfolding has
withheld s permission =
    (has permission Permission.get_movie_list && not s.can_get_movie_list)
    || (has permission Permission.add_movie && not s.can_add_movie)
    || (has permission Permission.delete_movie && not s.can_delete_movie)
    || (has permission Permission.edit_movie && not s.can_edit_movie)
    || (has permission Permission.set_current_movie && not s.can_set_current_movie)
    || (has permission Permission.set_current_status && not s.can_set_current_status)
    || (has permission Permission.send_chat_message && not s.can_send_chat_message)

abbrev pub member_allows : RoomSettings → RoomMemberPermission → RoomMember → Bool
member_allows s permission m =
    if is_admin m.role
    then true
    else if withheld s permission
    then false
    else has m.permissions permission

-- `enable_guest` is the site's setting of that name.
module _ (driver : Driver) (enable_guest : Bool) {Msg : Type 0} where
  abbrev pub guest_refused : Room Msg → String → Bool
  guest_refused r user_id = is_guest r user_id && (r.settings.disable_guest || not enable_guest)

  unfoldable pub load_member : String → M (World Msg) RoomMember
  load_member user_id w =
      if guest_refused w.room user_id
      then (err (failure "guest is disabled"), w)
      else elim (w.room.members user_id) [
        | some m ↦ (ok m, w)
        | none ↦ elim (get_room_member driver w.db w.room.id user_id) [
          | err e ↦ (err (wrapped "get room member failed: " e), w)
          | ok m ↦ store_member user_id m w
        ]
      ]

  unfoldable pub create_member : String → M (World Msg) RoomMember
  create_member user_id w =
      let (result, db) =
        first_or_create_room_member_relation driver w.db w.room.id user_id
          (create_conf w.room user_id) in
      elim result [
        | err e ↦ (err e, record w { db = db })
        | ok m ↦ store_member user_id m (record w { db = db })
      ]

  unfoldable pub load_or_create_member : String → M (World Msg) RoomMember
  unfolding create_member
  load_or_create_member user_id w =
      if w.room.settings.disable_join_new_user
      then load_member user_id w
      else if guest_refused w.room user_id
      then (err (failure "guest is disabled"), w)
      else elim (w.room.members user_id) [ some m ↦ (ok m, w) | none ↦ create_member user_id w ]

  unfoldable pub user_role : String → M (World Msg) RoomMemberRole
  user_role user_id w =
      if is_creator w.room user_id
      then (ok creator, w)
      else (load_member user_id >>= λ m v. (ok m.role, v)) w

  unfoldable pub is_room_admin : String → World Msg → Bool × World Msg
  is_room_admin user_id w =
      let (role, v) = user_role user_id w in (result_or false is_admin role, v)

  unfoldable pub has_permission : String → RoomMemberPermission → World Msg → Bool × World Msg
  has_permission user_id permission w =
      if is_creator w.room user_id
      then (true, w)
      else let (result, v) = load_or_create_member user_id w in
        (result_or false (member_allows v.room.settings permission) result, v)

  unfoldable pub room_has_admin_permission :
      String → RoomAdminPermission → World Msg → Bool × World Msg
  room_has_admin_permission user_id permission w =
      if is_creator w.room user_id
      then (true, w)
      else let (result, v) = load_or_create_member user_id w in
        (result_or false (λ m. has_admin_permission m permission) result, v)

  unfoldable pub load_or_create_member_status : String → M (World Msg) RoomMemberStatus
  load_or_create_member_status user_id w =
      if is_creator w.room user_id
      then (ok active, w)
      else (load_or_create_member user_id >>= λ m v. (ok m.status, v)) w

  unfoldable pub not_joined_yet : Error → M (World Msg) RoomMemberStatus
  not_joined_yet e w =
      if is_not_found room_member_not_found e then (ok not_joined, w) else (err e, w)

  unfoldable pub load_member_status : String → M (World Msg) RoomMemberStatus
  unfolding not_joined_yet
  load_member_status user_id w =
      if is_creator w.room user_id
      then (ok active, w)
      else let (result, v) = load_member user_id w in
        elim result [ ok m ↦ (ok m.status, v) | err e ↦ not_joined_yet e v ]

  unfoldable pub load_room_member_permission : String → M (World Msg) RoomMemberPermission
  load_room_member_permission user_id w =
      if is_creator w.room user_id
      then (ok all_permissions, w)
      else (load_member user_id >>= λ m v. (ok m.permissions, v)) w

  unfoldable pub load_room_admin_permission : String → M (World Msg) RoomAdminPermission
  load_room_admin_permission user_id w =
      if is_creator w.room user_id
      then (ok all_admin_permissions, w)
      else (load_member user_id >>= λ m v. (ok m.admin_permissions, v)) w
