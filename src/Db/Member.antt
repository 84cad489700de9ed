-- ===== src/Db/Member.antt =====
-- internal/db/member.go: the statements on the table of room members.
use synctv.Base.{
  String, Bool, true, false, ◌&&◌, Option, none, some, List, [], ◌∷◌, str_eq, bit_and, bit_or,
  if◌then◌else◌,
}
use synctv.Base.Result.{not_found, driver_failure, Result, ok, err}
use synctv.Model.Member.Status.{RoomMemberStatus, pending, active, banned, is_pending}
use synctv.Model.Member.Role.{RoomMemberRole, member, admin}
use synctv.Model.Member.Permission.{
  RoomMemberPermission, RoomAdminPermission, no_permission, no_admin_permission, all_permissions,
  complement,
}
use synctv.Model.Member.{RoomMember}
use synctv.Db.{
  select_member, create_member, update_member, delete_member, Driver, Db, handle_update_result,
}

abbrev pub room_member_not_found : String
room_member_not_found = "room or member"

abbrev pub CreateRoomMemberRelationConfig : Type 0
CreateRoomMemberRelationConfig = RoomMember → RoomMember

abbrev pub with_room_member_status : RoomMemberStatus → CreateRoomMemberRelationConfig
with_room_member_status status r = record r { status = status }

abbrev pub with_room_member_role : RoomMemberRole → CreateRoomMemberRelationConfig
with_room_member_role role r = record r { role = role }

abbrev pub with_room_member_permissions : RoomMemberPermission → CreateRoomMemberRelationConfig
with_room_member_permissions permissions r = record r { permissions = permissions }

abbrev pub with_room_member_admin_permissions : RoomAdminPermission → CreateRoomMemberRelationConfig
with_room_member_admin_permissions permissions r = record r { admin_permissions = permissions }

abbrev pub configure : List CreateRoomMemberRelationConfig → RoomMember → RoomMember
configure [] d = d
configure (c ∷ cs) d = configure cs (c d)

abbrev pub set_row : Db → String → String → Option RoomMember → Db
set_row db room_id user_id row = record db {
  members = λ r u. if str_eq r room_id && str_eq u user_id then row else db.members r u;
}

-- The row before the options of the call.
abbrev pub new_row : String → String → RoomMember
new_row room_id user_id = record {
  user_id = user_id;
  room_id = room_id;
  permissions = no_permission;
  admin_permissions = no_admin_permission;
  status = pending;
  role = member;
}

module _ (driver : Driver) where
  unfoldable pub first_or_create_room_member_relation :
      Db → String → String → List CreateRoomMemberRelationConfig → Result RoomMember × Db
  first_or_create_room_member_relation db room_id user_id conf =
      let d = configure conf (new_row room_id user_id) in
      elim (driver select_member) [
        | some e ↦ (err (driver_failure e), db)
        | none ↦ elim (db.members room_id user_id) [
          | some m ↦ (ok m, db)
          | none ↦ elim (driver create_member) [
            | some e ↦ (err (driver_failure e), db)
            | none ↦ (ok d, set_row db room_id user_id (some d))
          ]
        ]
      ]

  unfoldable pub get_room_member : Db → String → String → Result RoomMember
  get_room_member db room_id user_id = elim (driver select_member) [
    | some e ↦ err (driver_failure e)
    | none ↦ elim (db.members room_id user_id) [
      | some m ↦ ok m
      | none ↦ err (not_found room_member_not_found)
    ]
  ]

  -- `Model(&RoomMember{}).Where(…)` and an update of the row, if it meets the condition.
  unfoldable pub update_where :
      Db
      → String
      → String
      → (RoomMember → Bool)
      → (RoomMember → RoomMember)
      → Result (Unit {0}) × Db
  unfolding handle_update_result
  update_where db room_id user_id meets change = elim (driver update_member) [
    | some e ↦ (
      handle_update_result (record { error = some (driver_failure e); rows_affected = 0 })
          room_member_not_found,
      db,
    )
    | none ↦ elim (db.members room_id user_id) [
      | none ↦ (
        handle_update_result (record { error = none; rows_affected = 0 }) room_member_not_found,
        db,
      )
      | some m ↦
          if meets m
          then (
            handle_update_result (record { error = none; rows_affected = 1 }) room_member_not_found,
            set_row db room_id user_id (some (change m)),
          )
          else (
            handle_update_result (record { error = none; rows_affected = 0 }) room_member_not_found,
            db,
          )
    ]
  ]

  abbrev pub update_row : Db → String → String → (RoomMember → RoomMember) → Result (Unit {0}) × Db
  update_row db room_id user_id change = update_where db room_id user_id (λ _. true) change

  unfoldable pub room_approve_pending_member : Db → String → String → Result (Unit {0}) × Db
  room_approve_pending_member db room_id user_id =
      update_where db room_id user_id (λ m. is_pending m.status) (λ m. record m { status = active })

  unfoldable pub room_ban_member : Db → String → String → Result (Unit {0}) × Db
  room_ban_member db room_id user_id =
      update_row db room_id user_id (λ m. record m { status = banned })

  unfoldable pub room_unban_member : Db → String → String → Result (Unit {0}) × Db
  room_unban_member db room_id user_id =
      update_row db room_id user_id (λ m. record m { status = active })

  -- The condition leaves the row of the room's creator alone.
  unfoldable pub delete_room_member : Db → String → String → Result (Unit {0}) × Db
  unfolding handle_update_result
  delete_room_member db room_id user_id =
      let is_creator : Bool = elim (db.rooms room_id) [
        | none ↦ false
        | some r ↦ str_eq r.creator_id user_id
      ] in
      elim (driver delete_member) [
        | some e ↦ (
          handle_update_result (record { error = some (driver_failure e); rows_affected = 0 })
              room_member_not_found,
          db,
        )
        | none ↦ elim (db.members room_id user_id) [
          | none ↦ (
            handle_update_result (record { error = none; rows_affected = 0 }) room_member_not_found,
            db,
          )
          | some m ↦
              if is_creator
              then (
                handle_update_result (record { error = none; rows_affected = 0 })
                    room_member_not_found,
                db,
              )
              else (
                handle_update_result (record { error = none; rows_affected = 1 })
                    room_member_not_found,
                set_row db room_id user_id none,
              )
        ]
      ]

  unfoldable pub set_member_permissions :
      Db → String → String → RoomMemberPermission → Result (Unit {0}) × Db
  set_member_permissions db room_id user_id permission =
      update_row db room_id user_id (λ m. record m { permissions = permission })

  unfoldable pub add_member_permissions :
      Db → String → String → RoomMemberPermission → Result (Unit {0}) × Db
  add_member_permissions db room_id user_id permission =
      update_row db room_id user_id
        (λ m. record m { permissions = bit_or m.permissions permission })

  unfoldable pub remove_member_permissions :
      Db → String → String → RoomMemberPermission → Result (Unit {0}) × Db
  remove_member_permissions db room_id user_id permission =
      update_row db room_id user_id
        (λ m. record m { permissions = bit_and m.permissions (complement permission) })

  unfoldable pub room_set_admin_permissions :
      Db → String → String → RoomAdminPermission → Result (Unit {0}) × Db
  room_set_admin_permissions db room_id user_id permissions =
      update_row db room_id user_id (λ m. record m { admin_permissions = permissions })

  unfoldable pub room_add_admin_permissions :
      Db → String → String → RoomAdminPermission → Result (Unit {0}) × Db
  room_add_admin_permissions db room_id user_id permissions =
      update_row db room_id user_id
        (λ m. record m { admin_permissions = bit_or m.admin_permissions permissions })

  unfoldable pub room_remove_admin_permissions :
      Db → String → String → RoomAdminPermission → Result (Unit {0}) × Db
  room_remove_admin_permissions db room_id user_id permissions =
      update_row db room_id user_id
        (λ m. record m { admin_permissions = bit_and m.admin_permissions (complement permissions) })

  unfoldable pub room_set_admin :
      Db → String → String → RoomAdminPermission → Result (Unit {0}) × Db
  room_set_admin db room_id user_id permissions = update_row db room_id user_id (λ m. record m {
    role = admin;
    permissions = all_permissions;
    admin_permissions = permissions;
  })

  unfoldable pub room_set_member :
      Db → String → String → RoomMemberPermission → Result (Unit {0}) × Db
  room_set_member db room_id user_id permissions = update_row db room_id user_id (λ m. record m {
    role = member;
    permissions = permissions;
    admin_permissions = no_admin_permission;
  })
