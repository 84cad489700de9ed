-- ===== src/Examples/Members.antt =====
-- The theorems on a room's members at the room of the examples.
use synctv.Base.{
  ◌↔◌, ℕ, String, true, false, some, List, [], ◌∷◌, ◌≡◌, ◌≢◌, refl, inl, if◌then◌else◌, str_eq, not,
  arith,
}
use synctv.Base.Result.{ok, err, wrapped, not_found}
use synctv.Model.Member.Status.{active, pending, banned}
use synctv.Model.Member.{RoomMember}
use synctv.Model.Member.Permission.{has}
use synctv.Model.Member.Status.{is_active, is_pending}
use synctv.Db.{RoomRow}
use synctv.Db.Member.{room_member_not_found}
use synctv.Db.Member
use synctv.Db.Room.{set_room_hashed_password, update_room_row}
use synctv.Op.Room.{is_creator, is_guest, guest_user_id}
use synctv.Op.Room.Members.{
  amend, has_permission, room_has_admin_permission, load_member, load_member_status,
}
use synctv.Op.Room.Settings.{set_password, store_generated, need_password, check_password}
use synctv.Op.Room.Changes.{ban_member, approve_pending_member, set_admin, delete_member}
use synctv.Op.Room.Coherence.{
  IsCoherent, Call, run, loads, bans, sets_admin, loads_or_creates, run-IsCoherent, run-load_member,
  load_uncached,
}
use synctv.Op.Room.Access.{Allows, has_permission-Allows, guest_never_admin}
use synctv.Op.Room.Effects.{
  ban_member-status, approve_pending_member-load, set_admin-has_admin_permission,
  delete_member-load,
}
use synctv.Op.Room.Password.{set_password-check_password}
use synctv.Examples.{steady, row, room_row, world, hash, compare_hash}

abbrev calls : List Call
calls = loads "ann" ∷ bans "ann" ∷ loads_or_creates "eve" ∷ sets_admin "bob" 3 ∷ []

run-IsCoherent_example : IsCoherent (run steady true compare_hash hash calls world)
run-IsCoherent_example = run-IsCoherent steady true compare_hash hash calls world (λ u. inl refl)

run-load_member_example :
    (load_member steady true "ann" (run steady true compare_hash hash calls world)).0
    ≡ load_uncached steady true "ann" (run steady true compare_hash hash calls world)
run-load_member_example =
    run-load_member steady true compare_hash hash calls world "ann" (λ u. refl) refl

has_permission-Allows_example :
    ((has_permission steady true "ann" 64 world).0 ≡ true)
    ↔ Allows world.room "ann" 64 (row "ann" active)
unfolding is_guest
has_permission-Allows_example =
    has_permission-Allows steady true "ann" 64 world (row "ann" active) (λ u. inl refl) refl refl
      refl

guest_never_admin_example : (room_has_admin_permission steady true guest_user_id 2 world).0 ≡ false
unfolding is_guest is_creator
guest_never_admin_example =
    guest_never_admin steady true guest_user_id 2 world (λ u. inl refl) refl refl

ban_member-status_example :
    (load_member_status steady true "ann" (ban_member steady "ann" world).1).0 ≡ ok banned
unfolding ban_member is_creator is_guest Member.room_ban_member Member.update_where
ban_member-status_example = ban_member-status steady true "ann" world refl refl

approve_pending_member-load_example :
    (m : RoomMember) × (world.db.members "room" "bob" ≡ some m)
    × (m.status ≡ pending)
    × ((load_member steady true "bob" (approve_pending_member steady "bob" world).1).0
        ≡ ok (amend world.room "bob" (record m { status = active })))
unfolding approve_pending_member is_pending is_creator is_guest Member.room_approve_pending_member
    Member.update_where
approve_pending_member-load_example =
    approve_pending_member-load steady true "bob" world refl refl refl

set_admin-has_admin_permission_example :
    (m : RoomMember) × (world.db.members "room" "ann" ≡ some m)
    × ((room_has_admin_permission steady true "ann" 2 (set_admin steady "ann" 3 world).1).0
        ≡ (if is_active m.status then has 3 2 else false))
unfolding set_admin is_creator is_guest Member.room_set_admin Member.update_where
set_admin-has_admin_permission_example =
    set_admin-has_admin_permission steady true "ann" 3 2 world refl refl

delete_member-load_example :
    (room_row.creator_id ≢ "ann")
    × ((load_member steady true "ann" (delete_member steady "ann" world).1).0
        ≡ err (wrapped "get room member failed: " (not_found room_member_not_found)))
unfolding delete_member is_creator is_guest Member.delete_room_member
delete_member-load_example = delete_member-load steady true "ann" world room_row refl refl refl refl

hash-laws :
    (p : String) (hashed : List ℕ)
    → hash p ≡ ok hashed
    → (hashed ≢ []) × (compare_hash hashed p ≡ true)
hash-laws p hashed e = ground arith

set_password-check_password_example :
    let after = (set_password steady compare_hash hash "secret" world).1 in
    (need_password after.room ≡ not (str_eq "secret" ""))
    × (check_password compare_hash after.room "secret" ≡ true)
    × ((r : RoomRow) × (after.db.rooms "room" ≡ some r)
        × (r.hashed_password ≡ after.room.hashed_password))
unfolding set_password check_password need_password store_generated set_room_hashed_password
    update_room_row
set_password-check_password_example =
    set_password-check_password steady compare_hash hash "secret" world hash-laws refl
