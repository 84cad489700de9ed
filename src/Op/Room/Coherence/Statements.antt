-- ===== src/Op/Room/Coherence/Statements.antt =====
-- Which rows a statement on the table of members may change, and coherence after it.
use synctv.Base.{
  String, Bool, false, none, some, str_eq, eq_iff, ◌≡◌, inl, inr, arith, Bool-cases, List,
}
use synctv.Base.Dict.{str_eq_refl}
use synctv.Base.Result.{ok}
use synctv.Model.Member.{RoomMember}
use synctv.Db.{Driver, Db}
use synctv.Db.Member.{
  CreateRoomMemberRelationConfig, first_or_create_room_member_relation, update_where,
  delete_room_member,
}
use synctv.Op.Room.{World}
use synctv.Op.Room.Coherence.Loads.{IsCoherent, amend-map_cong}

-- Of the room's members, only the user's row may differ.
abbrev pub ChangesOnly : String → String → Db → Db → Type 0
ChangesOnly room_id user_id db db' =
    (v : String) → str_eq v user_id ≡ false → db'.members room_id v ≡ db.members room_id v

module _ (driver : Driver) where
  pub update_where-ChangesOnly :
      (db : Db) (room_id user_id : String) (meets : RoomMember → Bool)
      (change : RoomMember → RoomMember)
      → ChangesOnly room_id user_id db (update_where driver db room_id user_id meets change).1
  unfolding update_where
  update_where-ChangesOnly db room_id user_id meets change v h = ground arith

  pub delete_room_member-ChangesOnly :
      (db : Db) (room_id user_id : String)
      → ChangesOnly room_id user_id db (delete_room_member driver db room_id user_id).1
  unfolding delete_room_member
  delete_room_member-ChangesOnly db room_id user_id v h = ground arith

  pub first_or_create-ChangesOnly :
      (db : Db) (room_id user_id : String) (conf : List CreateRoomMemberRelationConfig)
      → ChangesOnly room_id user_id db
          (first_or_create_room_member_relation driver db room_id user_id conf).1
  unfolding first_or_create_room_member_relation
  first_or_create-ChangesOnly db room_id user_id conf v h = ground arith

  -- The row that is returned is in the table.
  pub first_or_create-row :
      (db : Db) (room_id user_id : String) (conf : List CreateRoomMemberRelationConfig)
      (m : RoomMember)
      → (first_or_create_room_member_relation driver db room_id user_id conf).0 ≡ ok m
      → (first_or_create_room_member_relation driver db room_id user_id conf).1.members room_id
          user_id
        ≡ some m
  unfolding first_or_create_room_member_relation
  first_or_create-row db room_id user_id conf m e =
      ground (arith, str_eq_refl room_id, str_eq_refl user_id)

module _ {Msg : Type 0} where
  -- A room that no longer caches the user, beside a table that changed at the user's row only.
  pub forgotten-IsCoherent :
      (u : String) (w w' : World Msg)
      → ChangesOnly w.room.id u w.db w'.db
      → w'.room.id ≡ w.room.id
      → w'.room.creator_id ≡ w.room.creator_id
      → w'.room.settings.guest_permissions ≡ w.room.settings.guest_permissions
      → w'.room.members u ≡ none
      → ((v : String) → str_eq v u ≡ false → w'.room.members v ≡ w.room.members v)
      → IsCoherent w
      → IsCoherent w'
  forgotten-IsCoherent u w w' frame same_id same_creator same_guest gone kept h v =
      elim (Bool-cases (str_eq v u)) [
        | inl hit ↦ inl (rw ((eq_iff v u).0 hit) gone)
        | inr miss ↦ ground (
          arith,
          kept v miss,
          frame v miss,
          amend-map_cong w'.room w.room v (w.db.members w.room.id v) same_creator same_guest,
          h v,
        )
      ]
