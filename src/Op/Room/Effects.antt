-- ===== src/Op/Room/Effects.antt =====
-- What the changes of a member do, read through the next load.
use synctv.Base.{
  String, Bool, true, false, none, some, ◌≡◌, ◌≢◌, ◌∙◌, refl, arith, if◌then◌else◌, inl, inr,
  Bool-cases,
}
use synctv.Base.Dict.{str_eq_refl}
use synctv.Base.Result.{Error, Result, ok, err, wrapped, not_found}
use synctv.Model.Member.Status.{banned, active, pending, is_pending, is_active}
use synctv.Model.Member.Role.{is_admin, admin, is_creator as role_is_creator}
use synctv.Model.Member.Permission.{RoomAdminPermission, has, all_permissions}
use synctv.Model.Member.{RoomMember, has_admin_permission}
use synctv.Db.{Driver, Db, select_member, RoomRow}
use synctv.Db.Member
use synctv.Db.Member.{
  room_member_not_found, first_or_create_room_member_relation, get_room_member, set_row,
  delete_room_member, update_where, update_row,
}
use synctv.Op.Room.{Room, World, is_creator, is_guest, kick_room_user}
use synctv.Op.Room.Settings.{on_room}
use synctv.Op.Room.Members.{
  amend, load_member, store_member, load_member_status, load_or_create_member, create_member,
  room_has_admin_permission,
}
use synctv.Op.Room.Changes.{
  ban_member, approve_pending_member, set_admin, delete_member, then_forget,
}
use synctv.Op.Room.Coherence.{kick-frame}

module _ (driver : Driver) where
  -- A statement that succeeds found a row that meets its condition, and changed it.
  update_where-ok :
      (db : Db) (r u : String) (meets : RoomMember → Bool) (change : RoomMember → RoomMember)
      → (update_where driver db r u meets change).0 ≡ ok tt
      → (m : RoomMember) × (db.members r u ≡ some m)
        × (meets m ≡ true)
        × ((update_where driver db r u meets change).1 ≡ set_row db r u (some (change m)))
  unfolding update_where
  update_where-ok db r u meets change e = ground arith

  -- A deletion that succeeds took out a row, which was not that of the room's creator.
  delete_room_member-ok :
      (db : Db) (r u : String)
      → (delete_room_member driver db r u).0 ≡ ok tt
      → ((m : RoomMember) × (db.members r u ≡ some m))
        × ((delete_room_member driver db r u).1 ≡ set_row db r u none)
  unfolding delete_room_member
  delete_room_member-ok db r u e = ground arith

  delete_room_member-creator :
      (db : Db) (r : String) (row : RoomRow)
      → db.rooms r ≡ some row
      → (delete_room_member driver db r row.creator_id).0 ≢ ok tt
  unfolding delete_room_member
  delete_room_member-creator db r row f e = ground (arith, str_eq_refl row.creator_id)

module _ (driver : Driver) (enable_guest : Bool) {Msg : Type 0} where
  load_missing :
      (u : String) (w : World Msg)
      → driver select_member ≡ none
      → is_guest w.room u ≡ false
      → w.room.members u ≡ none
      → w.db.members w.room.id u ≡ none
      → (load_member driver enable_guest u w).0
        ≡ err (wrapped "get room member failed: " (not_found room_member_not_found))
  unfolding load_member get_room_member
  load_missing u w d g c r = ground arith

  -- A member that is not cached is loaded from the table.
  load_row :
      (u : String) (w : World Msg) (row : RoomMember)
      → driver select_member ≡ none
      → is_guest w.room u ≡ false
      → w.room.members u ≡ none
      → w.db.members w.room.id u ≡ some row
      → (load_member driver enable_guest u w).0 ≡ ok (amend w.room u row)
  unfolding load_member store_member get_room_member
  load_row u w row d g c r = ground arith

  -- A change that succeeds shows in the member that is loaded next.
  changed-load :
      (u : String) (meets : RoomMember → Bool) (change : RoomMember → RoomMember) (w : World Msg)
      → driver select_member ≡ none
      → is_guest w.room u ≡ false
      → let done = then_forget u (λ db. update_where driver db w.room.id u meets change) w in
        done.0 ≡ ok tt
        → (m : RoomMember) × (w.db.members w.room.id u ≡ some m)
          × (meets m ≡ true)
          × ((load_member driver enable_guest u done.1).0 ≡ ok (amend w.room u (change m)))
  unfolding is_guest amend
  changed-load u meets change w d g e =
      let (m, r, c, s) = update_where-ok driver w.db w.room.id u meets change e in
      (
        m,
        r,
        c,
        load_row u (then_forget u (λ db. update_where driver db w.room.id u meets change) w).1
            (change m) d g (rw (str_eq_refl u) refl)
            (rw s (rw (str_eq_refl u, str_eq_refl w.room.id) refl)),
      )

  -- A status that a change of the row gives is the status loaded next.
  status-load :
      (u : String) (w : World Msg) (m : RoomMember)
      → is_creator w.room u ≡ false
      → is_guest w.room u ≡ false
      → (load_member driver enable_guest u w).0 ≡ ok (amend w.room u m)
      → (load_member_status driver enable_guest u w).0 ≡ ok m.status
  unfolding load_member_status amend
  status-load u w m c g e = ground arith

  -- What `HasAdminPermission` answers of a member that is loaded next.
  not_cached_admin :
      (u : String) (q : RoomAdminPermission) (w : World Msg) (m : RoomMember)
      → driver select_member ≡ none
      → is_creator w.room u ≡ false
      → is_guest w.room u ≡ false
      → w.room.members u ≡ none
      → w.db.members w.room.id u ≡ some m
      → (room_has_admin_permission driver enable_guest u q w).0
        ≡ has_admin_permission (amend w.room u m) q
  unfolding room_has_admin_permission load_or_create_member load_member get_room_member
      create_member first_or_create_room_member_relation store_member
  not_cached_admin u q w m d c g n r = ground arith

  -- The guards passed, a successful call is its statement and the drop from the cache.
  past_guards :
      (b c : Bool) (x y : Error) (w : World Msg) (done : Result (Unit {0}) × World Msg)
      → (if b then (err x, w) else if c then (err y, w) else done).0 ≡ ok tt
      → (b ≡ false) × (c ≡ false) × (done.0 ≡ ok tt)
  past_guards b c x y w done e = ground arith

  past_guard :
      (b : Bool) (x : Error) (w : World Msg) (done : Result (Unit {0}) × World Msg)
      → (if b then (err x, w) else done).0 ≡ ok tt
      → (b ≡ false) × (done.0 ≡ ok tt)
  past_guard b x w done e = ground arith

  -- After a ban that succeeds, and while the database answers queries, the status of the user
  -- that is loaded next is banned.
  pub ban_member-status :
      (u : String) (w : World Msg)
      → driver select_member ≡ none
      → (ban_member driver u w).0 ≡ ok tt
      → (load_member_status driver enable_guest u (ban_member driver u w).1).0 ≡ ok banned
  unfolding ban_member Member.room_ban_member is_creator is_guest
  ban_member-status u w d e =
      let ban : RoomMember → RoomMember = λ m. record m { status = banned } in
      let forgot = then_forget u (λ db. update_row driver db w.room.id u ban) w in
      let banned_world = (on_room (kick_room_user u) forgot.1).1 in
      let (c, g, f) =
        past_guards (is_creator w.room u) (is_guest w.room u) _ _ w (forgot.0, banned_world) e in
      let (m, r, _, s) = update_where-ok driver w.db w.room.id u (λ _. true) ban f in
      let (members, id, creator, settings) = kick-frame u forgot.1.room in
      rw (c, g)
        (status-load u banned_world (ban m) (rw creator c) g (
          load_row u banned_world (ban m) d g (rw members (rw (str_eq_refl u) refl))
            (rw (id, s) (rw (str_eq_refl u, str_eq_refl w.room.id) refl))))

  -- An approval of a user other than the guest that succeeds found a pending row; while the
  -- database answers queries, the member that is loaded next is that row with an active status,
  -- as the room amends it.
  pub approve_pending_member-load :
      (u : String) (w : World Msg)
      → driver select_member ≡ none
      → is_guest w.room u ≡ false
      → (approve_pending_member driver u w).0 ≡ ok tt
      → (m : RoomMember) × (w.db.members w.room.id u ≡ some m)
        × (m.status ≡ pending)
        × ((load_member driver enable_guest u (approve_pending_member driver u w).1).0
            ≡ ok (amend w.room u (record m { status = active })))
  unfolding approve_pending_member Member.room_approve_pending_member is_pending
  approve_pending_member-load u w d g e = elim (Bool-cases (is_creator w.room u)) [
    | inl c ↦ ground arith
    | inr c ↦
        let (m, r, p, s) =
          changed-load u (λ m. is_pending m.status) (λ m. record m { status = active }) w d g
            (rw (c, approve_pending_member) at e) in
        (m, r, ground arith, rw c s)
  ]

  promoted_allows :
      (r : Room Msg) (u : String) (p q : RoomAdminPermission) (m : RoomMember)
      → is_creator r u ≡ false
      → is_guest r u ≡ false
      → has_admin_permission
          (amend r u
            (record m { role = admin; permissions = all_permissions; admin_permissions = p }))
          q
        ≡ (if is_active m.status then has p q else false)
  unfolding amend has_admin_permission is_admin role_is_creator is_active
  promoted_allows r u p q m c g = ground arith

  -- A promotion that succeeds found a row; while the database answers queries, the next test of
  -- an administrative permission holds exactly if that row's status is active and the new set has
  -- the permission.
  pub set_admin-has_admin_permission :
      (u : String) (p q : RoomAdminPermission) (w : World Msg)
      → driver select_member ≡ none
      → (set_admin driver u p w).0 ≡ ok tt
      → (m : RoomMember) × (w.db.members w.room.id u ≡ some m)
        × ((room_has_admin_permission driver enable_guest u q (set_admin driver u p w).1).0
            ≡ (if is_active m.status then has p q else false))
  unfolding set_admin Member.room_set_admin is_creator is_guest amend
  set_admin-has_admin_permission u p q w d e =
      let promote : RoomMember → RoomMember =
        λ m. record m { role = admin; permissions = all_permissions; admin_permissions = p } in
      let done = then_forget u (λ db. update_row driver db w.room.id u promote) w in
      let (c, g, f) = past_guards (is_creator w.room u) (is_guest w.room u) _ _ w done e in
      let (m, r, _, s) = update_where-ok driver w.db w.room.id u (λ _. true) promote f in
      (
        m,
        r,
        rw (c, g)
            (not_cached_admin u q done.1 (promote m) d c g (rw (str_eq_refl u) refl)
                (rw s (rw (str_eq_refl u, str_eq_refl w.room.id) refl))
              ∙ promoted_allows w.room u p q m c g),
      )

  -- A deletion of a user other than the guest that succeeds did not concern the creator that the
  -- table of rooms names, and, while the database answers queries, the user's next load finds no
  -- row.
  pub delete_member-load :
      (u : String) (w : World Msg) (row : RoomRow)
      → driver select_member ≡ none
      → is_guest w.room u ≡ false
      → w.db.rooms w.room.id ≡ some row
      → (delete_member driver u w).0 ≡ ok tt
      → (row.creator_id ≢ u)
        × ((load_member driver enable_guest u (delete_member driver u w).1).0
            ≡ err (wrapped "get room member failed: " (not_found room_member_not_found)))
  unfolding delete_member is_guest
  delete_member-load u w row d g found e =
      let statement : Db → Result (Unit {0}) × Db =
        λ db. delete_room_member driver db w.room.id u in
      let forgot = then_forget u statement w in
      let after = (on_room (kick_room_user u) forgot.1).1 in
      let (c, f) = past_guard (is_creator w.room u) _ w (forgot.0, after) e in
      let (_, s) = delete_room_member-ok driver w.db w.room.id u f in
      let (members, id, creator, settings) = kick-frame u forgot.1.room in
      (
        λ same. delete_room_member-creator driver w.db w.room.id row found (rw same f),
        rw c (
            load_missing u after d g (rw members (rw (str_eq_refl u) refl))
              (rw (id, s) (rw (str_eq_refl u, str_eq_refl w.room.id) refl))),
      )
