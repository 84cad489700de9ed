-- ===== src/Op/User/Members/Refused.antt =====
-- Who is no administrator of a room changes none of its members, settings and passwords.
use mathlib.Core.Path.{subst}
use synctv.Base.{
  ℕ, String, Bool, false, none, some, List, ◌≡◌, refl, arith, inl, inr, Bool-cases, Option-cases,
}
use synctv.Base.Result.{Result, ok, err, M, Result-cases}
use synctv.Model.Member.Role.{is_admin}
use synctv.Model.Member.Permission.{RoomMemberPermission, RoomAdminPermission}
use synctv.Model.Member.Permission
use synctv.Model.Member.{RoomMember, has_admin_permission}
use synctv.Db.{Driver}
use synctv.Db.Member.{first_or_create_room_member_relation, get_room_member}
use synctv.Op.Room.{World, Room, is_creator}
use synctv.Op.Room.Members.{
  load_member, load_or_create_member, create_member, store_member, room_has_admin_permission, amend,
  create_conf,
}
use synctv.Op.Room.Coherence.{IsCoherent, get_room_member-row}
use synctv.Op.User.{User, is_site_admin, is_guest_user}
use synctv.Op.User.Members.Calls.{
  Change, bans, unbans, deletes, approves, resets, resets_admin, sets, adds, removes, makes_member,
  makes_admin, sets_admin, adds_admin, removes_admin, sets_settings, updates_settings,
  sets_password, change,
}
use synctv.Op.User.Members.Untouched.{IsUntouched, IsUntouched-self, load_or_create-IsUntouched}
use synctv.Op.User.Members.{
  Notice, SiteSettings, no_permission_error, when_permitted, user_has_admin_permission,
  is_room_creator, ban_user_member, unban_user_member, delete_user_member, approve_user_member,
  set_user_room_settings, update_user_room_settings, set_user_room_password, for_member,
  set_user_permissions, add_user_permissions, remove_user_permissions, reset_user_permissions,
  for_creator, set_user_room_admin, set_user_room_member, set_user_admin_permissions,
  add_user_admin_permissions, remove_user_admin_permissions, reset_user_admin_permissions,
}

no_right :
    (m : RoomMember) (q : RoomAdminPermission)
    → is_admin m.role ≡ false
    → has_admin_permission m q ≡ false
unfolding has_admin_permission is_admin
no_right m q h = ground arith

module _ (driver : Driver) (enable_guest : Bool) {Msg : Type 0} where
  -- A user without a row of an administrator.
  abbrev pub IsPlain : String → World Msg → Type 0
  IsPlain u w =
      (is_creator w.room u ≡ false)
      × ((row : RoomMember) → w.db.members w.room.id u ≡ some row → is_admin row.role ≡ false)

  amend-role :
      (r : Room Msg) (u : String) (row : RoomMember)
      → is_creator r u ≡ false
      → is_admin row.role ≡ false
      → is_admin (amend r u row).role ≡ false
  unfolding amend is_admin
  amend-role r u row c h = ground arith

  created_row-role :
      (u : String) (row : RoomMember) (w : World Msg)
      → IsPlain u w
      → (first_or_create_room_member_relation driver w.db w.room.id u (create_conf w.room u)).0
        ≡ ok row
      → is_admin row.role ≡ false
  unfolding first_or_create_room_member_relation create_conf is_admin
  created_row-role u row w p e = elim (Option-cases (w.db.members w.room.id u)) [
    | inr (d, k) ↦ ground (arith, p.1 row)
    | inl k ↦ ground (arith, p.0)
  ]

  stored-role :
      (u : String) (row m : RoomMember) (w : World Msg)
      → w.room.members u ≡ none
      → is_creator w.room u ≡ false
      → is_admin row.role ≡ false
      → (store_member u row w).0 ≡ ok m
      → is_admin m.role ≡ false
  unfolding store_member
  stored-role u row m w missing c h e =
      let same : amend w.room u row ≡ m = ground arith in
      subst (λ x. is_admin x.role ≡ false) same (amend-role w.room u row c h)

  cached-role :
      (u : String) (m : RoomMember) (w : World Msg)
      → IsCoherent w
      → IsPlain u w
      → w.room.members u ≡ some m
      → is_admin m.role ≡ false
  cached-role u m w h p c = elim (Option-cases (w.db.members w.room.id u)) [
    | inl gone ↦ ground (arith, h u)
    | inr (row, k) ↦
        let same : amend w.room u row ≡ m = ground (arith, h u) in
        subst (λ x. is_admin x.role ≡ false) same (amend-role w.room u row p.0 (p.1 row k))
  ]

  loaded-role :
      (u : String) (m : RoomMember) (w : World Msg)
      → IsCoherent w
      → IsPlain u w
      → (load_member driver enable_guest u w).0 ≡ ok m
      → is_admin m.role ≡ false
  unfolding load_member
  loaded-role u m w h p e = elim (Option-cases (w.room.members u)) [
    | inr (k, c) ↦ cached-role u m w h p (ground arith)
    | inl c ↦ elim (Result-cases (get_room_member driver w.db w.room.id u)) [
      | inl (row, g) ↦
          stored-role u row m w c p.0 (p.1 row (get_room_member-row driver w.db w.room.id u row g))
            (ground arith)
      | inr (x, g) ↦ ground arith
    ]
  ]

  created-role :
      (u : String) (m : RoomMember) (w : World Msg)
      → IsPlain u w
      → w.room.members u ≡ none
      → (create_member driver enable_guest u w).0 ≡ ok m
      → is_admin m.role ≡ false
  unfolding create_member
  created-role u m w p c e =
      let made =
        first_or_create_room_member_relation driver w.db w.room.id u (create_conf w.room u) in
      elim (Result-cases made.0) [
        | inl (row, g) ↦
            stored-role u row m (record w { db = made.1 }) c p.0 (created_row-role u row w p g)
              (ground arith)
        | inr (x, g) ↦ ground arith
      ]

  load_or_create-role :
      (u : String) (m : RoomMember) (w : World Msg)
      → IsCoherent w
      → IsPlain u w
      → (load_or_create_member driver enable_guest u w).0 ≡ ok m
      → is_admin m.role ≡ false
  unfolding load_or_create_member
  load_or_create-role u m w h p e = elim (Bool-cases w.room.settings.disable_join_new_user) [
    | inl b ↦ loaded-role u m w h p (ground arith)
    | inr b ↦ elim (Option-cases (w.room.members u)) [
      | inr (k, c) ↦ cached-role u m w h p (ground arith)
      | inl c ↦ created-role u m w p c (ground arith)
    ]
  ]

  -- Nobody without a right of an administrator passes his test.
  test-refused :
      (u : String) (q : RoomAdminPermission) (w : World Msg)
      → IsCoherent w
      → IsPlain u w
      → room_has_admin_permission driver enable_guest u q w
        ≡ (false, (load_or_create_member driver enable_guest u w).1)
  unfolding room_has_admin_permission
  test-refused u q w h p = elim (Result-cases (load_or_create_member driver enable_guest u w).0) [
    | inr (x, e) ↦ rw (p.0, e) refl
    | inl (m, e) ↦
        let plain : has_admin_permission m q ≡ false =
          no_right m q (load_or_create-role u m w h p e) in
        rw (p.0, e, plain) refl
  ]

  -- What a test leaves that refuses.
  user_test-refused :
      (u : User) (q : RoomAdminPermission) (w : World Msg)
      → IsCoherent w
      → IsPlain u.id w
      → is_site_admin u ≡ false
      → ((user_has_admin_permission driver enable_guest u q w).0 ≡ false)
        × IsUntouched u.id w (user_has_admin_permission driver enable_guest u q w).1
  unfolding user_has_admin_permission
  user_test-refused u q w h p a =
      let test = test-refused u.id q w h p in
      elim (Bool-cases (is_guest_user u)) [
        | inl g ↦ rw (a, g) (refl, IsUntouched-self u.id w)
        | inr g ↦ rw (a, g, test) (refl, load_or_create-IsUntouched driver enable_guest u.id w)
      ]

  abbrev IsRefused : String → World Msg → Result (Unit {0}) × World Msg → Type 0
  IsRefused u w r = (r.0 ≡ err no_permission_error) × IsUntouched u w r.1

  IsRefused-by_test :
      (u : String) (w : World Msg) (f : M (World Msg) (Unit {0})) (t : Bool × World Msg)
      → (t.0 ≡ false) × IsUntouched u w t.1
      → IsRefused u w (when_permitted f t)
  unfolding when_permitted
  IsRefused-by_test u w f (b, v) (e, k) = rw e (refl, k)

  module _ (compare_hash : List ℕ → String → Bool) (generate : String → Result (List ℕ))
      (site : SiteSettings) (status : Notice Msg) where
    -- A user who is no administrator of the site, has not created the room and whose row, if any,
    -- is no administrator's is refused every change of members, settings and password as not
    -- permitted, in a room with a coherent cache and whatever the database answers; of the room
    -- and its tables only his own row and the cache of members may differ after it.
    pub change-refused :
        (u : User) (c : Change) (w : World Msg)
        → IsCoherent w
        → IsPlain u.id w
        → is_site_admin u ≡ false
        → ((change driver enable_guest compare_hash generate site status u c w).0
            ≡ err no_permission_error)
          × IsUntouched u.id w
              (change driver enable_guest compare_hash generate site status u c w).1
    unfolding change ban_user_member unban_user_member delete_user_member approve_user_member
        set_user_room_settings update_user_room_settings set_user_room_password for_member
        set_user_permissions add_user_permissions remove_user_permissions reset_user_permissions
        for_creator set_user_room_admin set_user_room_member set_user_admin_permissions
        add_user_admin_permissions remove_user_admin_permissions reset_user_admin_permissions
        is_room_creator
    change-refused u c w h p a = by_test c
      where
        admin :
            (q : RoomAdminPermission) (f : M (World Msg) (Unit {0}))
            → IsRefused u.id w
                (when_permitted f (user_has_admin_permission driver enable_guest u q w))
        admin q f =
            IsRefused-by_test u.id w f (user_has_admin_permission driver enable_guest u q w)
              (user_test-refused u q w h p a)

        creator :
            (f : M (World Msg) (Unit {0}))
            → IsRefused u.id w (when_permitted f (is_creator w.room u.id, w))
        creator f =
            IsRefused-by_test u.id w f (is_creator w.room u.id, w) (p.0, IsUntouched-self u.id w)

        by_test :
            (d : Change)
            → IsRefused u.id w (change driver enable_guest compare_hash generate site status u d w)
        by_test (bans t) = admin Permission.ban_room_member _
        by_test (unbans t) = admin Permission.ban_room_member _
        by_test (deletes t) = admin Permission.approve_pending_member _
        by_test (approves t) = admin Permission.approve_pending_member _
        by_test (resets t) = admin Permission.set_user_permission _
        by_test (sets t q) = admin Permission.set_user_permission _
        by_test (adds t q) = admin Permission.set_user_permission _
        by_test (removes t q) = admin Permission.set_user_permission _
        by_test (resets_admin t) = creator _
        by_test (makes_member t q) = creator _
        by_test (makes_admin t q) = creator _
        by_test (sets_admin t q) = creator _
        by_test (adds_admin t q) = creator _
        by_test (removes_admin t q) = creator _
        by_test (sets_settings s) = admin Permission.set_room_settings _
        by_test (updates_settings f) = admin Permission.set_room_settings _
        by_test (sets_password s) = admin Permission.set_room_password _
