-- ===== src/Op/User/Members/Protected.antt =====
-- The administrators of a room are safe from one another, but for deletions.
use mathlib.Core.Path.{subst}
use synctv.Base.{
  ℕ, String, Bool, true, false, ◌&&◌, not, none, some, List, str_eq, ◌≡◌, refl, arith, ap, ◌∙◌, inl,
  inr, Bool-cases, Option-cases, eq_iff,
}
use synctv.Base.Result.{Error, failure, Result, ok, err, M}
use synctv.Model.Member.Role.{is_admin, RoomMemberRole}
use synctv.Model.Member.Permission.{RoomMemberPermission, RoomAdminPermission}
use synctv.Model.Member.Permission
use synctv.Model.Member.{RoomMember}
use synctv.Db.{Driver, select_member}
use synctv.Db.Member.{get_room_member}
use synctv.Op.Room.{World, Room, is_creator, is_guest}
use synctv.Op.Room.Members.{
  load_member, store_member, room_has_admin_permission, amend, user_role, is_room_admin, result_or,
}
use synctv.Op.Room.Changes
use synctv.Op.Room.Coherence.{IsCoherent, load_member_cases, load_or_create_member-IsCoherent}
use synctv.Op.User.{User, is_site_admin, is_guest_user}
use synctv.Op.User.Members.{
  Notice, SiteSettings, no_permission_error, when_permitted, unless, then_tell,
  user_has_admin_permission, is_room_creator, ban_user_member, for_member, set_user_permissions,
  add_user_permissions, remove_user_permissions, reset_user_permissions,
}
use synctv.Op.User.Members.Calls.{Change, bans, resets, sets, adds, removes, change}
use synctv.Op.User.Members.Untouched.{
  IsUntouched, IsUntouched-self, store-IsUntouched, load_or_create-IsUntouched,
}

-- Whose rights a change takes away or replaces.
pub data Demotes (t : String) : Change → Type 0 where
  by_ban : Demotes t (bans t)
  by_reset : Demotes t (resets t)
  by_set : (p : RoomMemberPermission) → Demotes t (sets t p)
  by_add : (p : RoomMemberPermission) → Demotes t (adds t p)
  by_remove : (p : RoomMemberPermission) → Demotes t (removes t p)

module _ (driver : Driver) (enable_guest : Bool) {Msg : Type 0} where
  -- An administrator by the table, in a room whose database answers queries.
  pub record IsAdminRow (t : String) (w : World Msg) : Type 0 where
    pub coherent : IsCoherent w
    pub queries : driver select_member ≡ none
    pub no_guest : is_guest w.room t ≡ false
    pub has_row :
        (row : RoomMember) × (w.db.members w.room.id t ≡ some row) × (is_admin row.role ≡ true)

  amend-admin :
      (r : Room Msg) (t : String) (row : RoomMember)
      → is_guest r t ≡ false
      → is_admin row.role ≡ true
      → is_admin (amend r t row).role ≡ true
  unfolding amend is_admin
  amend-admin r t row g h = ground arith

  load-admin :
      (t : String) (w : World Msg)
      → IsAdminRow t w
      → (m : RoomMember) × ((load_member driver enable_guest t w).0 ≡ ok m)
        × (is_admin m.role ≡ true)
  unfolding load_member store_member get_room_member
  load-admin t w h =
      let (row, at, role) = h.has_row in
      let admin = amend-admin w.room t row h.no_guest role in
      elim (Option-cases (w.room.members t)) [
        | inl c ↦ (amend w.room t row, ground (arith, h.queries, h.no_guest), admin)
        | inr (m, c) ↦
            let same : amend w.room t row ≡ m = ground (arith, h.coherent t) in
            (m, ground (arith, h.no_guest), subst (λ x. is_admin x.role ≡ true) same admin)
      ]

  load-IsUntouched :
      (u t : String) (w v : World Msg)
      → IsUntouched u w v
      → IsUntouched u w (load_member driver enable_guest t v).1
  load-IsUntouched u t w v h =
      load_member_cases driver enable_guest (IsUntouched u w) t v h
        (λ m row. store-IsUntouched u t m w v h)

  -- What `UserRole` makes of a load.
  abbrev role_of : Result RoomMember → World Msg → Result RoomMemberRole × World Msg
  role_of r v = elim r [ ok m ↦ (ok m.role, v) | err e ↦ (err e, v) ]

  role_of-admin :
      (r : Result RoomMember) (v : World Msg) (m : RoomMember)
      → r ≡ ok m
      → is_admin m.role ≡ true
      → result_or false is_admin (role_of r v).0 ≡ true
  role_of-admin (ok k) v m e h = ground arith
  role_of-admin (err x) v m e h = cc

  role_of-state : (r : Result RoomMember) (v : World Msg) → (role_of r v).1 ≡ v
  role_of-state (ok k) v = refl
  role_of-state (err x) v = refl

  admin_test :
      (t : String) (w : World Msg)
      → IsAdminRow t w
      → (is_room_admin driver enable_guest t w).0 ≡ true
  unfolding is_room_admin user_role is_admin
  admin_test t w h =
      let (m, loads, role) = load-admin t w h in
      elim (Bool-cases (is_creator w.room t)) [
        | inl c ↦ rw c refl
        | inr c ↦ rw c (
            role_of-admin (load_member driver enable_guest t w).0
              (load_member driver enable_guest t w).1 m loads role)
      ]

  admin_test-IsUntouched :
      (u t : String) (w v : World Msg)
      → IsUntouched u w v
      → IsUntouched u w (is_room_admin driver enable_guest t v).1
  unfolding is_room_admin user_role
  admin_test-IsUntouched u t w v h = elim (Bool-cases (is_creator v.room t)) [
    | inl c ↦ rw c h
    | inr c ↦
        rw
          (
            c,
            role_of-state (load_member driver enable_guest t v).0
                (load_member driver enable_guest t v).1,
          )
          (load-IsUntouched u t w v h)
  ]

  -- The user's own test keeps what the target's test reads.
  user_test-IsUntouched :
      (u : User) (q : RoomAdminPermission) (w : World Msg)
      → IsUntouched u.id w (user_has_admin_permission driver enable_guest u q w).1
  unfolding user_has_admin_permission room_has_admin_permission
  user_test-IsUntouched u q w =
      let self = IsUntouched-self u.id w in
      elim (Bool-cases (is_site_admin u)) [
        | inl a ↦ rw a self
        | inr a ↦ elim (Bool-cases (is_guest_user u)) [
          | inl g ↦ rw (a, g) self
          | inr g ↦ elim (Bool-cases (is_creator w.room u.id)) [
            | inl c ↦ rw (a, g, c) self
            | inr c ↦ rw (a, g, c) (load_or_create-IsUntouched driver enable_guest u.id w)
          ]
        ]
      ]

  user_test-IsCoherent :
      (u : User) (q : RoomAdminPermission) (w : World Msg)
      → IsCoherent w
      → IsCoherent (user_has_admin_permission driver enable_guest u q w).1
  unfolding user_has_admin_permission room_has_admin_permission
  user_test-IsCoherent u q w h = elim (Bool-cases (is_site_admin u)) [
    | inl a ↦ rw a h
    | inr a ↦ elim (Bool-cases (is_guest_user u)) [
      | inl g ↦ rw (a, g) h
      | inr g ↦ elim (Bool-cases (is_creator w.room u.id)) [
        | inl c ↦ rw (a, g, c) h
        | inr c ↦ rw (a, g, c) (load_or_create_member-IsCoherent driver enable_guest u.id w h)
      ]
    ]
  ]

  tested-IsAdminRow :
      (u : User) (t : String) (q : RoomAdminPermission) (w : World Msg)
      → str_eq t u.id ≡ false
      → IsAdminRow t w
      → IsAdminRow t (user_has_admin_permission driver enable_guest u q w).1
  unfolding is_guest
  tested-IsAdminRow u t q w other h =
      let v = (user_has_admin_permission driver enable_guest u q w).1 in
      let k = user_test-IsUntouched u q w in
      let (row, at, role) = h.has_row in
      record {
        coherent = user_test-IsCoherent u q w h.coherent;
        queries = h.queries;
        no_guest = h.no_guest;
        has_row = (row, ap (λ r. v.db.members r t) k.id ∙ k.rows t other ∙ at, role);
      }

  -- A change that fails and leaves the rights of all others.
  abbrev pub Fails : String → World Msg → Result (Unit {0}) × World Msg → Type 0
  Fails u w r = ((e : Error) × (r.0 ≡ err e)) × IsUntouched u w r.1

  permitted-Fails :
      (u : String) (w : World Msg) (f : M (World Msg) (Unit {0})) (t : Bool × World Msg)
      → IsUntouched u w t.1
      → Fails u w (f t.1)
      → Fails u w (when_permitted f t)
  unfolding when_permitted
  permitted-Fails u w f (true, v) k h = h
  permitted-Fails u w f (false, v) k h = ((no_permission_error, refl), k)

  -- The guard of an administrator's rights.
  abbrev guarded : User → String → String → M (World Msg) (Unit {0}) → M (World Msg) (Unit {0})
  guarded u t text f v =
      let (admin, x) = is_room_admin driver enable_guest t v in
      unless (admin && not (is_room_creator u x)) text f x

  guarded-Fails :
      (u : User) (t text : String) (f : M (World Msg) (Unit {0})) (w v : World Msg)
      → is_creator w.room u.id ≡ false
      → IsUntouched u.id w v
      → IsAdminRow t v
      → Fails u.id w (guarded u t text f v)
  unfolding is_room_creator is_creator
  guarded-Fails u t text f w v c k h =
      let x = (is_room_admin driver enable_guest t v).1 in
      let last = admin_test-IsUntouched u.id t w v k in
      let stranger : str_eq x.room.creator_id u.id ≡ false =
        ap (λ s. str_eq s u.id) last.creator ∙ c in
      rw (admin_test t v h, stranger) ((failure text, refl), last)

  tested-Fails :
      (u : User) (t text : String) (q : RoomAdminPermission) (f : M (World Msg) (Unit {0}))
      (w : World Msg)
      → is_creator w.room u.id ≡ false
      → str_eq t u.id ≡ false
      → IsAdminRow t w
      → Fails u.id w (
          when_permitted (guarded u t text f) (user_has_admin_permission driver enable_guest u q w))
  tested-Fails u t text q f w c other h =
      let test = user_has_admin_permission driver enable_guest u q w in
      let k = user_test-IsUntouched u q w in
      permitted-Fails u.id w (guarded u t text f) test k
        (guarded-Fails u t text f w test.1 c k (tested-IsAdminRow u t q w other h))

  module _ (compare_hash : List ℕ → String → Bool) (generate : String → Result (List ℕ))
      (site : SiteSettings) (status : Notice Msg) where
    -- In a room with a coherent cache, while the database answers queries, a ban of another user
    -- whose row is an administrator's, and a change of that user's member permissions, fails
    -- unless it comes from the room's creator, administrators of the site included, where the
    -- target is not the guest; of the room and its tables only the caller's own row and the cache
    -- of members may differ after it.
    pub demotion-Fails :
        (u : User) (t : String) (c : Change) (w : World Msg)
        → Demotes t c
        → is_creator w.room u.id ≡ false
        → str_eq t u.id ≡ false
        → IsAdminRow t w
        → Fails u.id w (change driver enable_guest compare_hash generate site status u c w)
    unfolding change ban_user_member for_member set_user_permissions add_user_permissions
        remove_user_permissions reset_user_permissions
    demotion-Fails u t c w by_ban creator other h =
        let self : str_eq u.id t ≡ false = ground (arith, eq_iff u.id t, eq_iff t u.id) in
        rw self (
          tested-Fails u t "cannot ban admin" Permission.ban_room_member
            (Changes.ban_member driver t) w creator other h)
    demotion-Fails u t c w by_reset creator other h =
        tested-Fails u t "cannot reset admin permissions" Permission.set_user_permission
          (then_tell driver enable_guest status u t (Changes.reset_member_permissions driver t)) w
          creator other h
    demotion-Fails u t c w (by_set p) creator other h =
        tested-Fails u t "cannot set admin permissions" Permission.set_user_permission
          (then_tell driver enable_guest status u t (Changes.set_member_permissions driver t p)) w
          creator other h
    demotion-Fails u t c w (by_add p) creator other h =
        tested-Fails u t "cannot add admin permissions" Permission.set_user_permission
          (then_tell driver enable_guest status u t
            (Changes.add_member_permissions driver enable_guest t p))
          w creator other h
    demotion-Fails u t c w (by_remove p) creator other h =
        tested-Fails u t "cannot remove admin permissions" Permission.set_user_permission
          (then_tell driver enable_guest status u t
            (Changes.remove_member_permissions driver enable_guest t p))
          w creator other h
