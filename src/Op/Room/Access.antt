-- ===== src/Op/Room/Access.antt =====
-- Who may do what in a room: the answers of the permission tests by the row of the table.
use mathlib.Core.Option
use synctv.Base.{
  ℕ, ◌&&◌, not, ◌⊎◌, ◌↔◌, ◌≢◌, str_eq, eq_iff, String, Bool, true, false, Option, none, some, ◌≡◌,
  refl, arith, if◌then◌else◌, inl, inr, Option-cases, Bool-cases,
}
use synctv.Base.Result.{Result-cases, ok}
use synctv.Model.Member.Role.{RoomMemberRole, is_admin}
use synctv.Model.Member.Role
use synctv.Model.Member.Permission
use synctv.Model.Member.Permission.Laws.{Includes, has-Includes}
use synctv.Model.Room.{RoomSettings}
use synctv.Model.Member.Permission.{RoomMemberPermission, RoomAdminPermission, has}
use synctv.Model.Member.{RoomMember, has_admin_permission}
use synctv.Db.{Driver, select_member}
use synctv.Db.Member.{get_room_member, first_or_create_room_member_relation}
use synctv.Op.Room.{Room, World, is_creator, is_guest, guest_user_id}
use synctv.Op.Room.Members.{
  amend, create_conf, guest_refused, load_member, store_member, load_or_create_member,
  create_member, has_permission, room_has_admin_permission, member_allows, withheld,
}
use synctv.Op.Room.Coherence.{IsCoherent}

-- A switch of the settings that is on, or that does not govern what is asked for.
abbrev IsOpen : RoomMemberPermission → RoomMemberPermission → Bool → Type 0
IsOpen asked governed switch = (¬ Includes asked governed) ⊎ (switch ≡ true)

-- The seven switches of the settings.
abbrev AreOpen : RoomSettings → RoomMemberPermission → Type 0
AreOpen s p =
    IsOpen p Permission.get_movie_list s.can_get_movie_list
    × IsOpen p Permission.add_movie s.can_add_movie
    × IsOpen p Permission.delete_movie s.can_delete_movie
    × IsOpen p Permission.edit_movie s.can_edit_movie
    × IsOpen p Permission.set_current_movie s.can_set_current_movie
    × IsOpen p Permission.set_current_status s.can_set_current_status
    × IsOpen p Permission.send_chat_message s.can_send_chat_message

-- The guest has the permissions of the room's settings, any other user those of his row.
abbrev granted : {Msg : Type 0} → Room Msg → String → RoomMember → RoomMemberPermission
granted r u row = if str_eq u guest_user_id then r.settings.guest_permissions else row.permissions

-- Whom a room allows what: its creator everything, an administrator but for the guest everything,
-- and others what is granted to them, bit by bit, as far as no switch is against it.
abbrev pub Allows : {Msg : Type 0} → Room Msg → String → RoomMemberPermission → RoomMember → Type 0
Allows r u p row =
    (r.creator_id ≡ u)
    ⊎ ((u ≢ guest_user_id) × ((row.role ≡ Role.admin) ⊎ (row.role ≡ Role.creator)))
    ⊎ (Includes (granted r u row) p × AreOpen r.settings p)

IsOpen-iff :
    (asked governed : ℕ) (switch : Bool)
    → ((has asked governed && not switch) ≡ false) ↔ IsOpen asked governed switch
IsOpen-iff asked governed true = (λ h. inr refl, λ o. ground arith)
IsOpen-iff asked governed false = (
  λ h. inl λ i. let k = (has-Includes asked governed).1 i in ground arith,
  λ o. elim o [
    | inr e ↦ absurd (cc e)
    | inl n ↦ elim (Bool-cases (has asked governed)) [
      | inl k ↦ absurd (n ((has-Includes asked governed).0 k))
      | inr k ↦ ground arith
    ]
  ],
)

AreOpen-iff : (s : RoomSettings) (p : RoomMemberPermission) → (withheld s p ≡ false) ↔ AreOpen s p
unfolding withheld
AreOpen-iff s p =
    let a = IsOpen-iff p Permission.get_movie_list s.can_get_movie_list in
    let b = IsOpen-iff p Permission.add_movie s.can_add_movie in
    let c = IsOpen-iff p Permission.delete_movie s.can_delete_movie in
    let d = IsOpen-iff p Permission.edit_movie s.can_edit_movie in
    let e = IsOpen-iff p Permission.set_current_movie s.can_set_current_movie in
    let f = IsOpen-iff p Permission.set_current_status s.can_set_current_status in
    let g = IsOpen-iff p Permission.send_chat_message s.can_send_chat_message in
    (
      λ h. (
        a.0 (ground arith),
        b.0 (ground arith),
        c.0 (ground arith),
        d.0 (ground arith),
        e.0 (ground arith),
        f.0 (ground arith),
        g.0 (ground arith),
      ),
      λ o.
          let (h1, h2, h3, h4, h5, h6, h7) = o in
          rw (a.1 h1, b.1 h2, c.1 h3, d.1 h4, e.1 h5, f.1 h6, g.1 h7) refl,
    )

is_admin_iff : (r : RoomMemberRole) → (is_admin r ≡ true) ↔ ((r ≡ Role.admin) ⊎ (r ≡ Role.creator))
unfolding is_admin
is_admin_iff Role.unknown = (λ h. absurd (cc h), λ h. elim h [ inl e ↦ cc e | inr e ↦ cc e ])
is_admin_iff Role.member = (λ h. absurd (cc h), λ h. elim h [ inl e ↦ cc e | inr e ↦ cc e ])
is_admin_iff Role.admin = (λ h. inl refl, λ h. refl)
is_admin_iff Role.creator = (λ h. inr refl, λ h. refl)

permitted_iff :
    (s : RoomSettings) (p q : RoomMemberPermission)
    → ((if withheld s p then false else has q p) ≡ true) ↔ (Includes q p × AreOpen s p)
permitted_iff s p q = (
  λ h. ((has-Includes q p).0 (ground arith), (AreOpen-iff s p).0 (ground arith)),
  λ k. rw ((AreOpen-iff s p).1 k.1, (has-Includes q p).1 k.0) refl,
)

module _ {Msg : Type 0} (r : Room Msg) (u : String) (p : RoomMemberPermission)
    (row : RoomMember) where
  amend-plain :
      str_eq r.creator_id u ≡ false
      → str_eq u guest_user_id ≡ false
      → is_admin row.role ≡ false
      → amend r u row ≡ row
  unfolding is_creator is_guest amend
  amend-plain c g a = rw (c, g, a) refl

  plain-Allows :
      str_eq r.creator_id u ≡ false
      → str_eq u guest_user_id ≡ false
      → is_admin row.role ≡ false
      → (member_allows r.settings p (amend r u row) ≡ true) ↔ Allows r u p row
  plain-Allows c g a =
      let k = permitted_iff r.settings p row.permissions in
      let no_admin : is_admin row.role ≢ true = λ e. cc (a, e) in
      rw (amend-plain c g a, a, g)
        (
          λ h. inr (inr (k.0 h)),
          λ o. elim o [
            | inl e ↦ ground (arith, (eq_iff r.creator_id u).1 e)
            | inr (inl (n, b)) ↦ absurd (no_admin ((is_admin_iff row.role).1 b))
            | inr (inr b) ↦ k.1 b
          ],
        )

  -- What the row as the room amends it decides for a user who has not created the room.
  member-Allows :
      str_eq r.creator_id u ≡ false
      → (member_allows r.settings p (amend r u row) ≡ true) ↔ Allows r u p row
  unfolding is_creator is_guest amend
  member-Allows c =
      let other : r.creator_id ≢ u = λ e. ground (arith, (eq_iff r.creator_id u).1 e) in
      elim (Bool-cases (str_eq u guest_user_id)) [
        | inl g ↦
            let k = permitted_iff r.settings p r.settings.guest_permissions in
            rw (c, g)
              (
                λ h. inr (inr (k.0 h)),
                λ o. elim o [
                  | inl e ↦ absurd (other e)
                  | inr (inl (n, a)) ↦ absurd (n ((eq_iff u guest_user_id).0 g))
                  | inr (inr a) ↦ k.1 a
                ],
              )
        | inr g ↦
            let no_guest : u ≢ guest_user_id = λ e. ground (arith, (eq_iff u guest_user_id).1 e) in
            elim (Bool-cases (is_admin row.role)) [
              | inl a ↦
                  rw (c, g, a)
                    (λ h. inr (inl (no_guest, (is_admin_iff row.role).0 a)), λ o. ground arith)
              | inr a ↦ plain-Allows c g a
            ]
      ]

  Allows-iff :
      ((if is_creator r u then true else member_allows r.settings p (amend r u row)) ≡ true)
      ↔ Allows r u p row
  unfolding is_creator
  Allows-iff = elim (Bool-cases (str_eq r.creator_id u)) [
    | inl c ↦ (λ h. inl ((eq_iff r.creator_id u).0 c), λ o. rw c refl)
    | inr c ↦ rw c (member-Allows c)
  ]

module _ (driver : Driver) (enable_guest : Bool) {Msg : Type 0} where
  -- What `LoadOrCreateMember` answers for a user who has a row.
  load_or_create_row :
      (u : String) (w : World Msg) (row : RoomMember)
      → IsCoherent w
      → driver select_member ≡ none
      → guest_refused driver enable_guest w.room u ≡ false
      → w.db.members w.room.id u ≡ some row
      → (load_or_create_member driver enable_guest u w).0 ≡ ok (amend w.room u row)
  unfolding load_or_create_member load_member store_member get_room_member create_member
      first_or_create_room_member_relation
  load_or_create_row u w row h d g r = ground (arith, h u)

  load_or_create_settings :
      (u : String) (w : World Msg)
      → (load_or_create_member driver enable_guest u w).1.room.settings ≡ w.room.settings
  unfolding load_or_create_member load_member store_member create_member
  load_or_create_settings u w = ground arith

  -- The test by the row as the room amends it.
  has_permission_amended :
      (u : String) (p : RoomMemberPermission) (w : World Msg) (row : RoomMember)
      → IsCoherent w
      → driver select_member ≡ none
      → guest_refused driver enable_guest w.room u ≡ false
      → w.db.members w.room.id u ≡ some row
      → (has_permission driver enable_guest u p w).0 ≡ (
          if is_creator w.room u
          then true
          else member_allows w.room.settings p (amend w.room u row))
  unfolding has_permission
  has_permission_amended u p w row h d g r =
      ground (arith, load_or_create_row u w row h d g r, load_or_create_settings u w)

  -- In a room with a coherent cache, while the database answers queries, a permission test of a
  -- user who has a row, and is no guest that is refused, holds exactly for the creator, for
  -- another user than the guest whose row is an administrator's or a creator's, and for a user
  -- whose row, or for the guest the settings' guest permissions, have every bit that is asked
  -- for, if of the seven permissions that a switch of the settings governs none that is off has
  -- all its bits in what is asked for.
  pub has_permission-Allows :
      (u : String) (p : RoomMemberPermission) (w : World Msg) (row : RoomMember)
      → IsCoherent w
      → driver select_member ≡ none
      → guest_refused driver enable_guest w.room u ≡ false
      → w.db.members w.room.id u ≡ some row
      → ((has_permission driver enable_guest u p w).0 ≡ true) ↔ Allows w.room u p row
  has_permission-Allows u p w row h d g r =
      rw (has_permission_amended u p w row h d g r) (Allows-iff w.room u p row)

  cached-amended :
      (r : Room Msg) (u : String) (row : Option RoomMember) (m : RoomMember)
      → some m ≡ Option.map (amend r u) row
      → (d : RoomMember) × (m ≡ amend r u d)
  cached-amended r u none m e = ground arith
  cached-amended r u (some d) m e = (d, ground arith)

  -- Storing a row answers with an amended row.
  store_member-amended :
      (u : String) (d : RoomMember) (w : World Msg) (m : RoomMember)
      → IsCoherent w
      → (store_member u d w).0 ≡ ok m
      → (row : RoomMember) × (m ≡ amend w.room u row)
  unfolding store_member
  store_member-amended u d w m h e = elim (Option-cases (w.room.members u)) [
    | inl c ↦ (d, ground arith)
    | inr (k, c) ↦ cached-amended w.room u (w.db.members w.room.id u) m (ground (arith, h u))
  ]

  load-amended :
      (u : String) (w : World Msg) (m : RoomMember)
      → IsCoherent w
      → (load_member driver enable_guest u w).0 ≡ ok m
      → (row : RoomMember) × (m ≡ amend w.room u row)
  unfolding load_member
  load-amended u w m h e = elim (Option-cases (w.room.members u)) [
    | inr (k, c) ↦ cached-amended w.room u (w.db.members w.room.id u) m (ground (arith, h u))
    | inl c ↦ elim (Result-cases (get_room_member driver w.db w.room.id u)) [
      | inl (d, g) ↦ store_member-amended u d w m h (ground arith)
      | inr (x, g) ↦ ground arith
    ]
  ]

  create-amended :
      (u : String) (w : World Msg) (m : RoomMember)
      → w.room.members u ≡ none
      → (create_member driver enable_guest u w).0 ≡ ok m
      → (row : RoomMember) × (m ≡ amend w.room u row)
  unfolding create_member store_member
  create-amended u w m c e =
      elim (Result-cases
        (first_or_create_room_member_relation driver w.db w.room.id u (create_conf w.room u)).0) [
          | inl (d, g) ↦ (d, ground arith)
          | inr (x, g) ↦ ground arith
        ]

  load_or_create-amended :
      (u : String) (w : World Msg) (m : RoomMember)
      → IsCoherent w
      → (load_or_create_member driver enable_guest u w).0 ≡ ok m
      → (row : RoomMember) × (m ≡ amend w.room u row)
  unfolding load_or_create_member
  load_or_create-amended u w m h e = elim (Bool-cases w.room.settings.disable_join_new_user) [
    | inl b ↦ load-amended u w m h (ground arith)
    | inr b ↦ elim (Option-cases (w.room.members u)) [
      | inr (k, c) ↦ cached-amended w.room u (w.db.members w.room.id u) m (ground (arith, h u))
      | inl c ↦ create-amended u w m c (ground arith)
    ]
  ]

  guest-has_admin_permission :
      (r : Room Msg) (u : String) (row : RoomMember) (p : RoomAdminPermission)
      → is_guest r u ≡ true
      → is_creator r u ≡ false
      → has_admin_permission (amend r u row) p ≡ false
  unfolding amend has_admin_permission is_admin
  guest-has_admin_permission r u row p g c = rw (c, g) refl

  -- In a room with a coherent cache that the guest has not created, the guest has no
  -- administrative permission, whatever the table holds and whatever the database answers.
  pub guest_never_admin :
      (u : String) (p : RoomAdminPermission) (w : World Msg)
      → IsCoherent w
      → is_guest w.room u ≡ true
      → is_creator w.room u ≡ false
      → (room_has_admin_permission driver enable_guest u p w).0 ≡ false
  unfolding room_has_admin_permission
  guest_never_admin u p w h g c =
      elim (Result-cases (load_or_create_member driver enable_guest u w).0) [
        | inr (x, e) ↦ rw (c, e) refl
        | inl (m, e) ↦
            let (row, same) = load_or_create-amended u w m h e in
            rw (c, e, same) (guest-has_admin_permission w.room u row p g c)
      ]
