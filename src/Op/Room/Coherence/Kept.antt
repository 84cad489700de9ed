-- ===== src/Op/Room/Coherence/Kept.antt =====
-- What the steps keep of which the calls on a room are made, every call keeps.
use synctv.Base.{String, Bool, ℕ, List, if◌then◌else◌, if_cases}
use synctv.Base.Result.{Error, Result, ok, err, M, ◌>>=◌}
use synctv.Model.Member.Role.{RoomMemberRole, is_admin}
use synctv.Model.Member.{RoomMember}
use synctv.Model.Member.Permission.{RoomMemberPermission}
use synctv.Model.Room.{RoomSettings, RoomStatus}
use synctv.Db.{Driver, Db}
use synctv.Db.Member
use synctv.Op.Room.{World, is_creator, is_guest, kick_room_user}
use synctv.Op.Room.Members.{
  load_member, load_or_create_member, user_role, is_room_admin, has_permission,
  room_has_admin_permission,
}
use synctv.Op.Room.Settings.{
  set_settings, update_settings, set_status, set_password, on_room, set_guest_permissions,
}
use synctv.Op.Room.Changes
use synctv.Op.Room.Changes.{then_forget, for_admin, when_admin}
use synctv.Op.Room.Coherence.Statements.{
  update_where-ChangesOnly, delete_room_member-ChangesOnly, ChangesOnly,
}
use synctv.Op.Room.Coherence.Calls.{
  Call, call, loads, loads_or_creates, kicks, approves, bans, unbans, deletes, resets, resets_admin,
  asks_permission, asks_admin_permission, sets_permissions, adds_permissions, removes_permissions,
  sets_member, sets_admin, sets_admin_permissions, adds_admin_permissions,
  removes_admin_permissions, sets_settings, updates_settings, sets_status, sets_password,
}

module _ (driver : Driver) (enable_guest : Bool) (compare_hash : List ℕ → String → Bool)
    (generate : String → Result (List ℕ)) {Msg : Type 0} where
  -- A property of worlds that the steps keep of which the calls are made.
  pub record IsKept (P : World Msg → Type 0) : Type 0 where
    pub load : (u : String) (w : World Msg) → P w → P (load_member driver enable_guest u w).1
    pub create :
        (u : String) (w : World Msg) → P w → P (load_or_create_member driver enable_guest u w).1
    pub kick : (u : String) (w : World Msg) → P w → P (on_room (kick_room_user u) w).1
    pub forget :
        (u : String) (statement : Db → Result (Unit {0}) × Db) (w : World Msg)
        → ChangesOnly w.room.id u w.db (statement w.db).1
        → P w
        → P (then_forget u statement w).1
    pub settle : (rs : RoomSettings) (w : World Msg) → P w → P (set_settings driver rs w).1
    pub resettle :
        (columns : RoomSettings → RoomSettings) (w : World Msg)
        → P w
        → P (update_settings driver columns w).1
    pub status : (s : RoomStatus) (w : World Msg) → P w → P (set_status driver s w).1
    pub password :
        (p : String) (w : World Msg) → P w → P (set_password driver compare_hash generate p w).1

  module _ (P : World Msg → Type 0) (k : IsKept P) where
    -- One guard, for the creator, and two, for the creator and the guest.
    guarded :
        (b : Bool) (x y : Result (Unit {0}) × World Msg) → P x.1 → P y.1 → P (if b then x else y).1
    guarded b x y p q =
        if_cases (λ (s : Result (Unit {0}) × World Msg). P s.1) b x y (λ _. p) (λ _. q)

    update :
        (u : String) (meets : RoomMember → Bool) (change : RoomMember → RoomMember) (w : World Msg)
        → P w
        → P (then_forget u (λ db. Member.update_where driver db w.room.id u meets change) w).1
    update u meets change w p =
        k.forget u (λ db. Member.update_where driver db w.room.id u meets change) w
          (update_where-ChangesOnly driver w.db w.room.id u meets change) p

    result_kept :
        {A : Type 0} (r : Result RoomMember) (f : RoomMember → A) (v : World Msg)
        → P v
        → P (◌>>=◌ (λ (u : World Msg). (r, u)) (λ a u. (ok (f a), u)) v).1
    result_kept (ok a) f v p = p
    result_kept (err e) f v p = p

    bind_kept :
        {A : Type 0} (m : M (World Msg) RoomMember) (f : RoomMember → A) (w : World Msg)
        → P (m w).1
        → P ((m >>= λ a v. (ok (f a), v)) w).1
    bind_kept m f w p = result_kept (m w).0 f (m w).1 p

    user_role_kept : (u : String) (w : World Msg) → P w → P (user_role driver enable_guest u w).1
    unfolding user_role
    user_role_kept u w p =
        if_cases (λ (s : Result RoomMemberRole × World Msg). P s.1) (is_creator w.room u) _ _
          (λ _. p)
          (λ _. bind_kept (load_member driver enable_guest u) (λ m. m.role) w (k.load u w p))

    is_room_admin_kept :
        (u : String) (w : World Msg) → P w → P (is_room_admin driver enable_guest u w).1
    unfolding is_room_admin
    is_room_admin_kept u w p = user_role_kept u w p

    when_admin_kept :
        (change : RoomMember → World Msg → Result (Unit {0}) × World Msg) (r : Result RoomMember)
        (w : World Msg)
        → ((m : RoomMember) (v : World Msg) → P v → P (change m v).1)
        → P w
        → P (when_admin change r w).1
    unfolding when_admin
    when_admin_kept change (ok m) w h p = guarded (is_admin m.role) _ _ (h m w p) p
    when_admin_kept change (err e) w h p = p

    for_admin_kept :
        (u a b : String) (change : RoomMember → World Msg → Result (Unit {0}) × World Msg)
        (w : World Msg)
        → ((m : RoomMember) (v : World Msg) → P v → P (change m v).1)
        → P w
        → P (for_admin driver enable_guest u a b change w).1
    unfolding for_admin
    for_admin_kept u a b change w h p = guarded (is_creator w.room u) _ _ p (
        guarded (is_guest w.room u) _ _ p (
          when_admin_kept change (load_member driver enable_guest u w).0
            (load_member driver enable_guest u w).1 h (k.load u w p)))

    set_member_permissions_kept :
        (u : String) (q : RoomMemberPermission) (w : World Msg)
        → P w
        → P (Changes.set_member_permissions driver u q w).1
    unfolding Changes.set_member_permissions set_guest_permissions Member.set_member_permissions
    set_member_permissions_kept u q w p = guarded (is_creator w.room u) _ _ p (
        guarded (is_guest w.room u) _ _ (k.resettle (λ s. record s { guest_permissions = q }) w p)
          (update u _ _ w p))

    -- The changes that first ask whether the user is an administrator.
    unless_admin_kept :
        (u : String) (q : RoomMemberPermission) (change : RoomMember → RoomMember) (w : World Msg)
        (x : Error)
        → P w
        → P
            (if is_guest w.room u
              then set_guest_permissions driver q w
              else let (admin, v) = is_room_admin driver enable_guest u w in
                if admin
                then (err x, v)
                else then_forget u (λ db. Member.update_row driver db v.room.id u change) v).1
    unfolding set_guest_permissions
    unless_admin_kept u q change w x p =
        let asked : P (is_room_admin driver enable_guest u w).1 = is_room_admin_kept u w p in
        guarded (is_guest w.room u) _ _ (k.resettle (λ s. record s { guest_permissions = q }) w p) (
          guarded (is_room_admin driver enable_guest u w).0 _ _ asked
            (update u _ _ (is_room_admin driver enable_guest u w).1 asked))

    pub call_kept :
        (c : Call) (w : World Msg) → P w → P (call driver enable_guest compare_hash generate c w)
    unfolding call
    call_kept (loads u) w p = k.load u w p
    call_kept (loads_or_creates u) w p = k.create u w p
    call_kept (kicks u) w p = k.kick u w p
    call_kept (approves u) w p =
        unfold Changes.approve_pending_member Member.room_approve_pending_member in
        guarded (is_creator w.room u) _ _ p (update u _ _ w p)
    call_kept (bans u) w p =
        unfold Changes.ban_member Member.room_ban_member in
        guarded (is_creator w.room u) _ _ p (
          guarded (is_guest w.room u) _ _ p (
            k.kick u (then_forget u (λ db. Member.room_ban_member driver db w.room.id u) w).1
              (update u _ _ w p)))
    call_kept (unbans u) w p =
        unfold Changes.unban_member Member.room_unban_member in
        guarded (is_creator w.room u) _ _ p (guarded (is_guest w.room u) _ _ p (update u _ _ w p))
    call_kept (deletes u) w p =
        unfold Changes.delete_member in
        guarded (is_creator w.room u) _ _ p (
          k.kick u (then_forget u (λ db. Member.delete_room_member driver db w.room.id u) w).1 (
            k.forget u (λ db. Member.delete_room_member driver db w.room.id u) w
              (delete_room_member-ChangesOnly driver w.db w.room.id u) p))
    call_kept (resets u) w p =
        unfold Changes.reset_member_permissions in
        set_member_permissions_kept u w.room.settings.user_default_permissions w p
    call_kept (resets_admin u) w p =
        unfold Changes.reset_admin_permissions Member.room_set_admin_permissions in
        for_admin_kept u _ _ _ w (λ m v q. update u _ _ v q) p
    call_kept (asks_permission u q) w p =
        unfold has_permission in
        if_cases (λ (s : Bool × World Msg). P s.1) (is_creator w.room u) _ _ (λ _. p)
          (λ _. k.create u w p)
    call_kept (asks_admin_permission u q) w p =
        unfold room_has_admin_permission in
        if_cases (λ (s : Bool × World Msg). P s.1) (is_creator w.room u) _ _ (λ _. p)
          (λ _. k.create u w p)
    call_kept (sets_permissions u q) w p = set_member_permissions_kept u q w p
    call_kept (adds_permissions u q) w p =
        unfold Changes.add_member_permissions Member.add_member_permissions in
        unless_admin_kept u _ _ w _ p
    call_kept (removes_permissions u q) w p =
        unfold Changes.remove_member_permissions Member.remove_member_permissions in
        unless_admin_kept u _ _ w _ p
    call_kept (sets_member u q) w p =
        unfold Changes.set_member Member.room_set_member in
        guarded (is_creator w.room u) _ _ p (update u _ _ w p)
    call_kept (sets_admin u q) w p =
        unfold Changes.set_admin Member.room_set_admin in
        guarded (is_creator w.room u) _ _ p (guarded (is_guest w.room u) _ _ p (update u _ _ w p))
    call_kept (sets_admin_permissions u q) w p =
        unfold Changes.set_admin_permissions Member.room_set_admin_permissions in
        for_admin_kept u _ _ _ w (λ m v q. update u _ _ v q) p
    call_kept (adds_admin_permissions u q) w p =
        unfold Changes.add_admin_permissions Member.room_add_admin_permissions in
        for_admin_kept u _ _ _ w (λ m v q. update u _ _ v q) p
    call_kept (removes_admin_permissions u q) w p =
        unfold Changes.remove_admin_permissions Member.room_remove_admin_permissions in
        for_admin_kept u _ _ _ w (λ m v q. update u _ _ v q) p
    call_kept (sets_settings rs) w p = k.settle rs w p
    call_kept (updates_settings columns) w p = k.resettle columns w p
    call_kept (sets_status s) w p = k.status s w p
    call_kept (sets_password password) w p = k.password password w p
