-- ===== src/Op/Site/Changes.antt =====
-- Changes of an account and of the status of a room keep the caches true.
use synctv.Base.{
  ℕ, String, Bool, false, none, some, List, str_eq, eq_iff, ◌≡◌, refl, arith, ap, sym, ◌∙◌, inl,
  inr, Bool-cases, Option-cases, if◌then◌else◌, if_true, if_false,
}
use synctv.Base.Dict.{str_eq_refl}
use synctv.Base.Result.{Error, Result, ok, err, Result-cases}
use synctv.Model.Room.{RoomStatus}
use synctv.Db.{Driver, Db, RoomRow}
use synctv.Db.User.{UserDriver, update_password}
use synctv.Db.Room.{set_room_status}
use synctv.Op.Room.{World, Room, close_room}
use synctv.Op.Room.Settings.{set_status, shuts}
use synctv.Op.Room.Coherence.{set_status-IsCoherent}
use synctv.Op.User.Account.{Account}
use synctv.Op.User.Account.Saved.{AccountCall, account_call, IsSaved, call-IsSaved}
use synctv.Op.User.Account.Own.{call-IsOwn}
use synctv.Op.Site.{Site, in_account}
use synctv.Op.Site.Sound.{IsSound, IsTrueRoom, row_of}
use synctv.Op.Site.Steps.{changed-IsSound}

module _ (user_driver : UserDriver) (compare_hash : List ℕ → String → Bool)
    (generate : String → Result (List ℕ)) (checksum : List ℕ → ℕ) {Msg : Type 0} where
  pub account-IsSound :
      (c : AccountCall) (id : String) (s : Site Msg)
      → user_driver update_password ≡ none
      → IsSound checksum s
      → IsSound checksum
          (in_account (account_call user_driver compare_hash generate checksum c) id s (s.users id))
  account-IsSound c id s d h = elim (Option-cases (s.users id)) [
    | inl e ↦ rw e h
    | inr (u, e) ↦
        let t = h.users id u e in
        let a : Account = record { user = u; users = s.accounts } in
        let b = (account_call user_driver compare_hash generate checksum c a).1 in
        let before : IsSaved user_driver compare_hash generate checksum a = record {
          row = ap s.accounts t.same_id ∙ t.row;
          version = t.version;
        } in
        let saved = call-IsSaved user_driver compare_hash generate checksum c a d before in
        let own = call-IsOwn user_driver compare_hash generate checksum c a in
        let name = own.same_id ∙ t.same_id in
        rw e (record {
          users = λ i v k. elim (Bool-cases (str_eq i id)) [
            | inl hit ↦
                let is : b.user ≡ v = cc (sym (if_true (str_eq i id) _ _ hit) ∙ k) in
                let there : i ≡ id = (eq_iff i id).0 hit in
                rw (there, ← is)
                  (record {
                    same_id = name;
                    row = ap b.users (sym name) ∙ saved.row;
                    version = saved.version;
                  })
            | inr miss ↦
                let f = h.users i v (sym (if_false (str_eq i id) _ _ miss) ∙ k) in
                let other : str_eq i u.id ≡ false = rw t.same_id miss in
                record {
                  same_id = f.same_id;
                  row = own.others i other ∙ f.row;
                  version = f.version;
                }
          ];
          rooms = h.rooms;
        })
  ]

-- What a statement on a room's status leaves of the tables.
record IsStatusRow (id : String) (status : RoomStatus) (row : RoomRow) (db : Db)
    (r : Result (Unit {0}) × Db) : Type 0 where
  members : r.1.members ≡ db.members
  others : (i : String) → str_eq i id ≡ false → r.1.rooms i ≡ db.rooms i
  done : r.0 ≡ ok tt → r.1.rooms id ≡ some (record row { status = status })
  failed : (e : Error) → r.0 ≡ err e → r.1.rooms id ≡ db.rooms id

set_room_status-IsStatusRow :
    (driver : Driver) (db : Db) (id : String) (status : RoomStatus) (row : RoomRow)
    → db.rooms id ≡ some row
    → IsStatusRow id status row db (set_room_status driver db id status)
unfolding set_room_status synctv.Db.Room.update_room_row synctv.Db.handle_update_result
set_room_status-IsStatusRow driver db id status row h = record {
  members = ground arith;
  others = λ i other. ground arith;
  done = λ e. ground (arith, str_eq_refl id);
  failed = λ x e. ground arith;
}

module _ (driver : Driver) {Msg : Type 0} where
  record IsStatusStep (id : String) (w v : World Msg) : Type 0 where
    same_id : v.room.id ≡ w.room.id
    row : v.db.rooms id ≡ some (row_of v.room)
    members : v.db.members ≡ w.db.members
    others : (i : String) → str_eq i id ≡ false → v.db.rooms i ≡ w.db.rooms i

  status-IsStatusStep :
      (status : RoomStatus) (id : String) (w : World Msg)
      → w.room.id ≡ id
      → w.db.rooms id ≡ some (row_of w.room)
      → IsStatusStep id w (set_status driver status w).1
  unfolding set_status close_room
  status-IsStatusStep status id w name row =
      let statement = set_room_status driver w.db w.room.id status in
      let there : w.db.rooms w.room.id ≡ some (row_of w.room) = ap w.db.rooms name ∙ row in
      let k = set_room_status-IsStatusRow driver w.db w.room.id status (row_of w.room) there in
      let others = λ (i : String) (o : str_eq i id ≡ false). k.others i (rw name o) in
      elim (Result-cases statement.0) [
        | inr (x, e) ↦
            rw (e, set_status)
              (record {
                same_id = refl;
                row = ap statement.1.rooms (sym name) ∙ k.failed x e ∙ there;
                members = k.members;
                others = others;
              })
        | inl (x, e) ↦ elim (Bool-cases (shuts status)) [
          | inl b ↦
              rw (e, set_status, b)
                (record {
                  same_id = refl;
                  row = ap statement.1.rooms (sym name) ∙ k.done e;
                  members = k.members;
                  others = others;
                })
          | inr b ↦
              rw (e, set_status, b)
                (record {
                  same_id = refl;
                  row = ap statement.1.rooms (sym name) ∙ k.done e;
                  members = k.members;
                  others = others;
                })
        ]
      ]

  -- A change of a cached room's status.
  pub status-IsSound :
      (checksum : List ℕ → ℕ) (status : RoomStatus) (id : String) (r : Room Msg) (s : Site Msg)
      → IsSound checksum s
      → s.rooms id ≡ some r
      → let v = (set_status driver status (record { room = r; db = s.db })).1 in
        IsSound checksum
          (record s { rooms = λ i. if str_eq i id then some v.room else s.rooms i; db = v.db })
  status-IsSound checksum status id r s h e =
      let w : World Msg = record { room = r; db = s.db } in
      let t = h.rooms id r e in
      let k = status-IsStatusStep status id w t.same_id t.row in
      let v = (set_status driver status w).1 in
      let true_room : IsTrueRoom v.db id v.room = record {
        same_id = k.same_id ∙ t.same_id;
        row = k.row;
        coherent = set_status-IsCoherent driver status w t.coherent;
      } in
      changed-IsSound checksum id r s v h e true_room k.others
        (λ i other u. ap (λ f. f i u) k.members)
