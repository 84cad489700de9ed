-- ===== src/Op/Room/Coherence/View.antt =====
-- Every call on a room keeps the cache of members coherent, and so a load gives what the table
-- holds, after any history.
use synctv.Base.{String, Bool, none, List, [], ℕ, ◌∷◌, ◌≡◌, arith, if◌then◌else◌, inl}
use synctv.Base.Result.{Result, ok, err, failure, wrapped}
use synctv.Model.Member.{RoomMember}
use synctv.Db.{Driver, select_member}
use synctv.Db.Member.{get_room_member}
use synctv.Op.Room.{World}
use synctv.Op.Room.Members.{amend, guest_refused, load_member, store_member}
use synctv.Op.Room.Coherence.Loads.{IsCoherent, load_member-IsCoherent}
use synctv.Op.Room.Coherence.Calls.{Call, call, run}
use synctv.Op.Room.Coherence.Kept.{IsKept, call_kept}
use synctv.Op.Room.Coherence.Creation.{load_or_create_member-IsCoherent}
use synctv.Op.Room.Coherence.Changes.{then_forget-IsCoherent, kick-IsCoherent}
use synctv.Op.Room.Coherence.Settings.{
  set_settings-IsCoherent, update_settings-IsCoherent, set_status-IsCoherent,
  set_password-IsCoherent,
}

module _ (driver : Driver) (enable_guest : Bool) (compare_hash : List ℕ → String → Bool)
    (generate : String → Result (List ℕ)) {Msg : Type 0} where
  coherence_kept : IsKept driver enable_guest compare_hash generate (IsCoherent {Msg = Msg})
  coherence_kept = record {
    load = load_member-IsCoherent driver enable_guest;
    create = load_or_create_member-IsCoherent driver enable_guest;
    kick = kick-IsCoherent;
    forget = then_forget-IsCoherent;
    settle = set_settings-IsCoherent driver;
    resettle = update_settings-IsCoherent driver;
    status = set_status-IsCoherent driver;
    password = set_password-IsCoherent driver compare_hash generate;
  }

  -- Any sequence of calls on a room whose cache of members agrees with the table leaves it so,
  -- also where the database fails statements: whoever is cached is as the row of the table makes
  -- him, with the room's creator, guest and administrators amended.
  pub run-IsCoherent :
      (cs : List Call) (w : World Msg)
      → IsCoherent w
      → IsCoherent (run driver enable_guest compare_hash generate cs w)
  unfolding run
  run-IsCoherent [] w h = h
  run-IsCoherent (c ∷ cs) w h =
      run-IsCoherent cs (call driver enable_guest compare_hash generate c w)
        (call_kept driver enable_guest compare_hash generate IsCoherent coherence_kept c w h)

module _ (driver : Driver) (enable_guest : Bool) {Msg : Type 0} where
  -- `LoadMember` without the cache.
  abbrev pub load_uncached : String → World Msg → Result RoomMember
  load_uncached u w =
      if guest_refused driver enable_guest w.room u
      then err (failure "guest is disabled")
      else elim (get_room_member driver w.db w.room.id u) [
        | err e ↦ err (wrapped "get room member failed: " e)
        | ok m ↦ ok (amend w.room u m)
      ]

  load_member-uncached :
      (u : String) (w : World Msg)
      → IsCoherent w
      → driver select_member ≡ none
      → (load_member driver enable_guest u w).0 ≡ load_uncached u w
  unfolding load_member store_member get_room_member
  load_member-uncached u w h d = ground (arith, h u)

-- After any calls on a room whose cache was empty, loading a member gives, while the database
-- answers queries, what reading the table without a cache gives.
pub run-load_member :
    (driver : Driver) (enable_guest : Bool) (compare_hash : List ℕ → String → Bool)
    (generate : String → Result (List ℕ)) {Msg : Type 0} (cs : List Call) (w : World Msg)
    (u : String)
    → ((v : String) → w.room.members v ≡ none)
    → driver select_member ≡ none
    → let after = run driver enable_guest compare_hash generate cs w in
      (load_member driver enable_guest u after).0 ≡ load_uncached driver enable_guest u after
run-load_member driver enable_guest compare_hash generate cs w u empty d =
    load_member-uncached driver enable_guest u (run driver enable_guest compare_hash generate cs w)
      (run-IsCoherent driver enable_guest compare_hash generate cs w (λ v. inl (empty v))) d
