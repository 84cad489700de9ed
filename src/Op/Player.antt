-- ===== src/Op/Player.antt =====
-- internal/op/current.go: what a room plays, and its copy in the database. Each method runs under
-- the lock and is one step here. A write of the copy that fails is only logged; whether it
-- succeeds is the argument `saves`.
pub mod Laws
use synctv.Base.{ℕ, String, Bool, false, Option, none, some, if◌then◌else◌}
use synctv.Model.Current.{
  Float, CurrentMovie, Status, Current, new_status, update_status, set_status, set_seek_rate,
  set_seek,
}
use synctv.Model.Current

pub record Player (F : Type 0) : Type 0 where
  pub room_id : String
  pub current : Current F
  -- the row of the room
  pub saved : Option (Current F)

module _ (float : Float) where
  unfoldable pub new_current : ℕ → String → Option (Current float.Carrier) → Player float.Carrier
  unfolding new_status
  new_current now room_id none = record {
    room_id = room_id;
    current = record {
      movie = record { id = ""; is_live = false; sub_path = "" };
      status = new_status float now;
    };
    saved = none;
  }
  new_current now room_id (some c) = record { room_id = room_id; current = c; saved = some c }

  -- The deferred `db.SetRoomCurrent`.
  abbrev pub save : Bool → Player float.Carrier → Player float.Carrier
  save saves p = if saves then record p { saved = some p.current } else p

  unfoldable pub read_current :
      ℕ → ℕ → Player float.Carrier → Current float.Carrier × Player float.Carrier
  unfolding update_status
  read_current since now p =
      let c = update_status float since now p.current in (c, record p { current = c })

  unfoldable pub current_movie : Player float.Carrier → CurrentMovie
  current_movie p = p.current.movie

  unfoldable pub set_movie :
      Bool → ℕ → CurrentMovie → Bool → Player float.Carrier → Player float.Carrier
  unfolding set_seek
  set_movie saves now movie play p =
      let sought : Current float.Carrier =
        set_seek float now float.f_zero float.f_zero (record p.current { movie = movie }) in
      save saves (record p {
        current = record sought { status = record sought.status { is_playing = play } };
      })

  unfoldable pub read_status :
      ℕ → ℕ → Player float.Carrier → Status float.Carrier × Player float.Carrier
  unfolding update_status
  read_status since now p =
      let c = update_status float since now p.current in (c.status, record p { current = c })

  unfoldable pub player_set_status :
      Bool
      → ℕ
      → Bool
      → float.Carrier
      → float.Carrier
      → float.Carrier
      → Player float.Carrier
      → Status float.Carrier × Player float.Carrier
  unfolding set_status
  player_set_status saves now playing seek rate time_diff p =
      let c = set_status float now playing seek rate time_diff p.current in
      (c.status, save saves (record p { current = c }))

  unfoldable pub player_set_seek_rate :
      Bool
      → ℕ
      → float.Carrier
      → float.Carrier
      → float.Carrier
      → Player float.Carrier
      → Status float.Carrier × Player float.Carrier
  unfolding set_seek_rate
  player_set_seek_rate saves now seek rate time_diff p =
      let c = set_seek_rate float now seek rate time_diff p.current in
      (c.status, save saves (record p { current = c }))
