-- ===== src/Model/Current.antt =====
-- internal/model/current.go: what a room plays, and where it is. `float64` is a parameter: its
-- arithmetic is not that of the rationals. Times are nanoseconds of the monotonic clock, and each
-- reading of the clock is an argument.
use synctv.Base.{ℕ, ◌-◌, String, Bool, true, false, if◌then◌else◌}

-- The constants and operations of `float64` that the code uses; `seconds` is `Duration.Seconds`.
pub record Float : Type 1 where
  pub Carrier : Type 0
  pub f_zero : Carrier
  pub f_one : Carrier
  pub add : Carrier → Carrier → Carrier
  pub mul : Carrier → Carrier → Carrier
  pub seconds : ℕ → Carrier

pub record CurrentMovie : Type 0 where
  pub id : String
  pub is_live : Bool
  pub sub_path : String

pub record Status (F : Type 0) : Type 0 where
  pub last_update : ℕ
  pub current_time : F
  pub playback_rate : F
  pub is_playing : Bool

pub record Current (F : Type 0) : Type 0 where
  pub movie : CurrentMovie
  pub status : Status F

module _ (float : Float) where
  unfoldable pub new_status : ℕ → Status float.Carrier
  new_status now = record {
    current_time = float.f_zero;
    playback_rate = float.f_one;
    last_update = now;
    is_playing = false;
  }

  -- The clock is read by `Since` and, later, by `Now`.
  unfoldable pub update_status : ℕ → ℕ → Current float.Carrier → Current float.Carrier
  update_status since now c =
      if c.movie.is_live
      then record c { status = record c.status { last_update = now } }
      else if c.status.is_playing
      then record c {
        status = record c.status {
          current_time =
              float.add c.status.current_time
                (float.mul (float.seconds (since - c.status.last_update)) c.status.playback_rate);
          last_update = now;
        };
      }
      else record c { status = record c.status { last_update = now } }

  unfoldable pub set_live_status : ℕ → Current float.Carrier → Current float.Carrier
  set_live_status now c = record c {
    status = record {
      is_playing = true;
      playback_rate = float.f_one;
      current_time = float.f_zero;
      last_update = now;
    };
  }

  unfoldable pub set_status :
      ℕ
      → Bool
      → float.Carrier
      → float.Carrier
      → float.Carrier
      → Current float.Carrier
      → Current float.Carrier
  unfolding set_live_status
  set_status now playing seek rate time_diff c =
      if c.movie.is_live then set_live_status now c else record c {
        status = record {
          is_playing = playing;
          playback_rate = rate;
          current_time = if playing then float.add seek (float.mul time_diff rate) else seek;
          last_update = now;
        };
      }

  unfoldable pub set_seek_rate :
      ℕ
      → float.Carrier
      → float.Carrier
      → float.Carrier
      → Current float.Carrier
      → Current float.Carrier
  unfolding set_live_status
  set_seek_rate now seek rate time_diff c =
      if c.movie.is_live then set_live_status now c else record c {
        status = record c.status {
          current_time =
              if c.status.is_playing then float.add seek (float.mul time_diff rate) else seek;
          playback_rate = rate;
          last_update = now;
        };
      }

  unfoldable pub set_seek :
      ℕ → float.Carrier → float.Carrier → Current float.Carrier → Current float.Carrier
  unfolding set_live_status
  set_seek now seek time_diff c = if c.movie.is_live then set_live_status now c else record c {
    status = record c.status {
      current_time =
          if c.status.is_playing
          then float.add seek (float.mul time_diff c.status.playback_rate)
          else seek;
      last_update = now;
    };
  }
