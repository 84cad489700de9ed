-- ===== src/Op/Player/Laws.antt =====
-- What the status of a room is after any calls.
use synctv.Base.{ℕ, Bool, true, false, List, [], ◌∷◌, ◌≡◌, arith}
use synctv.Model.Current.{
  Float, CurrentMovie, Current, update_status, set_status, set_seek_rate, set_seek, set_live_status,
}
use synctv.Op.Player.{
  Player, read_current, read_status, set_movie, player_set_status, player_set_seek_rate,
}

-- The calls on a room's player that leave the movie.
pub data Call (F : Type 0) : Type 0 where
  reads reads_status : ℕ → ℕ → Call F
  sets_status : Bool → ℕ → Bool → F → F → F → Call F
  sets_seek_rate : Bool → ℕ → F → F → F → Call F

module _ (float : Float) where
  pub call : Call float.Carrier → Player float.Carrier → Player float.Carrier
  call (reads since now) p = (read_current float since now p).1
  call (reads_status since now) p = (read_status float since now p).1
  call (sets_status saves now playing seek rate diff) p =
      (player_set_status float saves now playing seek rate diff p).1
  call (sets_seek_rate saves now seek rate diff) p =
      (player_set_seek_rate float saves now seek rate diff p).1

  pub run : List (Call float.Carrier) → Player float.Carrier → Player float.Carrier
  run [] p = p
  run (c ∷ cs) p = run cs (call c p)

  -- A live broadcast stays at its start, at the normal rate.
  abbrev pub IsLive : CurrentMovie → Current float.Carrier → Type 0
  IsLive movie c =
      (c.movie ≡ movie)
      × (c.status.current_time ≡ float.f_zero)
      × (c.status.playback_rate ≡ float.f_one)

  call-IsLive :
      (movie : CurrentMovie) (c : Call float.Carrier) (p : Player float.Carrier)
      → movie.is_live ≡ true
      → IsLive movie p.current
      → IsLive movie (call c p).current
  unfolding call read_current read_status player_set_status player_set_seek_rate update_status
      set_status set_seek_rate set_live_status
  call-IsLive movie (reads since now) p l h = ground arith
  call-IsLive movie (reads_status since now) p l h = ground arith
  call-IsLive movie (sets_status saves now playing seek rate diff) p l h = ground arith
  call-IsLive movie (sets_seek_rate saves now seek rate diff) p l h = ground arith

  run-IsLive :
      (movie : CurrentMovie) (cs : List (Call float.Carrier)) (p : Player float.Carrier)
      → movie.is_live ≡ true
      → IsLive movie p.current
      → IsLive movie (run cs p).current
  unfolding run
  run-IsLive movie [] p l h = h
  run-IsLive movie (c ∷ cs) p l h = run-IsLive movie cs (call c p) l (call-IsLive movie c p l h)

  -- From the moment a live movie is set, and after any readings and changes of the status that
  -- follow, the movie is that one, at time zero and at the normal rate.
  pub set_movie-IsLive :
      (saves : Bool) (now : ℕ) (movie : CurrentMovie) (play : Bool) (p : Player float.Carrier)
      (cs : List (Call float.Carrier))
      → movie.is_live ≡ true
      → IsLive movie (run cs (set_movie float saves now movie play p)).current
  unfolding set_movie set_seek set_live_status
  set_movie-IsLive saves now movie play p cs l =
      run-IsLive movie cs (set_movie float saves now movie play p) l (ground arith)

  -- Readings only.
  pub read_all : List (ℕ × ℕ) → Player float.Carrier → Player float.Carrier
  read_all [] p = p
  read_all (t ∷ ts) p = read_all ts (read_current float t.0 t.1 p).1

  abbrev IsPaused : float.Carrier → float.Carrier → Current float.Carrier → Type 0
  IsPaused seek rate c =
      (c.movie.is_live ≡ false)
      × (c.status.is_playing ≡ false)
      × (c.status.current_time ≡ seek)
      × (c.status.playback_rate ≡ rate)

  read-IsPaused :
      (seek rate : float.Carrier) (since now : ℕ) (p : Player float.Carrier)
      → IsPaused seek rate p.current
      → IsPaused seek rate (read_current float since now p).1.current
  unfolding read_current update_status
  read-IsPaused seek rate since now p h = ground arith

  reads-IsPaused :
      (seek rate : float.Carrier) (ts : List (ℕ × ℕ)) (p : Player float.Carrier)
      → IsPaused seek rate p.current
      → IsPaused seek rate (read_all ts p).current
  unfolding read_all
  reads-IsPaused seek rate [] p h = h
  reads-IsPaused seek rate (t ∷ ts) p h =
      reads-IsPaused seek rate ts (read_current float t.0 t.1 p).1
        (read-IsPaused seek rate t.0 t.1 p h)

  -- After the status of a movie that is not live is set to paused, any readings leave it paused
  -- at the time and rate that were set.
  paused-read_all :
      (saves : Bool) (now : ℕ) (seek rate diff : float.Carrier) (ts : List (ℕ × ℕ))
      (p : Player float.Carrier)
      → p.current.movie.is_live ≡ false
      → let c =
          (read_all ts (player_set_status float saves now false seek rate diff p).1).current in
        (c.status.is_playing ≡ false)
        × (c.status.current_time ≡ seek)
        × (c.status.playback_rate ≡ rate)
  unfolding player_set_status set_status
  paused-read_all saves now seek rate diff ts p l =
      let (_, stopped, time, speed) =
        reads-IsPaused seek rate ts (player_set_status float saves now false seek rate diff p).1
          (ground arith) in
      (stopped, time, speed)

  -- Setting the time and rate is setting the status with the present answer to whether it plays.
  set_seek_rate-set_status :
      (saves : Bool) (now : ℕ) (seek rate diff : float.Carrier) (p : Player float.Carrier)
      → player_set_seek_rate float saves now seek rate diff p
        ≡ player_set_status float saves now p.current.status.is_playing seek rate diff p
  unfolding player_set_seek_rate player_set_status set_status set_seek_rate
  set_seek_rate-set_status saves now seek rate diff p = ground arith
