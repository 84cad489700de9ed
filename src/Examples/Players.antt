-- ===== src/Examples/Players.antt =====
-- The theorems on a player, with whole numbers for `float64`.
use synctv.Base.{ℕ, ◌+◌, ◌*◌, true, false, List, [], ◌∷◌, none, refl}
use synctv.Model.Current.{Float, CurrentMovie}
use synctv.Op.Player.{Player, new_current, set_movie}
use synctv.Op.Player.Laws.{Call, reads, reads_status, sets_status, run, IsLive, set_movie-IsLive}

abbrev whole : Float
whole = record {
  Carrier = ℕ;
  f_zero = 0;
  f_one = 1;
  add = λ a b. a + b;
  mul = λ a b. a * b;
  seconds = λ t. t;
}

abbrev player : Player ℕ
unfolding new_current
player = new_current whole 10 "room" none

abbrev broadcast : CurrentMovie
broadcast = record { id = "tv"; is_live = true; sub_path = "" }

abbrev calls : List (Call ℕ)
calls = reads 20 21 ∷ sets_status true 30 false 7 2 1 ∷ reads_status 40 41 ∷ []

set_movie-IsLive_example :
    IsLive whole broadcast (run whole calls (set_movie whole true 15 broadcast true player)).current
set_movie-IsLive_example = set_movie-IsLive whole true 15 broadcast true player calls refl
