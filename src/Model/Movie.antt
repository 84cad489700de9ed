-- ===== src/Model/Movie.antt =====
-- internal/model/movie.go: an entry of a room's list. The headers, subtitles, further sources and
-- danmaku addresses, and the payloads of the vendors, are only stored and sent, and are left out.
use synctv.Base.{ℕ, String, Bool, ◌&&◌, not, str_eq}

pub record MovieBase : Type 0 where
  pub vendor : String
  pub url : String
  pub name : String
  -- `EmptyNullString`: "" is the NULL of the table, the root of the list
  pub parent_id : String
  pub live : Bool
  pub proxy : Bool
  pub rtmp_source : Bool
  pub is_folder : Bool

pub record Movie : Type 0 where
  pub id : String
  pub room_id : String
  pub creator_id : String
  pub base : MovieBase
  pub open base use *
  pub position : ℕ

unfoldable pub is_dynamic_folder : MovieBase → Bool
is_dynamic_folder m = m.is_folder && not (str_eq m.vendor "")
