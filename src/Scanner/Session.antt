-- ===== src/Scanner/Session.antt =====
-- scanner/scanner.go: what a scan reads from its settings and from outside, what it keeps in `State`,
-- and its steps, which change the state and the tables and may fail. What was written before a
-- failure stays written, unless a transaction takes it back. A query succeeds.
use gonic.Base.{ℕ, zero, Bool, List, [], ◌∷◌, Option, none, some, Result, ok, err, Str, ℤ}
use gonic.Tags.{MultiValueSetting}
use gonic.Scanner.Tables.{Tables}

-- The settings of `Scanner`; a multi value setting is looked up by the tag that it is for.
pub record Settings : Type 0 where
  pub music_dirs : List Str
  pub genre_setting : Option MultiValueSetting
  pub artist_setting : Option MultiValueSetting
  pub album_artist_setting : Option MultiValueSetting
  pub isrc_setting : Option MultiValueSetting
  pub scan_embedded_cover : Bool
  -- `genreTree`, in the order in which the map is run through
  pub genre_tree : List (Str × List Str)

-- An entry of a folder, by its name.
pub record Item : Type 0 where
  pub name : Str
  pub is_dir : Bool

-- The tags of a file: normtag.Values and normtag.Get, by the name of the key's constant.
pub record FileTags : Type 0 where
  pub values : Str → List Str
  pub get : Str → Str

pub record Properties : Type 0 where
  pub length : ℤ
  pub bitrate : ℤ
  pub has_cover : Bool

pub record FileTimes : Type 0 where
  pub mod_time : ℕ
  pub birth_time : Option ℕ

-- What the code takes from elsewhere: the file system, the tag reader, the pattern that excludes
-- paths, the names of covers, and the conversions of texts. `none` is an error.
pub record World : Type 0 where
  pub read_dir : Str → Option (List Item)
  pub times : Str → Option FileTimes
  pub file_size : Str → Option ℤ
  pub is_excluded : Str → Bool
  pub can_read : Str → Bool
  pub read_tags : Str → Option (Properties × FileTags)
  pub is_cover : Str → Bool
  pub best_between : Str → Str → Str
  pub unidecode : Str → Str
  pub to_lower : Str → Str
  pub parse_float : Str → ℕ
  pub parse_int : Str → ℤ
  pub parse_bool : Str → Bool
  -- ParseDate: whether it gives the zero time, and the year
  pub is_zero_date : Str → Bool
  pub year : Str → ℤ

pub data ScanError : Type 0 where
  folder_unreadable : ScanError
  no_times : Str → ScanError
  tags_unreadable : Str → ScanError
  no_size : Str → ScanError
  -- an error that filepath.WalkDir passes to its callback
  walk_failed : Str → ScanError

-- The fields of `State` that a walk writes; the maps are lists of their keys.
pub record State : Type 0 where
  pub errs : List ScanError
  pub is_full : Bool
  pub seen_tracks : List ℤ
  pub seen_albums : List ℤ
  pub seen_tracks_new : ℕ

abbrev pub fresh_state : Bool → State
fresh_state is_full = record {
  errs = [];
  is_full = is_full;
  seen_tracks = [];
  seen_albums = [];
  seen_tracks_new = zero;
}

pub record Session : Type 0 where
  pub tables : Tables
  pub state : State

abbrev pub Scan : Type 0 → Type 0
Scan A = Session → Result ScanError A × Session

module _ {A : Type 0} where
  unfoldable pub pure : A → Scan A
  pure a s = (ok a, s)

  -- A value that may not be there.
  unfoldable pub require : ScanError → Option A → Scan A
  require e none s = (err e, s)
  require e (some a) s = (ok a, s)

  -- Queries that change the tables and give something.
  unfoldable pub query : (Tables → A × Tables) → Scan A
  query f s = let (a, t) = f s.tables in (ok a, record s { tables = t })

unfoldable pub write : (Tables → Tables) → Scan (Unit {0})
write f s = (ok tt, record s { tables = f s.tables })

unfoldable pub note : (State → State) → Scan (Unit {0})
note f s = (ok tt, record s { state = f s.state })

abbrev pub see_album : ℤ → State → State
see_album i st = record st { seen_albums = i ∷ st.seen_albums }

abbrev pub see_track : ℤ → State → State
see_track i st = record st { seen_tracks = i ∷ st.seen_tracks }

module _ {A B : Type 0} where
  abbrev pub continue : (A → Scan B) → Result ScanError A × Session → Result ScanError B × Session
  continue f (ok a, s) = f a s
  continue f (err e, s) = (err e, s)

  infixl 5 ◌>>=◌ ◌>>◌
  unfoldable pub ◌>>=◌ : Scan A → (A → Scan B) → Scan B
  ◌>>=◌ m f s = continue f (m s)

  abbrev pub ◌>>◌ : Scan A → Scan B → Scan B
  m >> n = m >>= λ _. n

module _ {A B : Type 0} where
  -- A loop over a list, with what each round gives.
  unfoldable pub for_each : (A → Scan B) → List A → Scan (List B)
  for_each f [] = pure []
  for_each f (a ∷ rest) = do b ← f a; bs ← for_each f rest; pure (b ∷ bs)

unfoldable pub rolled_back :
    {A : Type 0} → Session → Result ScanError A × Session → Result ScanError A × Session
rolled_back before (ok a, s) = (ok a, s)
rolled_back before (err e, s) = (err e, record s { tables = before.tables })

-- `Transaction`: an error takes back what was written to the tables, and nothing else.
unfoldable pub transaction : {A : Type 0} → Scan A → Scan A
unfolding rolled_back
transaction m s = rolled_back s (m s)
