-- ===== src/Playlist.antt =====
-- playlist/playlist.go: playlists as files of a folder. The file system is a list of folders, each as
-- the names on the way to it, and a list of files by their absolute path. A walk meets the files in
-- the order of the list, a file is read as it stands on the disk, and only the failures are modelled
-- that come from what is there. Which characters past ASCII can be printed is a parameter of Quote.
pub mod Attrs
pub mod Reading
pub mod Layout
pub mod RoundTrip
pub mod Stored
pub mod Created
pub mod Streams
pub mod Owners
pub mod Removal
pub mod Others
pub mod NewPath
pub mod Effects
pub mod Handlers
mod Tests
use gonic.Base.{
  ℕ, Bool, true, false, not, ◌&&◌, ◌||◌, List, [], ◌∷◌, ◌++◌, map, Option, none, some, Result, ok,
  err, ◌>>=◌, Str, codes, str_eq, has_prefix, trim_prefix, trim_space, cut, ℤ, pos, atoi, itoa,
  keep, any, lookup, insert, str_key, ◌==◌, if◌then◌else◌,
}
use gonic.FilePath.{
  slash, split_on, is_abs, join, ext, dir, base_name, trim_suffix, elements, rel, render,
  starts_with,
}
use gonic.Fileutil
use gonic.Fileutil.{safe_join, safe}
use gonic.Lines.{newline, scan, print_lines}
use gonic.Quote.{quote, unquote}
use gonic.Params.Bools.{parse_bool}

pub data Error : Type 0 where
  invalid_base_path no_user_prefix no_base_dir escapes_base not_found is_directory mkdir_failed :
      Error

-- Times are milliseconds since 1970.
pub record Playlist : Type 0 where
  pub updated_at : ℕ
  pub user_id : ℤ
  pub name : Str
  pub comment : Str
  pub items : List Str
  pub is_public : Bool

pub record File : Type 0 where
  pub text : Str
  pub mod_time : ℕ

pub record Disk : Type 0 where
  pub folders : List (List Str)
  pub files : List (Str × File)

abbrev pub path_eq : List Str → List Str → Bool
path_eq ps qs = str_eq (render true ps) (render true qs)

abbrev head_or_empty : List Str → Str
head_or_empty [] = []
head_or_empty (p ∷ ps) = p

-- `firstPathEl`
unfoldable pub first_path_el : Str → Str
first_path_el path = head_or_empty (split_on slash (trim_prefix path (slash ∷ [])))

-- `userIDFromPath`
unfoldable pub user_id_from_path : Str → Option ℤ
unfolding first_path_el
user_id_from_path rel_path = atoi (first_path_el rel_path)

-- The name of a folder that stands in `base` itself.
unfoldable pub entry_of : List Str → List Str → Option Str
entry_of [] [] = none
entry_of [] (n ∷ []) = some n
entry_of [] (n ∷ m ∷ ns) = none
entry_of (b ∷ bs) [] = none
entry_of (b ∷ bs) (n ∷ ns) = let e = entry_of bs ns in if str_eq b n then e else none

abbrev is_user_id : Option ℤ → Bool
is_user_id none = false
is_user_id (some i) = true

abbrev pub is_user_entry : Option Str → Bool
is_user_entry none = true
is_user_entry (some name) = is_user_id (user_id_from_path name)

-- `sanityCheck`: the folders of the base folder are all named by a user id.
unfoldable pub sanity_check : Str → Disk → Result Error (Unit {0})
unfolding entry_of user_id_from_path
sanity_check base disk =
    if not (any (path_eq (elements base)) disk.folders)
    then err no_base_dir
    else if any (λ f. not (is_user_entry (entry_of (elements base) f))) disk.folders
    then err no_user_prefix
    else ok tt

abbrev pub attr_prefix : Str
attr_prefix = codes "#GONIC-"

abbrev pub attr_name : Str
attr_name = codes "NAME"

abbrev pub attr_comment : Str
attr_comment = codes "COMMENT"

abbrev pub attr_is_public : Str
attr_is_public = codes "IS-PUBLIC"

-- `encodeAttr`
unfoldable pub encode_attr : (ℕ → Bool) → Str → Str → Str
unfolding quote
encode_attr printable name value = attr_prefix ++ (name ++ b':' ∷ quote printable value)

abbrev pub or_empty : Option Str → Str
or_empty none = []
or_empty (some s) = s

abbrev cut_or_whole : Str → Option (Str × Str) → Str × Str
cut_or_whole line none = (line, [])
cut_or_whole line (some (before, behind)) = (before, behind)

-- `decodeAttr`
unfoldable pub decode_attr : Str → Str × Str
unfolding unquote
decode_attr line =
    let (prefix_and_name, raw_value) = cut_or_whole line (cut line b':') in
    if has_prefix line attr_prefix
    then (trim_prefix prefix_and_name attr_prefix, or_empty (unquote raw_value))
    else ([], [])

-- The switch of `Read` over the attributes.
unfoldable pub set_attr : Str × Str → Playlist → Playlist
set_attr (name, value) playlist =
    if str_eq name attr_name
    then record playlist { name = value }
    else if str_eq name attr_comment
    then record playlist { comment = value }
    else if str_eq name attr_is_public
    then record playlist { is_public = (parse_bool value).0 }
    else playlist

-- The end of the loop of `Read`; `folder` is that of the file.
unfoldable pub add_item : Str → Str → Playlist → Playlist
add_item folder line playlist = if has_prefix line (b'#' ∷ []) then playlist else record playlist {
  items = playlist.items ++ (if is_abs line then line else join folder line) ∷ [];
}

unfoldable pub read_line : Str → Playlist → Str → Playlist
unfolding set_attr add_item decode_attr
read_line folder playlist text =
    let line = trim_space text in
    if str_eq line [] then playlist else add_item folder line (set_attr (decode_attr line) playlist)

-- The loop of `Read` over the lines.
unfoldable pub read_lines : Str → Playlist → List Str → Playlist
unfolding read_line
read_lines folder playlist [] = playlist
read_lines folder playlist (l ∷ ls) = read_lines folder (read_line folder playlist l) ls

abbrev or_first_user : Option ℤ → ℤ
or_first_user none = pos 1
or_first_user (some i) = i

-- What `Read` knows of a playlist before it reads the lines.
unfoldable pub unread : Str → ℕ → Playlist
unfolding user_id_from_path
unread clean_rel mod_time = record {
  updated_at = mod_time;
  user_id = or_first_user (user_id_from_path clean_rel);
  name = trim_suffix (base_name clean_rel) (ext clean_rel);
  comment = [];
  items = [];
  is_public = false;
}

abbrev pub escaping : Result Fileutil.Error Str → Result Error Str
escaping (ok path) = ok path
escaping (err e) = err escapes_base

abbrev pub safe_path : Str → Str → Result Error Str
safe_path base rel_path = escaping (safe_join base rel_path)

abbrev pub is_folder : Str → Disk → Bool
is_folder path disk = any (λ f. str_eq (render true f) path) disk.folders

abbrev stat_of : Option File → Bool → Result Error File
stat_of (some f) folder = ok f
stat_of none folder = if folder then err is_directory else err not_found

abbrev pub stat : Str → Disk → Result Error File
stat path disk = stat_of (lookup path disk.files) (is_folder path disk)

-- `Store.Read`
unfoldable pub read : Str → Str → Disk → Result Error Playlist
read base rel_path disk = do
  sane ← sanity_check base disk
  abs ← safe_path base rel_path
  file ← stat abs disk
  ok (read_lines (dir abs) (unread (or_empty (rel base abs)) file.mod_time) (scan file.text))

-- A folder and all those above it.
unfoldable pub folders_above : List Str → List (List Str)
folders_above [] = [] ∷ []
folders_above (n ∷ ns) = [] ∷ map (λ f. n ∷ f) (folders_above ns)

abbrev is_some : Option File → Bool
is_some none = false
is_some (some f) = true

abbrev pub is_file : Disk → List Str → Bool
is_file disk f = is_some (lookup (render true f) disk.files)

-- os.MkdirAll fails where a file stands in the way.
abbrev pub mkdir_all : Str → Disk → Result Error Disk
mkdir_all path disk =
    let above = folders_above (elements path) in
    if any (is_file disk) above
    then err mkdir_failed
    else ok (record disk { folders = above ++ disk.folders })

-- The comments of a file but for the attributes.
unfoldable pub is_comment : Str → Bool
is_comment text =
    let line = trim_space text in not (has_prefix line attr_prefix) && has_prefix line (b'#' ∷ [])

-- An item as `Write` puts it down: relative to the folder of the file if it can be.
unfoldable pub item_line : Str → Str → Str
item_line folder item = elim (rel folder item) [ some r ↦ r | none ↦ item ]

abbrev pub bool_text : Bool → Str
bool_text true = codes "true"
bool_text false = codes "false"

abbrev pub attr_lines : (ℕ → Bool) → Playlist → List Str
attr_lines printable playlist =
    encode_attr printable attr_name playlist.name
    ∷ encode_attr printable attr_comment playlist.comment
    ∷ encode_attr printable attr_is_public (bool_text playlist.is_public)
    ∷ []

abbrev text_or_empty : Option File → Str
text_or_empty none = []
text_or_empty (some f) = f.text

abbrev pub text_at : Str → Disk → Str
text_at path disk = text_or_empty (lookup path disk.files)

abbrev pub open_file : Str → Disk → Result Error Str
open_file path disk = if is_folder path disk then err is_directory else ok (text_at path disk)

-- The lines that `Write` puts into a file in whose place `old` stood.
unfoldable pub written_lines : (ℕ → Bool) → Str → Str → Playlist → List Str
unfolding is_comment item_line encode_attr
written_lines printable folder old playlist =
    keep is_comment (scan old)
    ++ (attr_lines printable playlist ++ map (item_line folder) playlist.items)

-- `Store.Write` at the time `now`. It sets the time of the file to that of the playlist and then
-- writes to the file, which sets it again.
unfoldable pub write : (ℕ → Bool) → Str → ℕ → Str → Playlist → Disk → Result Error Disk
write printable base now rel_path playlist disk = do
  sane ← sanity_check base disk
  abs ← safe_path base rel_path
  made ← mkdir_all (dir abs) disk
  old ← open_file abs made
  let new : File = record {
    text = print_lines (written_lines printable (dir abs) old playlist);
    mod_time = now;
  }
  ok (record made { files = insert abs new made.files })

-- os.Remove of a file.
abbrev pub remove : Str → Disk → Result Error Disk
remove path disk = do
  file ← stat path disk
  ok (record disk { files = keep (λ f. not (str_eq f.0 path)) disk.files })

-- `Store.Delete`, of a file; an empty folder is not removed here.
unfoldable pub delete : Str → Str → Disk → Result Error Disk
delete base rel_path disk = do
  sane ← sanity_check base disk
  abs ← safe_path base rel_path
  remove abs disk

abbrev is_m3u : Str → Bool
is_m3u path = str_eq (ext path) (codes ".m3u") || str_eq (ext path) (codes ".m3u8")

-- `Store.List`
unfoldable pub list : Str → Disk → Result Error (List Str)
list base disk = do
  sane ← sanity_check base disk
  let found = keep (λ f. starts_with (elements f.0) (elements base) && is_m3u f.0) disk.files
  ok (map (λ f. or_empty (rel base f.0)) found)

abbrev some_base : Str → Result Error (Unit {0})
some_base base = if str_eq base [] then err invalid_base_path else ok tt

-- `NewStore` keeps the base path.
unfoldable pub new_store : Str → Disk → Result Error Str
new_store base disk = do given ← some_base base; sane ← sanity_check base disk; ok base

abbrev pub or_pl : Str → Str
or_pl name = if str_eq name [] then codes "pl" else name

abbrev pub dated_path : ℕ → ℤ → Option Str → Option Str
dated_path now user_id none = none
dated_path now user_id (some name) =
    some (join (itoa user_id) (or_pl name ++ b'-' ∷ (itoa (pos now) ++ codes ".m3u")))

-- `NewPath` at a time in milliseconds; `none` is the panic of `Safe`.
unfoldable pub new_path : ℕ → ℤ → Str → Option Str
new_path now user_id playlist_name = dated_path now user_id (safe playlist_name)
