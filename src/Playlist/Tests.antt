-- ===== src/Playlist/Tests.antt =====
-- Runs of playlist.go and handlers_playlist.go, and their theorems at concrete playlists.
use gonic.Base.{
  ℕ, ◌≡◌, ◌≢◌, refl, true, false, Bool, [], ◌∷◌, none, Option, arith, ok, err, Str, codes, str_eq,
  has_prefix, trim_prefix, trim_space, trim_left, trim_right, cut, atoi, read_digits, pos, int_eq,
  lookup, str_key, All,
}
use gonic.FilePath.{
  split_on, separated, resolve, clean, join, ext, ext_step, up_to_slash, rel, rel_elements,
  base_name, after_slash, drop_slashes, trim_suffix, IsName, absolute,
}
use gonic.Fileutil.{safe_join, within}
use gonic.Lines.{scan, scan_lines, raw_lines, drop_cr, byte_length}
use gonic.Quote.{quote, quote_chars, quote_char, unquote}
use gonic.Playlist.{
  Playlist, File, Disk, first_path_el, user_id_from_path, entry_of, sanity_check, encode_attr,
  decode_attr, set_attr, add_item, read_line, read_lines, unread, read, folders_above, item_line,
  write, delete,
}
use gonic.Playlist.Reading.{Plain}
use gonic.Db.{User}
use gonic.Specid.{SpecId, new}
use gonic.Params.{Params, parse, get_first}
use gonic.Params.Ids
use gonic.Playlist.Effects.{owner_at}
use gonic.Playlist.Others.{serve-elsewhere}
use gonic.Playlist.Removal.{remove_items-without, remove_items-panic, without}
use gonic.Playlist.Handlers.{
  panic, remove_items, remove_each, remove_nth, sort_downward, insert_downward, serve, serve_delete,
  deleting,
}
use gonic.Playlist.Streams.{read_line-relative}
use gonic.Playlist.RoundTrip.{Storable, IsFilePath}
use gonic.Playlist.Stored.{Place, read-write, Free}

abbrev ascii : ℕ → Bool
ascii c = false

name : {p : Str} → p ≢ [] → p ≢ codes "." → p ≢ codes ".." → All (λ c. c ≢ b'/') p → IsName p
name a b c d = record { some_text = a; not_dot = b; not_dot_dot = c; one_part = d }

lists-IsName : All IsName (codes "pls" ∷ [])
lists-IsName = (name (λ e. cc) (λ e. cc) (λ e. cc) (omega arith), tt)

place : Place (codes "pls") [] (codes "1") [] (codes "a.m3u")
place = record {
  base_names = lists-IsName;
  names = (
    name (λ e. cc) (λ e. cc) (λ e. cc) (omega arith),
    (name (λ e. cc) (λ e. cc) (λ e. cc) (omega arith), tt),
  );
}

abbrev disk : Disk
disk = record { folders = (codes "pls" ∷ []) ∷ []; files = [] }

abbrev song : Str
song = codes "/music/x.mp3"

abbrev road : Playlist
road = record {
  updated_at = 5;
  user_id = pos 7;
  name = codes "road";
  comment = codes "hm";
  items = song ∷ [];
  is_public = true;
}

song-Plain : Plain (codes "../../music/x.mp3")
song-Plain = record {
  some_text = λ e. cc e;
  no_space = (unfold trim_space trim_left trim_right in refl);
  no_comment = (unfold has_prefix in refl);
}

song-line : item_line (codes "/pls/1") song ≡ codes "../../music/x.mp3"
unfolding item_line rel rel_elements clean split_on resolve str_eq separated
song-line = refl

song-IsFilePath : IsFilePath (codes "/pls/1") song
song-IsFilePath = record {
  first = codes "music";
  rest = codes "x.mp3" ∷ [];
  names = (
    name (λ e. cc) (λ e. cc) (λ e. cc) (omega arith),
    (name (λ e. cc) (λ e. cc) (λ e. cc) (omega arith), tt),
  );
  path = (unfold separated in refl);
  plain = rw song-line song-Plain;
  fits = rw song-line (record { one_line = omega arith; short = (unfold byte_length in refl) });
}

road-Storable : Storable ascii (codes "/pls/1") road
unfolding byte_length encode_attr quote quote_chars quote_char
road-Storable = record {
  name_valid = (refl, (refl, (refl, (refl, tt))));
  comment_valid = (refl, (refl, tt));
  name_short = refl;
  comment_short = refl;
  paths = (song-IsFilePath, tt);
}

road_sane : sanity_check (absolute (codes "pls") []) disk ≡ ok tt
unfolding sanity_check separated str_eq entry_of split_on
road_sane = refl

road_place :
    safe_join (absolute (codes "pls") []) (codes "1/a.m3u")
    ≡ ok (absolute (codes "pls") (codes "1" ∷ codes "a.m3u" ∷ []))
unfolding safe_join within clean join separated str_eq has_prefix split_on resolve
road_place = refl

road_free :
    Free (codes "pls") [] (codes "1") [] (codes "a.m3u") place ascii 9 (codes "1/a.m3u") road disk
unfolding separated folders_above lookup str_eq split_on
road_free = (refl, refl)

read-write_example :
    (after : Disk) × (write ascii (codes "/pls") 9 (codes "1/a.m3u") road disk ≡ ok after)
    × (read (codes "/pls") (codes "1/a.m3u") after
        ≡ ok (record road { updated_at = 9; user_id = pos 1 }))
unfolding separated
read-write_example =
    read-write (codes "pls") [] (codes "1") [] (codes "a.m3u") place ascii 9 (codes "1/a.m3u") road
      disk (pos 1) (unfold atoi read_digits in refl) road_sane road_place road_free
      (unfold separated in road-Storable)

abbrev stream : Str
stream = codes "http://r.org/x"

stream-Plain : Plain stream
stream-Plain = record {
  some_text = λ e. cc e;
  no_space = (unfold trim_space trim_left trim_right in refl);
  no_comment = (unfold has_prefix in refl);
}

read_line-relative_example :
    (read_line (codes "/pls") road (item_line (codes "/pls") stream)
      ≡ record road { items = song ∷ codes "/pls/http:/r.org/x" ∷ [] })
    × (codes "/pls/http:/r.org/x" ≢ stream)
unfolding separated join clean split_on resolve str_eq
read_line-relative_example =
    read_line-relative (codes "pls") [] lists-IsName stream refl road stream-Plain

remove_items-without_example :
    remove_items (pos 0 ∷ pos 2 ∷ [], none) (codes "a" ∷ codes "b" ∷ codes "c" ∷ [])
    ≡ ok (codes "b" ∷ [])
unfolding without int_eq
remove_items-without_example =
    remove_items-without (pos 0 ∷ pos 2 ∷ []) (codes "a" ∷ codes "b" ∷ codes "c" ∷ []) (omega arith)
      (((λ e. ground arith), tt), (tt, tt))

remove_items-panic_example : remove_items (pos 0 ∷ pos 1 ∷ [], none) (codes "a" ∷ []) ≡ err panic
remove_items-panic_example = remove_items-panic (pos 0 ∷ pos 1 ∷ []) (codes "a" ∷ []) refl

-- An index that is given twice removes the item behind it too.
remove_twice :
    remove_items (pos 0 ∷ pos 0 ∷ [], none) (codes "a" ∷ codes "b" ∷ codes "c" ∷ [])
    ≡ ok (codes "c" ∷ [])
unfolding remove_items remove_each remove_nth sort_downward insert_downward
remove_twice = refl

abbrev user_one : User
user_one = record { id = pos 1; name = codes "alice"; password = codes "pw"; is_admin = false }

abbrev road_file : File
road_file = record { text = codes "/music/x.mp3"; mod_time = 3 }

abbrev two_files : Disk
two_files = record {
  folders =
      (codes "pls" ∷ []) ∷ (codes "pls" ∷ codes "1" ∷ []) ∷ (codes "pls" ∷ codes "2" ∷ []) ∷ [];
  files = (codes "/pls/1/a.m3u", road_file) ∷ (codes "/pls/2/b.m3u", road_file) ∷ [];
}

abbrev one_file : Disk
one_file = record two_files { files = (codes "/pls/2/b.m3u", road_file) ∷ [] }

abbrev removal : Params
removal = (codes "id", codes "pl-1/a.m3u" ∷ []) ∷ []

abbrev plain_text : Str → Str
plain_text s = s

abbrev nowhere : SpecId → Option Str
nowhere id = none

removal_run :
    serve plain_text plain_text nowhere ascii
      (absolute (codes "pls") [])
      9
      user_one
      (deleting removal)
      two_files
    ≡ ok one_file
unfolding serve serve_delete delete read sanity_check separated str_eq entry_of split_on safe_join
    within clean join resolve has_prefix lookup read_lines read_line set_attr add_item decode_attr
    cut trim_prefix trim_space trim_left trim_right unread user_id_from_path first_path_el rel
    rel_elements atoi read_digits scan scan_lines raw_lines byte_length drop_cr base_name
    after_slash up_to_slash drop_slashes trim_suffix ext ext_step Ids.get_first Ids.parse_id parse
    get_first new int_eq unquote
removal_run = refl

owner_two : owner_at (absolute (codes "pls") []) (codes "/pls/2/b.m3u") ≡ pos 2
unfolding owner_at unread rel rel_elements separated clean split_on resolve str_eq user_id_from_path
    first_path_el trim_prefix has_prefix atoi read_digits
owner_two = refl

serve-elsewhere_example :
    lookup (codes "/pls/2/b.m3u") one_file.files ≡ lookup (codes "/pls/2/b.m3u") two_files.files
serve-elsewhere_example =
    serve-elsewhere (codes "pls") [] lists-IsName user_one 1 refl refl (codes "/pls/2/b.m3u")
      (rw owner_two (λ e. ground arith)) (rw owner_two (λ e. ground arith)) plain_text plain_text
      nowhere ascii 9 (deleting removal) two_files one_file removal_run
