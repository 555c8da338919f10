-- ===== src/Playlist/Created/Tests.antt =====
-- A run of the creation of a playlist, with the theorem about it.
use gonic.Base.{
  ℕ, ◌≡◌, ◌≢◌, refl, Bool, false, [], ◌∷◌, ◌++◌, none, some, Option, ok, arith, Str, codes, str_eq,
  has_prefix, trim_space, trim_left, trim_right, cut, atoi, read_digits, itoa, format_ℕ, pos,
  lookup, str_key, All,
}
use gonic.FilePath.{
  slash, split_on, separated, resolve, clean, join, ext, ext_step, rel, rel_elements, IsName,
  absolute,
}
use gonic.Fileutil.{safe}
use gonic.Lines.{byte_length}
use gonic.Quote.{quote, quote_chars, quote_char}
use gonic.Specid
use gonic.Specid.{SpecId, zero_id, new}
use gonic.Params.{Params, no_values, get, get_first, parse, parse_list, parse_all}
use gonic.Params.Ids
use gonic.Params.Texts
use gonic.Db.{User}
use gonic.Playlist.{
  Disk, read, sanity_check, entry_of, folders_above, new_path, item_line, encode_attr,
}
use gonic.Playlist.Reading.{Plain}
use gonic.Playlist.RoundTrip.{Storable, IsFilePath}
use gonic.Playlist.NewPath.{itoa-IsName}
use gonic.Playlist.Stored.{Place, Free}
use gonic.Playlist.Handlers.{id_keys, located, serve_create}
use gonic.Playlist.Created.{requested, create-read}

abbrev ascii : ℕ → Bool
ascii c = false

abbrev plain_text : Str → Str
plain_text s = s

abbrev song : Str
song = codes "/music/x.mp3"

abbrev song_at : SpecId → Option Str
song_at id = some song

abbrev user : User
user = record { id = pos 1; name = codes "alice"; password = codes "pw"; is_admin = false }

abbrev disk : Disk
disk = record { folders = (codes "pls" ∷ []) ∷ []; files = [] }

abbrev request : Params
request = (codes "name", codes "road" ∷ []) ∷ (codes "songId", codes "tr-7" ∷ []) ∷ []

abbrev track_seven : SpecId
track_seven = record { typ = Specid.track; value = pos 7; string_value = [] }

name : {p : Str} → p ≢ [] → p ≢ codes "." → p ≢ codes ".." → All (λ c. c ≢ b'/') p → IsName p
name a b c d = record { some_text = a; not_dot = b; not_dot_dot = c; one_part = d }

place : Place (codes "pls") [] (itoa (pos 1)) [] (codes "9-9.m3u")
place = record {
  base_names = (name (λ e. cc) (λ e. cc) (λ e. cc) (omega arith), tt);
  names = (itoa-IsName 1, (name (λ e. cc) (λ e. cc) (λ e. cc) (omega arith), tt));
}

no_id : Ids.get_first request id_keys ≡ (zero_id, some no_values)
unfolding Ids.get_first get_first parse lookup str_eq
no_id = refl

made : new_path 9 (pos 1) (itoa (pos 9)) ≡ some (itoa (pos 1) ++ slash ∷ codes "9-9.m3u")
unfolding new_path itoa format_ℕ safe ext ext_step join clean split_on resolve separated str_eq
made = refl

parsed : Ids.get_list request (codes "songId") ≡ (track_seven ∷ [], none)
unfolding Ids.get_list Ids.parse_id get parse_list parse_all new cut str_eq atoi read_digits lookup
parsed = refl

found :
    located plain_text plain_text song_at ascii (absolute (codes "pls") []) (track_seven ∷ [])
    ≡ ok (song ∷ [])
unfolding located
found = refl

sane : sanity_check (absolute (codes "pls") []) disk ≡ ok tt
unfolding sanity_check separated str_eq entry_of split_on
sane = refl

free :
    Free
      (codes "pls")
      []
      (itoa (pos 1))
      []
      (codes "9-9.m3u")
      place
      ascii
      9
      (itoa (pos 1) ++ slash ∷ codes "9-9.m3u")
      (requested 9 user request (song ∷ []))
      disk
unfolding separated folders_above lookup str_eq split_on itoa format_ℕ
free = (refl, refl)

song-line : item_line (absolute (codes "pls") (itoa (pos 1) ∷ [])) song ≡ codes "../../music/x.mp3"
unfolding item_line rel rel_elements clean split_on resolve str_eq separated itoa format_ℕ
song-line = refl

song-Plain : Plain (codes "../../music/x.mp3")
song-Plain = record {
  some_text = λ e. cc e;
  no_space = unfold trim_space trim_left trim_right in refl;
  no_comment = unfold has_prefix in refl;
}

song-IsFilePath : IsFilePath (absolute (codes "pls") (itoa (pos 1) ∷ [])) song
song-IsFilePath = record {
  first = codes "music";
  rest = codes "x.mp3" ∷ [];
  names = (
    name (λ e. cc) (λ e. cc) (λ e. cc) (omega arith),
    (name (λ e. cc) (λ e. cc) (λ e. cc) (omega arith), tt),
  );
  path = unfold separated in refl;
  plain = rw song-line song-Plain;
  fits = rw song-line (record { one_line = omega arith; short = unfold byte_length in refl });
}

storable :
    Storable ascii
      (absolute (codes "pls") (itoa (pos 1) ∷ []))
      (requested 9 user request (song ∷ []))
unfolding byte_length encode_attr quote quote_chars quote_char Texts.get Texts.parse_str get parse
    lookup str_eq
storable = record {
  name_valid = (refl, (refl, (refl, (refl, tt))));
  comment_valid = tt;
  name_short = refl;
  comment_short = refl;
  paths = (song-IsFilePath, tt);
}

create-read_example :
    (after : Disk) × (answer : SpecId) × (serve_create plain_text plain_text song_at ascii
        (absolute (codes "pls") [])
        9
        user
        request
        disk
      ≡ ok (after, answer))
    × (read (absolute (codes "pls") []) (plain_text answer.string_value) after
        ≡ ok (requested 9 user request (song ∷ [])))
create-read_example =
    create-read plain_text plain_text song_at ascii (codes "pls") [] 9 1 user request
      (codes "9-9.m3u") (track_seven ∷ []) (song ∷ []) disk place refl refl (λ s. refl) refl no_id
      made parsed found sane free storable
