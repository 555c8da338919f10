-- ===== src/Playlist/RoundTrip.antt =====
-- playlist.go: Read after Write.
use gonic.Base.{
  ℕ, ◌≡◌, refl, sym, ap, ◌∙◌, Bool, true, false, List, [], ◌∷◌, ◌++◌, append_assoc, append-nil, map,
  some, Str, All, All-append, str_eq, str_key, keep, arith, ltb, if◌then◌else◌,
}
use gonic.FilePath.{is_abs, join, rel, IsName, absolute, join-rel}
use gonic.Lines.{byte_length, buffer_size, print_lines, scan}
use gonic.Lines.Laws.{Fits}
use gonic.Params.Bools.{parse_bool}
use gonic.Quote.{valid_rune, quote, quote_char, quote_chars}
use gonic.Playlist.{
  Playlist, attr_name, attr_comment, attr_is_public, encode_attr, attr_lines, bool_text, set_attr,
  read_line, read_lines, is_comment, item_line, written_lines,
}
use gonic.Playlist.Attrs.{read_line-encode_attr, encode_attr-Fits}
use gonic.Playlist.Reading.{
  Plain, read_line-item, read_lines-append, read_lines-print_lines, read_lines-comments,
  comments-All, comments-Fits,
}

-- An item that is the path of a file, whose line the scanner takes and nothing mistakes.
pub record IsFilePath (folder : Str) (item : Str) : Type 0 where
  pub first : Str
  pub rest : List Str
  pub names : All IsName (first ∷ rest)
  pub path : item ≡ absolute first rest
  pub plain : Plain (item_line folder item)
  pub fits : Fits (item_line folder item)

-- A playlist whose attributes are valid and short enough, and whose items are paths.
pub record Storable (printable : ℕ → Bool) (folder : Str) (playlist : Playlist) : Type 0 where
  pub name_valid : All (λ c. valid_rune c ≡ true) playlist.name
  pub comment_valid : All (λ c. valid_rune c ≡ true) playlist.comment
  pub name_short :
      ltb (byte_length (encode_attr printable attr_name playlist.name)) buffer_size ≡ true
  pub comment_short :
      ltb (byte_length (encode_attr printable attr_comment playlist.comment)) buffer_size ≡ true
  pub paths : All (IsFilePath folder) playlist.items

item_line-rel : (folder item r : Str) → rel folder item ≡ some r → item_line folder item ≡ r
unfolding item_line
item_line-rel folder item r e = rw (item_line, e) refl

module _ (b : Str) (bs : List Str) (names : All IsName (b ∷ bs)) where
  -- The line of a path leads back to it.
  item-line :
      (item : Str)
      → IsFilePath (absolute b bs) item
      → (if is_abs (item_line (absolute b bs) item)
          then item_line (absolute b bs) item
          else join (absolute b bs) (item_line (absolute b bs) item))
        ≡ item
  item-line item p =
      let (r, e, relative, led) = join-rel b bs p.first p.rest names p.names in
      rw (p.path, item_line-rel (absolute b bs) (absolute p.first p.rest) r e, relative) led

  read_lines-items :
      (playlist : Playlist) (items : List Str)
      → All (IsFilePath (absolute b bs)) items
      → read_lines (absolute b bs) playlist (map (item_line (absolute b bs)) items)
        ≡ record playlist { items = playlist.items ++ items }
  unfolding read_lines
  read_lines-items playlist [] h =
      ap (λ l. record playlist { items = l }) (sym (append-nil playlist.items))
  read_lines-items playlist (item ∷ items) (p, h) =
      let line = item_line (absolute b bs) item in
      let next = record playlist { items = playlist.items ++ item ∷ [] } in
      ap (λ q. read_lines (absolute b bs) q (map (item_line (absolute b bs)) items))
        (read_line-item (absolute b bs) playlist line p.plain
          ∙ ap (λ l. record playlist { items = playlist.items ++ l ∷ [] }) (item-line item p))
      ∙ read_lines-items next items h
      ∙ ap (λ l. record playlist { items = l }) (append_assoc playlist.items (item ∷ []) items)

items-Fits :
    (folder : Str) (items : List Str)
    → All (IsFilePath folder) items
    → All Fits (map (item_line folder) items)
items-Fits folder [] h = tt
items-Fits folder (item ∷ items) (p, h) = (p.fits, items-Fits folder items h)

is_public-short :
    (printable : ℕ → Bool) (p : Bool)
    → ltb (byte_length (encode_attr printable attr_is_public (bool_text p))) buffer_size ≡ true
unfolding byte_length encode_attr quote quote_chars quote_char
is_public-short printable true = refl
is_public-short printable false = refl

parse_bool-text : (p : Bool) → (parse_bool (bool_text p)).0 ≡ p
unfolding parse_bool str_eq
parse_bool-text true = refl
parse_bool-text false = refl

bool_text-valid : (p : Bool) → All (λ c. valid_rune c ≡ true) (bool_text p)
bool_text-valid true = ground arith
bool_text-valid false = ground arith

set_attrs :
    (start : Playlist) (name comment : Str) (p : Bool)
    → set_attr
        (attr_is_public, bool_text p)
        (set_attr (attr_comment, comment) (set_attr (attr_name, name) start))
      ≡ record start { name = name; comment = comment; is_public = p }
unfolding set_attr str_eq
set_attrs start name comment p =
    ap (λ q. record start { name = name; comment = comment; is_public = q }) (parse_bool-text p)

module _ (printable : ℕ → Bool) (folder : Str) (playlist : Playlist)
    (s : Storable printable folder playlist) where
  attrs-Fits : All Fits (attr_lines printable playlist)
  attrs-Fits = (
    encode_attr-Fits printable attr_name playlist.name (ground arith) s.name_short,
    (
      encode_attr-Fits printable attr_comment playlist.comment (ground arith) s.comment_short,
      (
        encode_attr-Fits printable attr_is_public (bool_text playlist.is_public) (ground arith)
            (is_public-short printable playlist.is_public),
        tt,
      ),
    ),
  )

  read_lines-attrs :
      (start : Playlist)
      → read_lines folder start (attr_lines printable playlist) ≡ record start {
        name = playlist.name;
        comment = playlist.comment;
        is_public = playlist.is_public;
      }
  unfolding read_lines
  read_lines-attrs start =
      let named = set_attr (attr_name, playlist.name) start in
      let commented = set_attr (attr_comment, playlist.comment) named in
      let line_b = encode_attr printable attr_comment playlist.comment in
      let line_c = encode_attr printable attr_is_public (bool_text playlist.is_public) in
      ap (λ q. read_line folder (read_line folder q line_b) line_c)
        (read_line-encode_attr printable attr_name playlist.name folder start (ground arith)
          s.name_valid)
      ∙ ap (λ q. read_line folder q line_c)
          (read_line-encode_attr printable attr_comment playlist.comment folder named (ground arith)
            s.comment_valid)
      ∙ read_line-encode_attr printable attr_is_public (bool_text playlist.is_public) folder
          commented (ground arith) (bool_text-valid playlist.is_public)
      ∙ set_attrs start playlist.name playlist.comment playlist.is_public

  written-Fits : (old : Str) → All Fits (written_lines printable folder old playlist)
  unfolding written_lines
  written-Fits old = All-append Fits _ _ (comments-Fits old) (
      All-append Fits (attr_lines printable playlist) _ attrs-Fits
        (items-Fits folder playlist.items s.paths))

written_lines-parts :
    (printable : ℕ → Bool) (folder old : Str) (playlist : Playlist)
    → written_lines printable folder old playlist
      ≡ keep is_comment (scan old)
        ++ (attr_lines printable playlist ++ map (item_line folder) playlist.items)
unfolding written_lines
written_lines-parts printable folder old playlist = refl

module _ (printable : ℕ → Bool) (b : Str) (bs : List Str) (names : All IsName (b ∷ bs))
    (playlist : Playlist) (s : Storable printable (absolute b bs) playlist) where
  -- What Write put down is read as the playlist that was written.
  pub read_lines-written :
      (old : Str) (start : Playlist)
      → start.items ≡ []
      → read_lines
          (absolute b bs)
          start
          (scan (print_lines (written_lines printable (absolute b bs) old playlist)))
        ≡ record playlist { updated_at = start.updated_at; user_id = start.user_id }
  read_lines-written old start empty =
      let folder = absolute b bs in
      let comments = keep is_comment (scan old) in
      let attrs = attr_lines printable playlist in
      let lines = map (item_line folder) playlist.items in
      let filled = record start {
        name = playlist.name;
        comment = playlist.comment;
        is_public = playlist.is_public;
      } in
      read_lines-print_lines folder start (written_lines printable folder old playlist)
        (written-Fits printable folder playlist s old)
      ∙ ap (read_lines folder start) (written_lines-parts printable folder old playlist)
      ∙ read_lines-append folder start comments (attrs ++ lines)
      ∙ ap (λ q. read_lines folder q (attrs ++ lines))
          (read_lines-comments folder start comments (comments-All old))
      ∙ read_lines-append folder start attrs lines
      ∙ ap (λ q. read_lines folder q lines) (read_lines-attrs printable folder playlist s start)
      ∙ read_lines-items b bs names filled playlist.items s.paths
      ∙ ap
          (λ l. record playlist {
            updated_at = start.updated_at;
            user_id = start.user_id;
            items = l ++ playlist.items;
          })
          empty
