-- ===== src/Playlist/Streams.antt =====
-- playlist.go: items that are no absolute path, such as the URLs of internet radio streams.
use gonic.Base.{
  ◌≡◌, ◌≢◌, refl, sym, ap, ◌∙◌, true, false, List, [], ◌∷◌, ◌++◌, Str, All, if◌then◌else◌,
}
use gonic.FilePath.{is_abs, join, IsName, absolute, join-absolute, rel-none}
use gonic.Playlist.{Playlist, item_line, read_line}
use gonic.Playlist.Reading.{Plain, read_line-item}

module _ (b : Str) (bs : List Str) (names : All IsName (b ∷ bs)) (item : Str)
    (relative : is_abs item ≡ false) where
  item_line-relative : item_line (absolute b bs) item ≡ item
  unfolding item_line
  item_line-relative = rw (item_line, rel-none b bs item names relative) refl

  joined-is_abs : is_abs (join (absolute b bs) item) ≡ true
  joined-is_abs = ap is_abs (join-absolute b bs item names)

  -- An item that is no absolute path is written as it stands, if nothing takes its line for something
  -- else, and read as the path that it has below the folder of the file, which is another text: the
  -- URL of a stream comes back as the path of a file.
  pub read_line-relative :
      (playlist : Playlist)
      → Plain item
      → (read_line (absolute b bs) playlist (item_line (absolute b bs) item)
          ≡ record playlist { items = playlist.items ++ join (absolute b bs) item ∷ [] })
        × (join (absolute b bs) item ≢ item)
  read_line-relative playlist plain = (
    ap (read_line (absolute b bs) playlist) item_line-relative
        ∙ read_line-item (absolute b bs) playlist item plain
        ∙ ap (λ l. record playlist { items = playlist.items ++ l ∷ [] })
            (ap (λ t. if t then item else join (absolute b bs) item) relative),
    λ e. let bad : true ≡ false = sym joined-is_abs ∙ ap is_abs e ∙ relative in cc bad,
  )
