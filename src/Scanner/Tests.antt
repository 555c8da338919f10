-- ===== src/Scanner/Tests.antt =====
-- Runs of the clean up of scanner.go, and its theorems at concrete rows.
use gonic.Base.{◌≡◌, refl, true, false, [], ◌∷◌, codes, str_eq, pos, int_eq}
use gonic.Bookmarks.{Bookmark}
use gonic.Scanner.{Row, clean_tracks, clean_artists, clean_bookmarks, genre_rows, add_genres}
use gonic.Scanner.Cleaned.{clean_lem}
use gonic.Scanner.Genres.{count, count-genre_rows}

abbrev kept : Row
kept = record { id = pos 1; owner = pos 4 }

abbrev gone : Row
gone = record { id = pos 2; owner = pos 4 }

clean_lem_example : clean_tracks (pos 1 ∷ []) (kept ∷ gone ∷ []) ≡ kept ∷ []
unfolding int_eq
clean_lem_example = clean_lem (pos 1 ∷ []) (kept ∷ gone ∷ [])

genre_rows_run :
    genre_rows (pos 1 ∷ pos 2 ∷ pos 1 ∷ []) (pos 2 ∷ pos 3 ∷ pos 3 ∷ [])
    ≡ (pos 1, false) ∷ (pos 2, false) ∷ (pos 3, true) ∷ []
unfolding genre_rows add_genres int_eq
genre_rows_run = refl

count-genre_rows_example : count (pos 3) (genre_rows (pos 1 ∷ []) (pos 3 ∷ pos 3 ∷ [])) ≡ true ∷ []
unfolding int_eq
count-genre_rows_example = count-genre_rows (pos 3) (pos 1 ∷ []) (pos 3 ∷ pos 3 ∷ [])

artists_run :
    clean_artists (pos 1 ∷ []) (pos 3 ∷ []) (pos 1 ∷ pos 2 ∷ pos 3 ∷ []) ≡ pos 1 ∷ pos 3 ∷ []
unfolding clean_artists int_eq
artists_run = refl

abbrev bookmark : Bookmark
bookmark = record {
  id = 1;
  user_id = pos 1;
  position = pos 0;
  comment = [];
  entry_id_type = codes "tr";
  entry_id = pos 2;
}

bookmarks_run :
    (clean_bookmarks (pos 2 ∷ []) [] (bookmark ∷ []) ≡ bookmark ∷ [])
    × (clean_bookmarks (pos 1 ∷ []) (pos 2 ∷ []) (bookmark ∷ []) ≡ [])
unfolding clean_bookmarks int_eq str_eq
bookmarks_run = (refl, refl)
