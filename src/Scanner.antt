-- ===== src/Scanner.antt =====
-- scanner/scanner.go: the clean up after a scan of tracks, artists and bookmarks (that of albums is
-- in Run), and the rows of genres; db/db.go: transactions in chunks. Deleting from a table succeeds.
pub mod Tables
pub mod Session
pub mod Populate
pub mod Rows
pub mod Files
pub mod Folder
pub mod Steps
pub mod Reading
pub mod Titles
pub mod Flag
pub mod Watch
pub mod Emptied
pub mod Run
pub mod Isrcs
pub mod Cleaned
pub mod Genres
mod Tests
mod ScanTests
use gonic.Base.{
  ℕ, zero, suc, ◌+◌, Bool, true, false, not, ◌&&◌, ◌||◌, List, [], ◌∷◌, ◌++◌, map, Str, codes,
  str_eq, ℤ, int_eq, keep, any, take, drop, length, if◌then◌else◌,
}
use gonic.Bookmarks.{Bookmark}

-- The row of a track by its id, with the album that it belongs to.
pub record Row : Type 0 where
  pub id : ℤ
  pub owner : ℤ

abbrev pub among : List ℤ → ℤ → Bool
among ids i = any (int_eq i) ids

-- The loop of `TransactionChunked` on fuel.
unfoldable pub chunked : {S : Type 0} → ℕ → (List ℤ → S → S) → List ℤ → S → S
chunked zero f ids state = state
chunked (suc fuel) f [] state = state
chunked (suc fuel) f (i ∷ is) state =
    chunked fuel f (drop 999 (i ∷ is)) (f (take 999 (i ∷ is)) state)

-- `TransactionChunked`
unfoldable pub transaction_chunked : {S : Type 0} → (List ℤ → S → S) → List ℤ → S → S
unfolding chunked
transaction_chunked f ids state = chunked (length ids) f ids state

abbrev pub delete_ids : List ℤ → List Row → List Row
delete_ids ids = keep (λ r. not (among ids r.id))

-- The ids of the rows that the scan has not seen.
abbrev pub unseen_ids : List ℤ → List Row → List ℤ
unseen_ids seen rows = keep (λ i. not (among seen i)) (map (λ r. r.id) rows)

-- `cleanTracks`
unfoldable pub clean_tracks : List ℤ → List Row → List Row
clean_tracks seen_tracks tracks =
    transaction_chunked delete_ids (unseen_ids seen_tracks tracks) tracks

-- `cleanArtists`, with the artists of the credits of albums and of tracks
unfoldable pub clean_artists : List ℤ → List ℤ → List ℤ → List ℤ
clean_artists album_credits track_credits =
    keep (λ i. among album_credits i || among track_credits i)

abbrev pub is_orphaned : Str → List ℤ → Bookmark → Bool
is_orphaned typ ids b = not (among ids b.entry_id) && str_eq b.entry_id_type typ

-- `cleanBookmarks`, with the ids of the tracks and of the episodes
unfoldable pub clean_bookmarks : List ℤ → List ℤ → List Bookmark → List Bookmark
clean_bookmarks tracks episodes bookmarks =
    keep (λ b. not (is_orphaned (codes "pe") episodes b))
      (keep (λ b. not (is_orphaned (codes "tr") tracks b)) bookmarks)

-- One of the two loops of `genreRows`, with what is already seen: the rows that it adds.
unfoldable pub add_genres : Bool → List ℤ → List ℤ → List (ℤ × Bool)
add_genres inherited seen [] = []
add_genres inherited seen (i ∷ is) =
    let skipped = add_genres inherited seen is in
    let added = (i, inherited) ∷ add_genres inherited (i ∷ seen) is in
    if among seen i then skipped else added

-- `genreRows`; the second loop has seen the direct ids.
unfoldable pub genre_rows : List ℤ → List ℤ → List (ℤ × Bool)
unfolding add_genres
genre_rows direct_ids inherited_ids =
    add_genres false [] direct_ids ++ add_genres true direct_ids inherited_ids
