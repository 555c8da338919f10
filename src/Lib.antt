-- ===== src/Lib.antt =====
-- gonic, a music server for the Subsonic API: the part of it that names, finds and keeps things.
--
-- A request to the server is a map of texts (params) whose ids (specid) name tracks, albums and
-- collections. Handlers read the request, check what the user may do and change the tables of the
-- database (db); a scan of the music folders (scanner) writes the rows of albums, tracks and
-- artists, cleans up what it has not seen, and heals the tables. File names that come from outside
-- are joined to a base folder by fileutil, playlists are files that playlist reads and writes below
-- such a folder, cached covers and transcodes lie in folders that cache keeps below a size, and the
-- tree of genres is read from a file by texttree.
--
-- Files, each with what it models:
--   Base        numbers, texts as lists of code points, decimal numbers (strconv.Itoa, Atoi and the
--               value that Atoi gives beside a range error), maps as association lists
--   FilePath    filepath.Clean, Join, Ext, Dir, Base and Rel of the Go library
--   Lines       bufio.Scanner over lines, with the size of its buffer, and fmt.Fprintln
--   Quote       strconv.Quote and Unquote
--   Fileutil    fileutil/fileutil.go: SafeJoin (safe_join), HasPrefix (within), Safe, Unique, First
--   Specid      server/ctrlsubsonic/specid/ids.go: New (new), String (to_string)
--   Params      server/ctrlsubsonic/params/params.go: New, the parsers, and one child per type for
--               its accessors (Texts, Ints, Floats, Ids, Bools, Times)
--   Cache       cache/cache.go: Eject, over the files that the walk of the folder finds
--   Db          db/db.go, db/heal.go: tables as lists of rows, healAlbumRefs on collection_albums
--   Collections collection/collection.go: SetAlbums, AlbumIDs, Stats; its child Handlers
--               server/ctrlsubsonic/handlers_collection.go: the three handlers that write, as
--               functions from a state to a state and a response
--   Auth        server/ctrlsubsonic/ctrl.go: withRequiredParams and withUser, with the two checks of
--               credentials
--   Playlist    playlist/playlist.go: the store (list, read, write, delete, new_path) over a disk of
--               folders and files; its child Handlers server/ctrlsubsonic/handlers_playlist.go: the
--               three handlers that write, as functions to the disk after them, an error code or a panic
--   SpecidPaths server/ctrlsubsonic/specidpaths/specidpaths.go: Locate with AbsPath of its result, and
--               Lookup, over tables as lists of rows
--   Queues      server/ctrlsubsonic/handlers_common.go: ServeSavePlayQueue and the ids that
--               ServeGetPlayQueue answers with
--   Bookmarks   server/ctrlsubsonic/handlers_bookmark.go: the two handlers that write
--   Scanner     scanner/scanner.go, in its children: Tables the rows of db/db.go that a scan writes,
--               Session the state of a scan and its steps, Populate, Rows and Files the populate
--               functions up to populateTrackAndArtists, Folder scanDir, Flag the flag that keeps scans
--               apart as a step relation on threads, Watch the loop of ExecuteWatch, Emptied
--               cleanAlbumMetadata and cleanGenres, Run scanCallback and ScanAndClean; Scanner itself
--               cleanTracks, cleanArtists, cleanBookmarks and genreRows on rows of ids, and
--               TransactionChunked of db/db.go; cleanAlbums, with the rows that the database deletes
--               along with an album, is in Run. The children of Reading follow scanDir step by step
--   Radio       server/ctrlsubsonic/handlers_internet_radio.go: the three handlers that write, as
--               functions to the stations after them or an error code
--   Tags        tags/tags.go: read, readMulti, Read, ReadValues, ReadCredits, pairCredits; its child Specs
--               the tags themselves, and ParseDB
--   Texttree    texttree/texttree.go: ParseReader, checkCycle, collectDescendants
--
-- In each of them the children hold the lemmas, named for what they are about, and Tests the runs on
-- concrete input.
--
-- Fuel and bounds: checkCycle runs on as much fuel as there are parents and one more, which is
-- always enough; collectDescendants and ParseReader take their fuel as an argument, and some amount
-- is enough from which on the answer does not change; Unique runs on fuel above the number of names
-- that are taken; TransactionChunked on as much as there are ids; the albums below a deleted one are
-- followed as deep as there are albums. Go's int is 64 bits wide: Atoi refuses what does not fit,
-- and the time parser and the limit of a cache in bytes wrap around, so that what is shown of
-- Eject holds for limits below 2 ^ 43 megabytes.
--
-- Parameters: MD5 for tokens, base64 for the ids of playlists, the characters past ASCII that
-- strconv.IsPrint takes, normtag.Values and normtag.Get for tags, the file system, the tag reader,
-- the pattern of excluded paths, coverparse, unidecode and the parsers of numbers and dates for a
-- scan, the order in which filepath.WalkDir visits folders, os.Stat for Unique and First, os.Remove
-- for Eject, strconv.ParseFloat for the float accessors, url.ParseRequestURI for the radio stations,
-- and the clock, as the time of a request.
--
-- Not modelled: failures of SQLite, of reading files and of purging cached covers, whose calls
-- always succeed here; texts that are not valid UTF-8; locks; the order in which Go ranges over a
-- map, which is the order of the list; the fields of a row that no modelled operation reads; the
-- adding of folders to the watcher, the healing of cover overrides and OnComplete; and the parts of
-- the program not named above.
pub mod Auth
pub mod Base
pub mod Bookmarks
pub mod Cache
pub mod Collections
pub mod Db
pub mod FilePath
pub mod Fileutil
pub mod Lines
pub mod Params
pub mod Playlist
pub mod Queues
pub mod Quote
pub mod Radio
pub mod Scanner
pub mod Specid
pub mod SpecidPaths
pub mod Tags
pub mod Texttree
