-- ===== src/SpecidPaths/Prefixes.antt =====
-- specidpaths.go: the test for podcasts compares texts, not folders.
use gonic.Base.{
  ◌≡◌, sym, ap, ◌∙◌, true, List, [], ◌++◌, append_assoc, Option, none, some, Str, has_prefix,
  has_prefix→append, has_prefix_append, ℤ, arith,
}
use gonic.FilePath.{is_abs}
use gonic.Specid
use gonic.Specid.{SpecId}
use gonic.SpecidPaths.{Tables, id_for, lookup, lookup_episode}

has_prefix-append_right : (s t p : Str) → has_prefix s p ≡ true → has_prefix (s ++ t) p ≡ true
has_prefix-append_right s t p h =
    let (rest, e) = has_prefix→append s p h in
    ap (λ r. has_prefix (r ++ t) p) e
    ∙ ap (λ r. has_prefix r p) (append_assoc p rest t)
    ∙ has_prefix_append p (rest ++ t)

id_for-typ : (typ : Specid.Idt) (o : Option ℤ) (id : SpecId) → id_for typ o ≡ some id → id.typ ≡ typ
id_for-typ typ none id h = cc h
id_for-typ typ (some i) id h =
    let e : record { typ = typ; value = i; string_value = [] } ≡ id = cc h in
    sym (ap (λ r. r.typ) e)

lookup_episode-typ :
    (db : Tables) (path : Str) (id : SpecId)
    → lookup_episode db path ≡ some id
    → id.typ ≡ Specid.podcast_episode
unfolding lookup_episode
lookup_episode-typ db path id h = id_for-typ Specid.podcast_episode _ id h

-- Below a music path whose text begins with that of the podcasts path, as `/media/podcasts-old` does
-- with `/media/podcasts`, only episodes are looked up: no track there is ever found.
pub lookup-episodes :
    (db : Tables) (music_paths : List Str) (music_path podcasts_path rest : Str) (id : SpecId)
    → has_prefix music_path podcasts_path ≡ true
    → is_abs (music_path ++ rest) ≡ true
    → lookup db music_paths podcasts_path (music_path ++ rest) ≡ some id
    → id.typ ≡ Specid.podcast_episode
unfolding lookup
lookup-episodes db music_paths music_path podcasts_path rest id h a e =
    let q = has_prefix-append_right music_path rest podcasts_path h in
    lookup_episode-typ db (music_path ++ rest) id (ground (arith, q, a, e))
