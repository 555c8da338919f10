-- ===== src/Specid/Tests.antt =====
-- Runs of ids.go, and its theorems at concrete ids.
use gonic.Base.{
  ◌≡◌, refl, inl, inr, [], ok, err, codes, cut, str_eq, atoi, read_digits, itoa, int_eq, pos,
  negsuc,
}
use gonic.Specid.{
  SpecId, bad_separator, not_an_int, bad_prefix, album, track, numeric_id, new, to_string,
}
use gonic.Specid.RoundTrip.{new-to_string}

abbrev album_12 : SpecId
album_12 = record { typ = album; value = pos 12; string_value = [] }

new-album : new (codes "al-12") ≡ ok album_12
unfolding new numeric_id cut str_eq atoi read_digits
new-album = refl

new_errors :
    (new (codes "al12") ≡ err bad_separator)
    × (new (codes "zz-x") ≡ err not_an_int)
    × (new (codes "zz-1") ≡ err bad_prefix)
unfolding new numeric_id cut str_eq atoi read_digits
new_errors = (refl, refl, refl)

to_string_negative :
    to_string (record { typ = track; value = negsuc 4; string_value = [] }) ≡ codes "tr--5"
unfolding to_string int_eq itoa
to_string_negative = refl

new-to_string_example : new (to_string album_12) ≡ ok album_12
new-to_string_example = new-to_string album_12 (inl (inr (inl refl), (λ h. cc), refl, refl))
