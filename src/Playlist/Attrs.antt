-- ===== src/Playlist/Attrs.antt =====
-- playlist.go: what encodeAttr writes is what decodeAttr reads, and such a line is one line of a file.
use gonic.Base.{
  ℕ, ◌≡◌, ◌≢◌, refl, sym, ap, Bool, true, false, [], ◌∷◌, ◌++◌, append_assoc, some, Str, All,
  All-append, Lacks, has_prefix, has_prefix_append, trim_prefix, trim_left, trim_right, trim_space,
  drop, length, cut, cut-append, is_space, str_eq, arith, ltb,
}
use gonic.Lines.{newline, byte_length, buffer_size}
use gonic.Lines.Laws.{Fits}
use gonic.Quote.{quote_mark, quote, quote_chars, valid_rune}
use gonic.Quote.RoundTrip.{unquote-quote, quote-Lacks}
use gonic.Playlist.{Playlist, attr_prefix, encode_attr, decode_attr, set_attr, add_item, read_line}

drop_front : (p s : Str) → drop (length p) (p ++ s) ≡ s
drop_front [] s = refl
drop_front (c ∷ p) s = drop_front p s

trim_prefix-append : (p s : Str) → trim_prefix (p ++ s) p ≡ s
unfolding trim_prefix
trim_prefix-append p s = rw (has_prefix_append p s) (drop_front p s)

prefix-Lacks : Lacks b':' attr_prefix
prefix-Lacks = ground arith

module _ (printable : ℕ → Bool) (name : Str) (value : Str) where
  cut-encode_attr :
      Lacks b':' name
      → cut (encode_attr printable name value) b':'
        ≡ some (attr_prefix ++ name, quote printable value)
  unfolding encode_attr
  cut-encode_attr h = rw (sym (append_assoc attr_prefix name (b':' ∷ quote printable value))) (
      cut-append (attr_prefix ++ name) (quote printable value) b':'
        (All-append (λ c. c ≢ b':') attr_prefix name prefix-Lacks h))

  encode_attr-has_prefix : has_prefix (encode_attr printable name value) attr_prefix ≡ true
  unfolding encode_attr
  encode_attr-has_prefix = has_prefix_append attr_prefix (name ++ b':' ∷ quote printable value)

  -- An attribute is read back as it was written, if its name has no colon and its value is valid
  -- UTF-8.
  pub decode-encode_attr :
      Lacks b':' name
      → All (λ c. valid_rune c ≡ true) value
      → decode_attr (encode_attr printable name value) ≡ (name, value)
  unfolding decode_attr
  decode-encode_attr h v =
      rw
        (
          cut-encode_attr h,
          encode_attr-has_prefix,
          trim_prefix-append attr_prefix name,
          unquote-quote printable value v,
        )
        refl

trim_right-end : (s : Str) (c : ℕ) → is_space c ≡ false → trim_right (s ++ c ∷ []) ≡ s ++ c ∷ []
unfolding trim_right
trim_right-end [] c h = rw h refl
trim_right-end (d ∷ []) c h = rw (trim_right, h) refl
trim_right-end (d ∷ e ∷ s) c h = rw (trim_right-end (e ∷ s) c h) refl

module _ (printable : ℕ → Bool) (name : Str) (value : Str) where
  attr_front : Str
  attr_front = attr_prefix ++ (name ++ b':' ∷ quote_mark ∷ quote_chars printable value)

  encode_attr-ends : encode_attr printable name value ≡ attr_front ++ quote_mark ∷ []
  unfolding encode_attr attr_front quote
  encode_attr-ends =
      rw
        (append_assoc attr_prefix (name ++ b':' ∷ quote_mark ∷ quote_chars printable value)
          (quote_mark ∷ []))
        (ap (λ l. attr_prefix ++ l)
          (sym (
            append_assoc name (b':' ∷ quote_mark ∷ quote_chars printable value) (quote_mark ∷ []))))

  trim_space-encode_attr :
      trim_space (encode_attr printable name value) ≡ encode_attr printable name value
  unfolding trim_space trim_left attr_front
  trim_space-encode_attr = rw encode_attr-ends (trim_right-end attr_front quote_mark refl)

  -- The line of an attribute changes the playlist as the attribute does, and is no item.
  pub read_line-encode_attr :
      (folder : Str) (playlist : Playlist)
      → Lacks b':' name
      → All (λ c. valid_rune c ≡ true) value
      → read_line folder playlist (encode_attr printable name value)
        ≡ set_attr (name, value) playlist
  unfolding read_line
  read_line-encode_attr folder playlist h v =
      rw (trim_space-encode_attr, decode-encode_attr printable name value h v)
        (unfold add_item encode_attr str_eq has_prefix in refl)

  -- The line of an attribute has no newline.
  pub encode_attr-Fits :
      Lacks newline name
      → ltb (byte_length (encode_attr printable name value)) buffer_size ≡ true
      → Fits (encode_attr printable name value)
  encode_attr-Fits h s = record {
    one_line =
        (unfold encode_attr in
          All-append (λ c. c ≢ newline) attr_prefix (name ++ b':' ∷ quote printable value)
            (ground arith)
            (All-append (λ c. c ≢ newline) name (b':' ∷ quote printable value) h
              (omega arith, quote-Lacks printable value)));
    short = s;
  }
