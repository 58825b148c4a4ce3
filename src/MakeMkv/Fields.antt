-- ===== src/MakeMkv/Fields.antt =====
-- internal/makemkv/robot.go: that `splitFields` reads back the fields that were quoted.
use hellbox.Base.{
  ℕ, Bool, true, false, not, ◌&&◌, List, [], ◌∷◌, ◌++◌, ◌==◌, if◌then◌else◌, Text, ◌≡◌, refl, sym,
  ap, ◌∙◌, arith, append-nil, append_assoc, All,
}
use hellbox.MakeMkv.Lines.{head?, is_at, case_of, split_from, split_fields}

-- A byte of a field as MakeMKV escapes it: an embedded quote is doubled.
abbrev pub escape : ℕ → Text → Text
escape c rest = if c == b'"' then b'"' ∷ b'"' ∷ rest else c ∷ rest

-- A field up to the quote that ends it, before what follows.
abbrev pub quoted : Text → Text → Text
quoted [] rest = b'"' ∷ rest
quoted (c ∷ s) rest = escape c (quoted s rest)

-- Fields in quotes, separated by commas.
unfoldable pub quoted_fields : Text → List Text → Text
quoted_fields f [] = b'"' ∷ quoted f []
quoted_fields f (g ∷ gs) = b'"' ∷ quoted f (b',' ∷ quoted_fields g gs)

abbrev pub ends_or_quotes : Text → Bool
ends_or_quotes [] = true
ends_or_quotes (c ∷ s) = c == b'"'

-- No backslash stands before a quote or at the end of the field.
abbrev pub is_readable : Text → Bool
is_readable [] = true
is_readable (c ∷ s) = not (c == b'\\' && ends_or_quotes s) && is_readable s

-- What follows a field: nothing or a comma.
abbrev goes_on : Text → Bool
goes_on [] = true
goes_on (c ∷ s) = c == b','

field_end :
    (buf rest : Text)
    → goes_on rest ≡ true
    → split_from true false buf (b'"' ∷ rest) ≡ split_from false false buf rest
unfolding split_from case_of
field_end buf [] h = refl
field_end buf (c ∷ s) h = ground arith

byte_read :
    (buf : Text) (c : ℕ) (rest : Text)
    → not (c == b'\\' && is_at b'"' (head? rest)) ≡ true
    → split_from true false buf (escape c rest) ≡ split_from true false (buf ++ c ∷ []) rest
unfolding split_from case_of
byte_read buf c rest h = ground arith

quoted_head : (s rest : Text) → is_at b'"' (head? (quoted s rest)) ≡ ends_or_quotes s
quoted_head [] rest = refl
quoted_head (c ∷ s) rest = ground arith

and_parts : (a b : Bool) → (a && b) ≡ true → (a ≡ true) × (b ≡ true)
and_parts a b h = ground arith

-- Inside quotes an escaped field is read into the buffer, up to the quote that ends it.
field_read :
    (buf f rest : Text)
    → is_readable f ≡ true
    → goes_on rest ≡ true
    → split_from true false buf (quoted f rest) ≡ split_from false false (buf ++ f) rest
field_read buf [] rest r h =
    field_end buf rest h ∙ ap (λ b. split_from false false b rest) (sym (append-nil buf))
field_read buf (c ∷ s) rest r h =
    let (here, later) = and_parts (not (c == b'\\' && ends_or_quotes s)) (is_readable s) r in
    byte_read buf c (quoted s rest) (rw (quoted_head s rest) here)
    ∙ field_read (buf ++ c ∷ []) s rest later h
    ∙ ap (λ b. split_from false false b rest) (append_assoc buf (c ∷ []) s)

-- Fields written in quotes, each embedded quote doubled, are read back as they were, if none of them
-- has a backslash directly before a quote or at its end.
pub split_fields-quoted_fields :
    (f : Text) (fs : List Text)
    → All (λ g. is_readable g ≡ true) (f ∷ fs)
    → split_fields (quoted_fields f fs) ≡ f ∷ fs
unfolding split_fields quoted_fields split_from case_of
split_fields-quoted_fields f [] h = field_read [] f [] h.0 refl
split_fields-quoted_fields f (g ∷ gs) h =
    field_read [] f (b',' ∷ quoted_fields g gs) h.0 refl
    ∙ ap (λ r. f ∷ r) (split_fields-quoted_fields g gs h.1)
