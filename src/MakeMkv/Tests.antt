-- ===== src/MakeMkv/Tests.antt =====
-- The statements about MakeMKV at concrete lines and times, and runs of the definitions.
use hellbox.Base.{
  ℕ, ◌+◌, ◌*◌, true, false, List, [], ◌∷◌, ◌++◌, none, some, codes, ◌≡◌, refl, arith, inl, inr, pos,
  ascii, is_digit, ◌||◌, ◌==◌, trim_right, trim_left, trim_space, text_eq, atoi, magnitude,
  has_part,
}
use hellbox.MakeMkv.Lines.{
  split_fields, split_from, case_of, parse_line, parse_duration, parse_bytes, Message, cut_colon,
  int_field, trim_newlines, Progress,
}
use hellbox.MakeMkv.Messages.{
  says_too_old, status_by_code, status_by_prose, enter_then_key, key_status_from_messages,
  summarise, find_version,
}
use hellbox.MakeMkv.Stall.{observe, expired, same_int}
use hellbox.MakeMkv.Rip.{
  line_at, tick_at, Happening, Ending, rip_title, no_progress, handle_all, on_line, on_tick, heed,
  with_values, readings,
}
use hellbox.MakeMkv.Fields.{quoted_fields, split_fields-quoted_fields}
use hellbox.MakeMkv.Durations.{clock_text, parse_duration-clock_text}
use hellbox.MakeMkv.Silence.{so_far, silence_ends_rip}
use hellbox.MakeMkv.Keys.{is_accepted}

message_split :
    split_fields (codes "1005,0,1,\"a \"\"b\"\", c\"")
    ≡ codes "1005" ∷ codes "0" ∷ codes "1" ∷ codes "a \"b\", c" ∷ []
unfolding split_fields split_from case_of
message_split = refl

bytes_read : parse_bytes (codes "4,700,372,992") ≡ pos 4700372992
unfolding parse_bytes atoi magnitude
bytes_read = refl

version_read : find_version (codes "MakeMKV v1.17.7 linux(x64) started") ≡ some (codes "1.17.7")
unfolding find_version
version_read = refl

split_fields-quoted_fields_example :
    split_fields (quoted_fields (codes "a \"b\"") (codes "c, d" ∷ []))
    ≡ codes "a \"b\"" ∷ codes "c, d" ∷ []
split_fields-quoted_fields_example =
    split_fields-quoted_fields (codes "a \"b\"") (codes "c, d" ∷ []) (refl, (refl, tt))

ascii_is_dense : (c : ℕ) → (is_digit c || c == b':') ≡ true → ascii.is_space c ≡ false
ascii_is_dense c h = ground arith

parse_duration-clock_text_example :
    parse_duration ascii (clock_text 2 52 7) ≡ pos (2 * 3600 + 52 * 60 + 7)
parse_duration-clock_text_example =
    parse_duration-clock_text ascii 2 52 7 ascii_is_dense (omega arith)

abbrev half : Progress
half = record {
  current = [];
  total = [];
  value = pos 0;
  total_val = pos 32768;
  max = pos 65536;
  has_values = true;
}

abbrev before_stall : List Happening
before_stall = line_at (codes "PRGV:10,20,65536") 100 ∷ tick_at 105 ∷ []

abbrev in_stall : List Happening
in_stall =
    line_at (codes "MSG:2003,0,1,\"trying to work around\"") 120
    ∷ line_at (codes "PRGV:10,20,65536") 130
    ∷ []

abbrev killed : Ending
killed = record {
  run_error = some (codes "context canceled");
  staging = inr [];
  rename_error = λ _. none;
  size = inr 0;
}

silence_ends_rip_example :
    rip_title ascii 3 50 0 (before_stall ++ (in_stall ++ tick_at 150 ∷ [])) killed
    ≡ inl (
        no_progress 50 (
          summarise ascii
            (so_far ascii 3 50 0 (before_stall ++ (in_stall ++ tick_at 150 ∷ []))).messages))
unfolding parse_line trim_newlines cut_colon split_fields split_from case_of text_eq handle_all
    on_line on_tick heed with_values observe expired int_field readings same_int atoi magnitude
    trim_space trim_left trim_right
silence_ends_rip_example =
    silence_ends_rip ascii 3 50 0 before_stall in_stall [] 150 killed (omega arith) refl
      (omega arith)

abbrev banner : Message
banner = record { code = pos 1005; flags = pos 0; text = codes "MakeMKV v1.17.7 started" }

abbrev too_old : Message
too_old = record {
  code = pos 5021;
  flags = pos 0;
  text = codes "This application version is too old.";
}

banner-is_accepted : is_accepted (key_status_from_messages ascii (banner ∷ [])) ≡ true
unfolding key_status_from_messages status_by_code status_by_prose has_part enter_then_key
banner-is_accepted = refl

is_too_old : says_too_old ascii too_old.text ≡ true
unfolding has_part
is_too_old = refl
