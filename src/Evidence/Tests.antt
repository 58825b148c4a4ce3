-- ===== src/Evidence/Tests.antt =====
-- A label and a database that agree, and an abbreviation.
use hellbox.Base.{
  ◌≡◌, ◌≤◌, arith, refl, List, [], ◌∷◌, none, some, codes, ascii, inl, text_eq, trim_left,
  trim_right, trim_space, insert_by, sort_by,
}
use hellbox.Evidence.{
  unknown, movie, Input, Candidate, Net, resolve, run, proposals, normalise_title, spaced_from,
  order_from, merge_all, merge_sorted, agreed, detailed, distinct, joined,
}
use hellbox.Evidence.Surest.{AtMost, Named, best_is_surest}

abbrev by_label : Candidate
by_label = record {
  title = codes "Roman Holiday";
  year = 0;
  kind = unknown;
  season = 0;
  disc = 0;
  net = codes "label";
  confidence = 50;
  why = codes "read";
}

abbrev by_hash : Candidate
by_hash = record {
  title = codes "ROMAN_HOLIDAY";
  year = 1953;
  kind = movie;
  season = 0;
  disc = 0;
  net = [];
  confidence = 45;
  why = codes "match";
}

abbrev short_name : Candidate
short_name = record by_label { title = codes "Stng"; confidence = 15 }

abbrev nets : List Net
nets =
    record { name = codes "label"; identify = λ _. some (by_label ∷ short_name ∷ []) }
    ∷ record { name = codes "broken"; identify = λ _. none }
    ∷ record { name = codes "hash"; identify = λ _. some (by_hash ∷ []) }
    ∷ []

abbrev input : Input
input = record {
  volume_label = [];
  disc_type = codes "dvd";
  titles = [];
  fingerprint = [];
  content_hash = [];
  disc_name = [];
  disc_name_source = [];
}

normalised : normalise_title ascii (codes "_ROMAN__HOLIDAY ") ≡ codes "roman holiday"
unfolding normalise_title spaced_from trim_space trim_left trim_right
normalised = refl

agreement : (run ascii nets input).best ≡ record by_label {
  year = 1953;
  kind = movie;
  confidence = 65;
  why = codes "read (agreed by label, hash)";
}
unfolding run resolve proposals normalise_title spaced_from trim_space trim_left trim_right
    order_from merge_all merge_sorted agreed detailed distinct joined sort_by insert_by text_eq
agreement = refl

abbrev three : List Candidate
three = by_hash ∷ by_label ∷ short_name ∷ []

three-AtMost : AtMost 95 three
three-AtMost = (omega arith, (omega arith, (omega arith, tt)))

best_is_surest_example :
    (by_hash.confidence ≤ (resolve ascii three).best.confidence)
    × Named three (resolve ascii three).best
best_is_surest_example = best_is_surest ascii three three-AtMost by_hash (inl refl)
