-- ===== src/Evidence.antt =====
-- internal/identify/identify.go: what the nets that look at a disc conclude together. A net is its name and
-- its answer, where an error, which is dropped, is `none`. A confidence is a number of hundredths.
pub mod Surest
mod Tests
use hellbox.Base.{
  ℕ, ◌+◌, ◌-◌, ◌*◌, Bool, true, false, not, ◌&&◌, ◌||◌, List, [], ◌∷◌, ◌++◌, Option, none, some,
  ltb, leb, ◌==◌, if◌then◌else◌, Text, codes, text_eq, any, filter, length, map, sort_by, Unicode,
  lower, trim_space,
}

pub data Kind : Type 0 where
  unknown : Kind
  movie : Kind
  series : Kind

pub record Input : Type 0 where
  pub volume_label : Text
  pub disc_type : Text
  pub titles : List ℕ
  pub fingerprint : Text
  pub content_hash : Text
  pub disc_name : Text
  pub disc_name_source : Text

pub record Candidate : Type 0 where
  pub title : Text
  pub year : ℕ
  pub kind : Kind
  pub season : ℕ
  pub disc : ℕ
  pub net : Text
  pub confidence : ℕ
  pub why : Text

pub record Net : Type 0 where
  pub name : Text
  pub identify : Input → Option (List Candidate)

pub record Conclusion : Type 0 where
  pub best : Candidate
  pub all : List Candidate
  pub is_contested : Bool

-- The test of `normaliseTitle` for what it keeps.
abbrev is_plain : ℕ → Bool
is_plain c = leb 97 c && leb c 122 || leb 48 c && leb c 57

-- The loop of `normaliseTitle`, by whether a space came last and whether anything was written.
unfoldable pub spaced_from : Bool → Bool → Text → Text
spaced_from last_space written [] = []
spaced_from last_space written (c ∷ cs) = elim (is_plain c) [
  | true ↦ c ∷ spaced_from false true cs
  | false ↦ elim (not last_space && written) [
    | true ↦ 32 ∷ spaced_from true written cs
    | false ↦ spaced_from last_space written cs
  ]
]

-- `normaliseTitle`
unfoldable pub normalise_title : Unicode → Text → Text
unfolding spaced_from
normalise_title u s = trim_space u (spaced_from false false (lower u (trim_space u s)))

abbrev pub key_of : Unicode → Candidate → Text
key_of u c = normalise_title u c.title

-- `order` in `Resolve`, with the keys that have been seen.
unfoldable pub order_from : Unicode → List Text → List Candidate → List Text
order_from u seen [] = []
order_from u seen (c ∷ cs) = elim (any (text_eq (key_of u c)) seen) [
  | true ↦ order_from u seen cs
  | false ↦ key_of u c ∷ order_from u (key_of u c ∷ seen) cs
]

abbrev pub group : Unicode → List Candidate → Text → List Candidate
group u cs k = filter (λ c. text_eq (key_of u c) k) cs

abbrev pub surer : Candidate → Candidate → Bool
surer a b = ltb b.confidence a.confidence

-- The keys of the map `nets` in `mergeGroup`.
unfoldable pub distinct : List Text → List Candidate → List Text
distinct seen [] = seen
distinct seen (c ∷ cs) = distinct (if any (text_eq c.net) seen then seen else c.net ∷ seen) cs

unfoldable pub joined : List Text → Text
joined [] = []
joined (x ∷ []) = x
joined (x ∷ y ∷ ys) = x ++ (codes ", " ++ joined (y ∷ ys))

abbrev pub raised : ℕ → ℕ → ℕ
raised confidence nets = let more = confidence + 15 * (nets - 1) in if ltb 95 more then 95 else more

-- The leader of a group, with what the agreement of several nets adds to it.
unfoldable pub agreed : Candidate → List Candidate → Candidate
unfolding distinct joined
agreed best g =
    let nets = length (distinct [] g) in
    if ltb 1 nets
    then record best {
      confidence = raised best.confidence nets;
      why = best.why ++ (codes " (agreed by " ++ (joined (map (λ c. c.net) g) ++ codes ")"));
    }
    else best

abbrev number_or : ℕ → ℕ → ℕ
number_or n other = if n == 0 then other else n

abbrev kind_or : Kind → Kind → Kind
kind_or unknown other = other
kind_or movie other = movie
kind_or series other = series

-- The details that the leader lacks, taken from one other.
abbrev pub with_details : Candidate → Candidate → Candidate
with_details best c = record best {
  year = number_or best.year c.year;
  season = number_or best.season c.season;
  disc = number_or best.disc c.disc;
  kind = kind_or best.kind c.kind;
}

unfoldable pub detailed : Candidate → List Candidate → Candidate
detailed best [] = best
detailed best (c ∷ cs) = detailed (with_details best c) cs

unfoldable pub merge_sorted : List Candidate → Option Candidate
unfolding agreed detailed
merge_sorted [] = none
merge_sorted (best ∷ []) = some best
merge_sorted (best ∷ c ∷ cs) = some (detailed (agreed best (best ∷ c ∷ cs)) (c ∷ cs))

-- `mergeGroup`; of no candidate there is nothing.
abbrev pub merge_group : List Candidate → Option Candidate
merge_group g = merge_sorted (sort_by surer g)

-- The loop of `Resolve` that merges each group.
unfoldable pub merge_all : Unicode → List Candidate → List Text → List Candidate
unfolding merge_sorted sort_by
merge_all u cs [] = []
merge_all u cs (k ∷ ks) =
    let rest = merge_all u cs ks in
    elim (merge_group (group u cs k)) [ none ↦ rest | some m ↦ m ∷ rest ]

abbrev pub no_candidate : Candidate
no_candidate = record {
  title = [];
  year = 0;
  kind = unknown;
  season = 0;
  disc = 0;
  net = [];
  confidence = 0;
  why = [];
}

-- Whether the second is close behind the first.
abbrev is_close : Candidate → List Candidate → Bool
is_close first [] = false
is_close first (second ∷ ms) = ltb (first.confidence - second.confidence) 20

abbrev pub conclusion : List Candidate → Conclusion
conclusion [] = record { best = no_candidate; all = []; is_contested = false }
conclusion (m ∷ ms) = record { best = m; all = m ∷ ms; is_contested = is_close m ms }

-- `Resolve`
unfoldable pub resolve : Unicode → List Candidate → Conclusion
unfolding order_from merge_all sort_by
resolve u cs = conclusion (sort_by surer (merge_all u cs (order_from u [] cs)))

-- What one net adds to `all` in `Run`.
abbrev pub signed_by : Net → Candidate → Candidate
signed_by n c = if text_eq c.net [] then record c { net = n.name } else c

abbrev pub has_title : Unicode → Candidate → Bool
has_title u c = not (text_eq (trim_space u c.title) [])

unfoldable pub proposals : Unicode → List Net → Input → List Candidate
proposals u [] input = []
proposals u (n ∷ ns) input = elim (n.identify input) [
  | none ↦ proposals u ns input
  | some cs ↦ filter (has_title u) (map (signed_by n) cs) ++ proposals u ns input
]

-- `Run`; it returns no error.
unfoldable pub run : Unicode → List Net → Input → Conclusion
unfolding proposals
run u nets input = resolve u (proposals u nets input)
