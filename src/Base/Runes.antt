-- ===== src/Base/Runes.antt =====
-- What the program asks of the tables of the package unicode, and the functions of the package
-- strings that go through a text by them.
use Prim.Native.Nat.{ℕ, ◌+◌, ◌-◌}
use mathlib.Core.Bool.{Bool, true, false, ◌&&◌, ◌||◌}
use mathlib.Core.List.{List, [], ◌∷◌, ◌++◌}
use hellbox.Base.Tests.{if◌then◌else◌, ◌==◌, leb}
use hellbox.Base.Texts.{Text}

pub record Unicode : Type 0 where
  pub is_space : ℕ → Bool
  pub is_digit : ℕ → Bool
  pub is_lower : ℕ → Bool
  pub is_letter : ℕ → Bool
  pub is_control : ℕ → Bool
  pub is_print : ℕ → Bool
  pub to_lower : ℕ → ℕ
  pub to_upper : ℕ → ℕ
  -- One of the runes that simple case folding takes for equal.
  pub fold : ℕ → ℕ

-- `strings.ToLower`
abbrev pub lower : Unicode → Text → Text
lower u [] = []
lower u (c ∷ s) = u.to_lower c ∷ lower u s

abbrev pub fold_text : Unicode → Text → Text
fold_text u [] = []
fold_text u (c ∷ s) = u.fold c ∷ fold_text u s

unfoldable pub trim_left : Unicode → Text → Text
trim_left u [] = []
trim_left u (c ∷ s) = let rest = trim_left u s in if u.is_space c then rest else c ∷ s

unfoldable pub trim_right : Unicode → Text → Text
trim_right u [] = []
trim_right u (c ∷ s) = elim (trim_right u s) [
  | [] ↦ if u.is_space c then [] else c ∷ []
  | d ∷ r ↦ c ∷ d ∷ r
]

-- `strings.TrimSpace`
unfoldable pub trim_space : Unicode → Text → Text
unfolding trim_left trim_right
trim_space u s = trim_left u (trim_right u s)

abbrev pub starts_with : Text → Text → Bool
starts_with [] s = true
starts_with (p ∷ ps) [] = false
starts_with (p ∷ ps) (c ∷ s) = p == c && starts_with ps s

-- `strings.Contains`, what is looked for first
unfoldable pub has_part : Text → Text → Bool
has_part p [] = starts_with p []
has_part p (c ∷ s) = starts_with p (c ∷ s) || has_part p s

-- The word that stands first, put before the words after it.
abbrev pub grow : Unicode → ℕ → Text → List Text → List Text
grow u c [] words = (c ∷ []) ∷ words
grow u c (d ∷ s) [] = (c ∷ []) ∷ []
grow u c (d ∷ s) (w ∷ ws) = if u.is_space d then (c ∷ []) ∷ w ∷ ws else (c ∷ w) ∷ ws

-- `strings.Fields`
unfoldable pub fields : Unicode → Text → List Text
fields u [] = []
fields u (c ∷ s) = let rest = fields u s in if u.is_space c then rest else grow u c s rest

-- `strings.Join` with a separator of one rune
unfoldable pub join_with : ℕ → List Text → Text
join_with sep [] = []
join_with sep (w ∷ []) = w
join_with sep (w ∷ v ∷ ws) = w ++ (sep ∷ join_with sep (v ∷ ws))

abbrev lower_ascii : ℕ → ℕ
lower_ascii c = if leb b'A' c && leb c b'Z' then c + 32 else c

-- The tables for the runes of ASCII.
abbrev pub ascii : Unicode
ascii = record {
  is_space = λ c. leb 9 c && leb c 13 || c == 32;
  is_digit = λ c. leb b'0' c && leb c b'9';
  is_lower = λ c. leb b'a' c && leb c b'z';
  is_letter = λ c. (leb b'a' c && leb c b'z') || (leb b'A' c && leb c b'Z');
  is_control = λ c. leb c 31 || c == 127;
  is_print = λ c. leb 32 c && leb c 126;
  to_lower = lower_ascii;
  to_upper = λ c. if leb b'a' c && leb c b'z' then c - 32 else c;
  fold = lower_ascii;
}
