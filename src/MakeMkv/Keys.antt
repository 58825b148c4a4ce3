-- ===== src/MakeMkv/Keys.antt =====
-- internal/makemkv/makemkv.go: the state of the registration key told from the messages.
use hellbox.Base.{
  Bool, true, false, not, ◌&&◌, ◌||◌, List, [], ◌∷◌, ◌++◌, Option, none, some, ◌≡◌, refl, ap, arith,
  Bool-cases, inl, inr, Unicode,
}
use hellbox.MakeMkv.Lines.{Message}
use hellbox.MakeMkv.Messages.{
  KeyStatus, is_key_code, says_too_old, says_expired, says_missing, status_by_code, status_by_prose,
  key_status_from_messages,
}

-- A message with neither a code nor words that are about the key.
abbrev pub is_harmless : Unicode → Message → Bool
is_harmless u m = not (is_key_code m) && not (says_expired u m.text || says_missing u m.text)

-- The key as `CheckKey` reports it where nothing is wrong.
abbrev pub is_accepted : KeyStatus → Bool
is_accepted s = s.present && not s.expired

abbrev pub all_harmless : Unicode → List Message → Bool
all_harmless u [] = true
all_harmless u (m ∷ ms) = is_harmless u m && all_harmless u ms

abbrev pub all_harmless_code : List Message → Bool
all_harmless_code [] = true
all_harmless_code (m ∷ ms) = not (is_key_code m) && all_harmless_code ms

-- What the first loop finds, or else another verdict.
abbrev answer : Option KeyStatus → KeyStatus → KeyStatus
answer o other = elim o [ some status ↦ status | none ↦ other ]

refused_answer :
    (u : Unicode) (ms : List Message) (other : KeyStatus)
    → is_accepted other ≡ false
    → is_accepted (answer (status_by_code u ms) other) ≡ false
unfolding status_by_code
refused_answer u [] other h = h
refused_answer u (m ∷ ms) other h = elim (Bool-cases (is_key_code m)) [
  | inl k ↦ rw k refl
  | inr k ↦ rw k (refused_answer u ms other h)
]

answer_accepted :
    (u : Unicode) (ms : List Message)
    → is_accepted (answer (status_by_code u ms) (status_by_prose u ms)) ≡ all_harmless u ms
unfolding status_by_code status_by_prose
answer_accepted u [] = refl
answer_accepted u (m ∷ ms) = elim (Bool-cases (is_key_code m)) [
  | inl k ↦ rw k refl
  | inr k ↦ elim (Bool-cases (says_expired u m.text)) [
    | inl e ↦ rw (k, e) (refused_answer u ms _ refl)
    | inr e ↦ elim (Bool-cases (says_missing u m.text)) [
      | inl g ↦ rw (k, e, g) (refused_answer u ms _ refl)
      | inr g ↦ rw (k, e, g) (answer_accepted u ms)
    ]
  ]
]

-- The key is reported as accepted exactly if no message has a code or words that say otherwise.
pub key_status_accepted :
    (u : Unicode) (ms : List Message)
    → is_accepted (key_status_from_messages u ms) ≡ all_harmless u ms
unfolding key_status_from_messages
key_status_accepted u ms = answer_accepted u ms

coded_first :
    (u : Unicode) (before after : List Message) (m : Message)
    → all_harmless_code before ≡ true
    → is_key_code m ≡ true
    → status_by_code u (before ++ m ∷ after)
      ≡ some (record {
        present = true;
        expired = true;
        detail = m.text;
        version_too_old = says_too_old u m.text;
      })
unfolding status_by_code
coded_first u [] after m h k = rw k refl
coded_first u (b ∷ bs) after m h k = elim (Bool-cases (is_key_code b)) [
  | inl c ↦ absurd (ground arith)
  | inr c ↦ rw c (coded_first u bs after m (ground arith) k)
]

-- The first message with a code about the key decides, whatever the words around it: the key is taken
-- for expired, and MakeMKV for too old exactly if that message says so.
code_decides :
    (u : Unicode) (before after : List Message) (m : Message)
    → all_harmless_code before ≡ true
    → is_key_code m ≡ true
    → key_status_from_messages u (before ++ m ∷ after) ≡ record {
      present = true;
      expired = true;
      detail = m.text;
      version_too_old = says_too_old u m.text;
    }
unfolding key_status_from_messages
code_decides u before after m h k =
    ap (λ o. answer o (status_by_prose u (before ++ m ∷ after))) (coded_first u before after m h k)
