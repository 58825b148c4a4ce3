-- ===== src/Catalog/Rows.antt =====
-- internal/store/store.go: what the statements do to the row of a disc.
use hellbox.Base.{
  inl, inr, ℕ, ◌≡◌, ◌⊎◌, refl, ◌∙◌, Bool, true, false, List, [], ◌∷◌, none, some, some_inj, sym, ap,
  length, filter, arith, if◌then◌else◌, Text, text_eq, text_eq_iff, any, Bool-cases, ==_iff, ◌==◌,
}
use hellbox.Catalog.{
  forgotten_after, counts_as_attempt, attempts_for_disc, Disc, Title, DiscRow, Catalog, append,
  update_rows, put, find_row, find_disc, put_disc, id_of, save_title, save_titles, save_disc,
  set_rip_dir, is_ripped,
}

-- The row that a fingerprint finds has this id.
abbrev pub Known : Text → ℕ → List DiscRow → Type 0
Known fp id ds = (r : DiscRow) × (find_row fp ds ≡ some r) × (r.id ≡ id)

abbrev pub Ripped : Text → List DiscRow → Type 0
Ripped fp ds = (r : DiscRow) × (find_row fp ds ≡ some r) × (is_ripped r ≡ true)

text_eq_refl : (t : Text) → text_eq t t ≡ true
text_eq_refl t = (text_eq_iff t t).1 refl

find_row-append :
    (new : DiscRow) (ds : List DiscRow)
    → any (λ (r : DiscRow). text_eq r.fingerprint new.fingerprint) ds ≡ false
    → find_row new.fingerprint (append ds new) ≡ some new
unfolding find_row
find_row-append new [] h = rw (text_eq_refl new.fingerprint) refl
find_row-append new (d ∷ ds) h = ground (arith, find_row-append new ds)

-- An update that keeps the fingerprints finds the updated row.
pub find_row-update_rows :
    (fp : Text) (test : DiscRow → Bool) (change : DiscRow → DiscRow) (ds : List DiscRow)
    (r : DiscRow)
    → ((d : DiscRow) → (change d).fingerprint ≡ d.fingerprint)
    → find_row fp ds ≡ some r
    → find_row fp (update_rows test change ds) ≡ some (if test r then change r else r)
unfolding find_row update_rows
find_row-update_rows fp test change [] r same h = absurd (cc)
find_row-update_rows fp test change (d ∷ ds) r same h =
    ground (arith, same d, find_row-update_rows fp test change ds r same)

if_keeps {ℓ} :
    {A : Type ℓ} (f : DiscRow → A) (r' r : DiscRow) (b : Bool)
    → f r' ≡ f r
    → f (if b then r' else r) ≡ f r
if_keeps f r' r true h = h
if_keeps f r' r false h = refl

save_titles-discs : (id : ℕ) (c : Catalog) (ts : List Title) → (save_titles id c ts).discs ≡ c.discs
unfolding save_titles save_title
save_titles-discs id c [] = refl
save_titles-discs id c (t ∷ ts) = save_titles-discs id (save_title id c t) ts

find_row-cases :
    (fp : Text) (ds : List DiscRow)
    → ((r : DiscRow) × (find_row fp ds ≡ some r)
        × (any (λ (d : DiscRow). text_eq d.fingerprint fp) ds ≡ true))
      ⊎ ((find_row fp ds ≡ none) × (any (λ (d : DiscRow). text_eq d.fingerprint fp) ds ≡ false))
unfolding find_row
find_row-cases fp [] = inr (refl, refl)
find_row-cases fp (d ∷ ds) = elim (Bool-cases (text_eq d.fingerprint fp)) [
  | inl e ↦ inl (d, rw e refl, rw e refl)
  | inr e ↦ elim (find_row-cases fp ds) [
    | inl (r, f, a) ↦ inl (r, rw e f, rw e a)
    | inr (f, a) ↦ inr (rw e f, rw e a)
  ]
]

-- A scan of a known disc keeps its row's id and its directory.
put_disc-known :
    (d : Disc) (raw : Text) (now : ℕ) (ds : List DiscRow) (r : DiscRow)
    → find_row d.fingerprint ds ≡ some r
    → (r' : DiscRow) × (find_row d.fingerprint (put_disc d raw now ds) ≡ some r')
      × (r'.id ≡ r.id)
      × (r'.rip_dir ≡ r.rip_dir)
unfolding put_disc put
put_disc-known d raw now ds r h = elim (find_row-cases d.fingerprint ds) [
  | inr (f, a) ↦ absurd (cc)
  | inl (q, f, a) ↦ rw a (
      let found = find_row-update_rows d.fingerprint _ _ ds r (λ x. refl) h in
      (
        _,
        found,
        if_keeps (λ (x : DiscRow). x.id) _ r (text_eq r.fingerprint d.fingerprint) refl,
        if_keeps (λ (x : DiscRow). x.rip_dir) _ r (text_eq r.fingerprint d.fingerprint) refl,
      ))
]

-- A disc that was not known gets a row without a directory.
put_disc-new :
    (d : Disc) (raw : Text) (now : ℕ) (ds : List DiscRow)
    → find_row d.fingerprint ds ≡ none
    → (r' : DiscRow) × (find_row d.fingerprint (put_disc d raw now ds) ≡ some r')
      × (r'.rip_dir ≡ none)
unfolding put_disc put
put_disc-new d raw now ds h = elim (find_row-cases d.fingerprint ds) [
  | inl (q, f, a) ↦ absurd (cc)
  | inr (f, a) ↦ rw a (_, find_row-append _ ds a, refl)
]

-- Saving a scan finds the disc from then on, under the id that it returns. A disc that was known
-- keeps its id and its directory, so scanning a disc again neither loses a rip nor makes one up.
pub save_disc_keeps :
    (c : Catalog) (d : Disc) (raw : Text) (now : ℕ)
    → Known d.fingerprint (save_disc c d raw now).0 (save_disc c d raw now).1.discs
      × ((r : DiscRow)
          → find_disc c d.fingerprint ≡ some r
          → (r' : DiscRow) × (find_disc (save_disc c d raw now).1 d.fingerprint ≡ some r')
            × (r'.id ≡ r.id)
            × (r'.rip_dir ≡ r.rip_dir))
      × (find_disc c d.fingerprint ≡ none
          → (r' : DiscRow) × (find_disc (save_disc c d raw now).1 d.fingerprint ≡ some r')
            × (r'.rip_dir ≡ none))
unfolding save_disc find_disc id_of
save_disc_keeps c d raw now =
    let discs = put_disc d raw now c.discs in
    let id = id_of (find_row d.fingerprint discs) in
    let rows = save_titles-discs id (record c { discs = discs }) d.titles in
    rw rows (
      elim (find_row-cases d.fingerprint c.discs) [
        | inl (r, f, a) ↦
            let (r', f', i, p) = put_disc-known d raw now c.discs r f in (r', f', rw f' refl)
        | inr (f, a) ↦ let (r', f', p) = put_disc-new d raw now c.discs f in (r', f', rw f' refl)
      ],
      λ r f. put_disc-known d raw now c.discs r f,
      λ f. put_disc-new d raw now c.discs f,
    )

-- A second scan keeps the id under which a disc is known.
pub save_disc-Known :
    (c : Catalog) (d : Disc) (raw : Text) (now id : ℕ)
    → Known d.fingerprint id c.discs
    → Known d.fingerprint id (save_disc c d raw now).1.discs
unfolding find_disc
save_disc-Known c d raw now id (r, f, i) =
    let (r', f', i', p) = (save_disc_keeps c d raw now).1 r f in (r', f', i' ∙ i)

-- Recording a directory makes the disc a ripped one.
pub set_rip_dir-Ripped :
    (c : Catalog) (fp : Text) (id : ℕ) (dir : Text)
    → Known fp id c.discs
    → text_eq dir [] ≡ false
    → Ripped fp (set_rip_dir c id dir).discs
unfolding set_rip_dir is_ripped
set_rip_dir-Ripped c fp id dir (r, f, i) h =
    let same = (==_iff r.id id).1 i in
    let filed = λ (d : DiscRow). record d { rip_dir = some dir } in
    let found =
      find_row-update_rows fp (λ (d : DiscRow). d.id == id) filed c.discs r (λ x. refl) f in
    (filed r, found ∙ rw same refl, rw h refl)

-- Saving a disc that is known gives its id.
pub save_disc-id :
    (c : Catalog) (d : Disc) (raw : Text) (now id : ℕ)
    → Known d.fingerprint id c.discs
    → (save_disc c d raw now).0 ≡ id
unfolding find_disc
save_disc-id c d raw now id (r, f, i) =
    let ((q, found, same), keeps, fresh) = save_disc_keeps c d raw now in
    let (q', found', same', dir) = keeps r f in
    sym same ∙ ap (λ (x : DiscRow). x.id) (some_inj (sym found ∙ found')) ∙ same' ∙ i

save_titles-jobs : (id : ℕ) (c : Catalog) (ts : List Title) → (save_titles id c ts).jobs ≡ c.jobs
unfolding save_titles save_title
save_titles-jobs id c [] = refl
save_titles-jobs id c (t ∷ ts) = save_titles-jobs id (save_title id c t) ts

pub save_disc-jobs :
    (c : Catalog) (d : Disc) (raw : Text) (now : ℕ) → (save_disc c d raw now).1.jobs ≡ c.jobs
unfolding save_disc
save_disc-jobs c d raw now = save_titles-jobs _ _ d.titles

forgotten-update :
    (id : ℕ) (test : DiscRow → Bool) (change : DiscRow → DiscRow) (ds : List DiscRow)
    → ((d : DiscRow)
        → ((change d).id ≡ d.id) × ((change d).forgotten_after_job ≡ d.forgotten_after_job))
    → forgotten_after id (update_rows test change ds) ≡ forgotten_after id ds
unfolding forgotten_after update_rows
forgotten-update id test change [] keep = refl
forgotten-update id test change (d ∷ ds) keep =
    let rest = forgotten-update id test change ds keep in
    let (same, left) = keep d in
    elim (Bool-cases (test d)) [ inl e ↦ rw (e, same, left, rest) refl | inr e ↦ rw (e, rest) refl ]

put_disc-forgotten :
    (d : Disc) (raw : Text) (now id : ℕ) (ds : List DiscRow) (r : DiscRow)
    → find_row d.fingerprint ds ≡ some r
    → forgotten_after id (put_disc d raw now ds) ≡ forgotten_after id ds
unfolding put_disc put
put_disc-forgotten d raw now id ds r h = elim (find_row-cases d.fingerprint ds) [
  | inr (f, a) ↦ absurd (cc)
  | inl (q, f, a) ↦ rw a (forgotten-update id _ _ ds (λ x. (refl, refl)))
]

-- Saving a disc that is known forgets and adds no attempt.
pub save_disc-attempts :
    (c : Catalog) (d : Disc) (raw : Text) (now id n : ℕ)
    → Known d.fingerprint id c.discs
    → attempts_for_disc (save_disc c d raw now).1 n ≡ attempts_for_disc c n
unfolding save_disc attempts_for_disc
save_disc-attempts c d raw now id n (r, f, i) =
    let discs = put_disc d raw now c.discs in
    let key = id_of (find_row d.fingerprint discs) in
    let start : Catalog = record c { discs = discs } in
    let jobs = save_titles-jobs key start d.titles in
    let kept = save_titles-discs key start d.titles in
    let same = ap (forgotten_after n) kept ∙ put_disc-forgotten d raw now n c.discs r f in
    (λ k. length (filter (counts_as_attempt n (same k)) (jobs k)))
