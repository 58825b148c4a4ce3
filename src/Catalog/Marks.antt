-- ===== src/Catalog/Marks.antt =====
-- internal/store/store.go: the rows of titles, as `SaveDisc` writes them and `MarkTitleRipped` marks them.
use hellbox.Base.{
  inl, inr, ℕ, ◌≡◌, ◌⊎◌, refl, ap, subst, Bool, true, List, [], ◌∷◌, arith, if◌then◌else◌, Text,
  any, Bool-cases, In, All,
}
use hellbox.Catalog.{
  Disc, Title, TitleRow, Catalog, append, update_rows, put, title_key, save_title, save_titles,
  save_disc, mark_title_ripped,
}
use hellbox.Catalog.Rows.{Known, save_disc-id}

-- There is a row for the title with this index of a disc.
abbrev pub HasRow : ℕ → ℕ → List TitleRow → Type 0
HasRow disc index rows = (r : TitleRow) × In r rows × (title_key disc index r ≡ true)

-- There is such a row, and it says that the title is ripped and verified.
abbrev pub IsMarked : ℕ → ℕ → List TitleRow → Type 0
IsMarked disc index rows =
    (r : TitleRow) × In r rows
    × (title_key disc index r ≡ true)
    × (r.ripped ≡ true)
    × (r.verified ≡ true)

-- Rows stay, and so do marks.
pub record Grows (old new : List TitleRow) : Type 0 where
  pub rows : (disc index : ℕ) → HasRow disc index old → HasRow disc index new
  pub marks : (disc index : ℕ) → IsMarked disc index old → IsMarked disc index new

pub grow_refl : (rows : List TitleRow) → Grows rows rows
grow_refl rows = record { rows = λ d i h. h; marks = λ d i h. h }

pub grow_trans : {a b c : List TitleRow} → Grows a b → Grows b c → Grows a c
grow_trans p q = record {
  rows = λ d i h. q.rows d i (p.rows d i h);
  marks = λ d i h. q.marks d i (p.marks d i h);
}

update-In :
    (test : TitleRow → Bool) (change : TitleRow → TitleRow) (r : TitleRow) (rows : List TitleRow)
    → In r rows
    → In (if test r then change r else r) (update_rows test change rows)
unfolding update_rows
update-In test change r [] i = absurd i
update-In test change r (x ∷ xs) (inl same) = inl (ap (λ y. if test y then change y else y) same)
update-In test change r (x ∷ xs) (inr i) = inr (update-In test change r xs i)

-- A row of another index is as it was, and one of this index is marked.
mark-row :
    (disc index disc' index' size : ℕ) (r : TitleRow) (rows : List TitleRow)
    → In r rows
    → title_key disc' index' r ≡ true
    → (r' : TitleRow) × In r' (
        update_rows
          (title_key disc index)
          (λ (x : TitleRow). record x { ripped = true; verified = true; size_bytes = size })
          rows)
      × (title_key disc' index' r' ≡ true)
      × (title_key disc index r ≡ true → (r'.ripped ≡ true) × (r'.verified ≡ true))
      × ((r.ripped ≡ true) × (r.verified ≡ true) → (r'.ripped ≡ true) × (r'.verified ≡ true))
unfolding title_key
mark-row disc index disc' index' size r rows i k =
    let change = λ (x : TitleRow). record x { ripped = true; verified = true; size_bytes = size } in
    let found = update-In (title_key disc index) change r rows i in
    elim (Bool-cases (title_key disc index r)) [
      | inl e ↦ (
        change r,
        subst (λ b. In (if b then change r else r) (update_rows (title_key disc index) change rows))
            e found,
        k,
        λ _. (refl, refl),
        λ _. (refl, refl),
      )
      | inr e ↦ (
        r,
        subst (λ b. In (if b then change r else r) (update_rows (title_key disc index) change rows))
            e found,
        k,
        λ t. absurd (cc),
        λ m. m,
      )
    ]

-- `MarkTitleRipped` marks the title's row, if it has one, and takes no mark away.
pub mark_title_ripped-IsMarked :
    (c : Catalog) (disc index size : ℕ)
    → HasRow disc index c.titles
    → IsMarked disc index (mark_title_ripped c disc index size true).titles
unfolding mark_title_ripped
mark_title_ripped-IsMarked c disc index size (r, i, k) =
    let (r', i', k', m, kept) = mark-row disc index disc index size r c.titles i k in
    (r', i', k', (m k).0, (m k).1)

pub mark_title_ripped-Grows :
    (c : Catalog) (disc index size : ℕ)
    → Grows c.titles (mark_title_ripped c disc index size true).titles
unfolding mark_title_ripped
mark_title_ripped-Grows c disc index size = record {
  rows = λ d i (r, n, k).
      let (r', n', k', m, kept) = mark-row disc index d i size r c.titles n k in (r', n', k');
  marks = λ d i (r, n, k, a, b).
      let (r', n', k', m, kept) = mark-row disc index d i size r c.titles n k in
      (r', n', k', (kept (a, b)).0, (kept (a, b)).1);
}

append-In :
    (rows : List TitleRow) (new r : TitleRow) → (r ≡ new) ⊎ In r rows → In r (append rows new)
append-In [] new r i = i
append-In (x ∷ xs) new r (inl same) = inr (append-In xs new r (inl same))
append-In (x ∷ xs) new r (inr (inl same)) = inl same
append-In (x ∷ xs) new r (inr (inr i)) = inr (append-In xs new r (inr i))

any-In :
    (test : TitleRow → Bool) (rows : List TitleRow)
    → any test rows ≡ true
    → (r : TitleRow) × In r rows × (test r ≡ true)
any-In test [] h = absurd (cc)
any-In test (x ∷ xs) h = elim (Bool-cases (test x)) [
  | inl e ↦ (x, inl refl, e)
  | inr e ↦ let (r, i, t) = any-In test xs (rw e at h) in (r, inr i, t)
]

title_key_refl : (r : TitleRow) → title_key r.disc_id r.title_index r ≡ true
unfolding title_key
title_key_refl r = ground arith

-- A change of a row that keeps its key.
abbrev KeepsKey : (TitleRow → TitleRow) → Type 0
KeepsKey change =
    (r : TitleRow) → ((change r).disc_id ≡ r.disc_id) × ((change r).title_index ≡ r.title_index)

changed-row :
    (test : TitleRow → Bool) (change : TitleRow → TitleRow) (disc index : ℕ) (rows : List TitleRow)
    → KeepsKey change
    → HasRow disc index rows
    → HasRow disc index (update_rows test change rows)
unfolding title_key
changed-row test change disc index rows keep (r, i, k) =
    (if test r then change r else r, update-In test change r rows i, ground (arith, keep r, k))

put-HasRow :
    (test : TitleRow → Bool) (change : TitleRow → TitleRow) (new : TitleRow) (disc index : ℕ)
    (rows : List TitleRow)
    → KeepsKey change
    → HasRow disc index rows
    → HasRow disc index (put test change new rows)
unfolding put
put-HasRow test change new disc index rows keep h = elim (Bool-cases (any test rows)) [
  | inl e ↦ rw e (changed-row test change disc index rows keep h)
  | inr e ↦ rw e (h.0, append-In rows new h.0 (inr h.1), h.2)
]

put-finds :
    (change : TitleRow → TitleRow) (new : TitleRow) (rows : List TitleRow)
    → KeepsKey change
    → HasRow new.disc_id new.title_index
        (put (title_key new.disc_id new.title_index) change new rows)
unfolding put
put-finds change new rows keep =
    let test = title_key new.disc_id new.title_index in
    elim (Bool-cases (any test rows)) [
      | inl e ↦
          rw e (changed-row test change new.disc_id new.title_index rows keep (any-In test rows e))
      | inr e ↦ rw e (new, append-In rows new new (inl refl), title_key_refl new)
    ]

save_title-keeps :
    (id disc index : ℕ) (c : Catalog) (t : Title)
    → HasRow disc index c.titles
    → HasRow disc index (save_title id c t).titles
unfolding save_title
save_title-keeps id disc index c t h = put-HasRow _ _ _ disc index c.titles (λ r. (refl, refl)) h

save_titles-keeps :
    (id disc index : ℕ) (c : Catalog) (ts : List Title)
    → HasRow disc index c.titles
    → HasRow disc index (save_titles id c ts).titles
unfolding save_titles
save_titles-keeps id disc index c [] h = h
save_titles-keeps id disc index c (t ∷ ts) h =
    save_titles-keeps id disc index (save_title id c t) ts (save_title-keeps id disc index c t h)

save_title-HasRow :
    (id : ℕ) (c : Catalog) (t : Title) → HasRow id t.index (save_title id c t).titles
unfolding save_title
save_title-HasRow id c t = put-finds _ _ c.titles (λ r. (refl, refl))

save_titles-HasRow :
    (id : ℕ) (c : Catalog) (ts : List Title)
    → All (λ (t : Title). HasRow id t.index (save_titles id c ts).titles) ts
unfolding save_titles
save_titles-HasRow id c [] = tt
save_titles-HasRow id c (t ∷ ts) =
    let c' = save_title id c t in
    (save_titles-keeps id id t.index c' ts (save_title-HasRow id c t), save_titles-HasRow id c' ts)

-- Saving a scan of a disc that is known gives each title of the scan a row.
pub save_disc-HasRow :
    (c : Catalog) (d : Disc) (raw : Text) (now id : ℕ)
    → Known d.fingerprint id c.discs
    → All (λ (t : Title). HasRow id t.index (save_disc c d raw now).1.titles) d.titles
unfolding save_disc
save_disc-HasRow c d raw now id k =
    subst (λ n. All (λ (t : Title). HasRow n t.index (save_disc c d raw now).1.titles) d.titles)
      (save_disc-id c d raw now id k) (save_titles-HasRow (save_disc c d raw now).0 _ d.titles)
