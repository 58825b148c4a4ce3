-- ===== src/Runner/Catching.antt =====
-- internal/daemon/library.go: that the library catches up on what is not filed.
use hellbox.Base.{
  ℕ, ◌≡◌, refl, sym, ap, subst, ◌∙◌, Bool, true, false, List, [], ◌∷◌, Option, none, some, arith,
  inl, inr, Bool-cases, filter, All, All-map, In, In-All, filter-In, Text, Unicode, if◌then◌else◌,
  sort_by, In-sort_by, All-sort_by,
}
use hellbox.Catalog.{Catalog}
use hellbox.Transcodes.{
  Job, Link, Store, find_link, put_link, record_library_link, is_unfiled, unfiled_transcodes,
  is_some,
}
use hellbox.Library.Naming.{
  Placement, Files, file_at, Linked, linked, already_there, link_failed, link, link_steps,
}
use hellbox.Runner.{
  Settings, Daemon, Paths, Disk, store_of, record_link, after_link, path_of, file_at_placement,
  placement_in, read_disc, read_unfiled, disc_with_titles, file_title, file_output, file_each,
  file_unfiled, by_disc_and_title,
}
use hellbox.Runner.Drain.{Kept, file_title-Kept}
use hellbox.Runner.Filing.{Keeps, title-Keeps}

-- Whether a title has a link.
abbrev Filed : ℕ → ℕ → List Link → Type 0
Filed disc i links = is_some (find_link disc i links) ≡ true

put_link-Filed :
    (new : Link) (links : List Link) → Filed new.disc_id new.title_index (put_link new links)
unfolding put_link find_link
put_link-Filed new [] = ground arith
put_link-Filed new (l ∷ ls) = ground (arith, put_link-Filed new ls)

put_link-keeps :
    (new : Link) (disc i : ℕ) (links : List Link)
    → Filed disc i links
    → Filed disc i (put_link new links)
unfolding put_link find_link
put_link-keeps new disc i [] h = cc
put_link-keeps new disc i (l ∷ ls) h = ground (arith, put_link-keeps new disc i ls)

-- A disk on which linking and recording succeed, for a daemon that goes on.
pub record IsWorking (k : Disk) : Type 0 where
  pub makes : (path : Text) → k.mkdir_error path ≡ none
  pub links : (path : Text) → k.link_error path ≡ none
  pub records : k.record_fails ≡ false
  pub lists : k.unfiled_fails ≡ false
  pub reads : (disc : ℕ) → k.disc_fails disc ≡ false
  pub goes_on : (disc i : ℕ) → k.ended disc i ≡ false

record_link-Filed :
    (k : Disk) (d : Daemon) (disc i : ℕ) (path : Text)
    → k.record_fails ≡ false
    → Filed disc i (record_link k d disc i path).links
unfolding record_link record_library_link
record_link-Filed k d disc i path works = rw works (put_link-Filed _ d.links)

record_link-keeps :
    (k : Disk) (d : Daemon) (disc i : ℕ) (path : Text) (disc' i' : ℕ)
    → Filed disc' i' d.links
    → Filed disc' i' (record_link k d disc i path).links
unfolding record_link record_library_link
record_link-keeps k d disc i path disc' i' h = elim (Bool-cases k.record_fails) [
  | inl e ↦ rw e h
  | inr e ↦ rw e (put_link-keeps _ disc' i' d.links h)
]

after_link-keeps :
    (k : Disk) (d : Daemon) (disc i : ℕ) (path : Text) (l : Linked) (disc' i' : ℕ)
    → Filed disc' i' d.links
    → Filed disc' i' (after_link k d disc i path l).links
unfolding after_link
after_link-keeps k d disc i path (linked fs) disc' i' h =
    record_link-keeps k (record d { files = fs }) disc i path disc' i' h
after_link-keeps k d disc i path already_there disc' i' h =
    record_link-keeps k d disc i path disc' i' h
after_link-keeps k d disc i path (link_failed e) disc' i' h = h

title-keeps_links :
    (u : Unicode) (cfg : Settings) (paths : Paths) (k : Disk) (d : Daemon) (disc i : ℕ)
    (source : Text) (disc' i' : ℕ)
    → Filed disc' i' d.links
    → Filed disc' i' (file_title u cfg paths k d disc i source).links
unfolding file_title
title-keeps_links u cfg paths k d disc i source disc' i' h =
    go cfg.file_to_library (placement_in u i (read_disc k d.catalog disc))
  where
    placed :
        (o : Option Placement)
        → Filed disc' i' (file_at_placement cfg paths k d disc i source o).links
    placed none = h
    placed (some p) = after_link-keeps k d disc i _ _ disc' i' h

    go :
        (b : Bool) (o : Option Placement)
        → Filed disc' i' (if b then file_at_placement cfg paths k d disc i source o else d).links
    go true o = placed o
    go false o = h

-- A link of a source that is there succeeds, or finds the path taken.
link_made :
    (k : Disk) (d : Daemon) (disc i : ℕ) (source path : Text) (n : ℕ)
    → IsWorking k
    → file_at source d.files ≡ some n
    → Filed disc i
        (after_link k d disc i path (link k.mkdir_error k.link_error d.files source path)).links
unfolding link after_link
link_made k d disc i source path n w there = go (file_at path d.files)
  where
    made :
        (o : Option Text) (found : Option ℕ) (broken : Option Text) (file : Option ℕ)
        → o ≡ none
        → broken ≡ none
        → file ≡ some n
        → Filed disc i
            (after_link k d disc i path (link_steps o found broken file d.files path)).links
    made (some e) found broken file x y z = absurd (cc)
    made none (some m) broken file x y z = record_link-Filed k d disc i path w.records
    made none none (some e) file x y z = absurd (cc)
    made none none none none x y z = absurd (cc)
    made none none none (some m) x y z = record_link-Filed k _ disc i path w.records

    go :
        (found : Option ℕ)
        → Filed disc i
            (after_link k d disc i path (
              link_steps
                (k.mkdir_error path)
                found
                (k.link_error path)
                (file_at source d.files)
                d.files
                path)).links
    go found =
        made (k.mkdir_error path) found (k.link_error path) (file_at source d.files) (w.makes path)
          (w.links path) there

disc_read :
    (k : Disk) (c : Catalog) (disc : ℕ) → IsWorking k → read_disc k c disc ≡ disc_with_titles c disc
unfolding read_disc
disc_read k c disc w = rw (w.reads disc) refl

unfiled_read :
    (k : Disk) (d : Daemon)
    → IsWorking k
    → read_unfiled k d ≡ sort_by by_disc_and_title (unfiled_transcodes (store_of d))
unfolding read_unfiled
unfiled_read k d w = rw w.lists refl

-- A title that has a place in its disc's plan and whose file is there is filed.
title-Filed :
    (u : Unicode) (cfg : Settings) (paths : Paths) (k : Disk) (d : Daemon) (disc i : ℕ)
    (source : Text) (n : ℕ) (p : Placement)
    → cfg.file_to_library ≡ true
    → IsWorking k
    → file_at source d.files ≡ some n
    → placement_in u i (disc_with_titles d.catalog disc) ≡ some p
    → Filed disc i (file_title u cfg paths k d disc i source).links
unfolding file_title file_at_placement
title-Filed u cfg paths k d disc i source n p on w there place =
    go cfg.file_to_library (placement_in u i (read_disc k d.catalog disc)) on
      (ap (placement_in u i) (disc_read k d.catalog disc w) ∙ place)
  where
    go :
        (b : Bool) (o : Option Placement)
        → b ≡ true
        → o ≡ some p
        → Filed disc i (if b then file_at_placement cfg paths k d disc i source o else d).links
    go true (some q) x y = link_made k d disc i source (path_of cfg paths q) n w there
    go true none x y = absurd (cc)
    go false o x y = absurd (cc)

-- A job whose output is on disk and whose title has a place in the library.
abbrev pub IsFileable : Unicode → Catalog → Files → Job → Type 0
IsFileable u c files j =
    (output : Text) × (n : ℕ) × (p : Placement) × (j.output_path ≡ some output)
    × (file_at output files ≡ some n)
    × (placement_in u j.title_index (disc_with_titles c j.disc_id) ≡ some p)

abbrev filed_output : Unicode → Settings → Paths → Disk → Daemon → Job → Daemon
filed_output u cfg paths k d j = file_output u cfg paths k d j j.output_path

output_is :
    (u : Unicode) (cfg : Settings) (paths : Paths) (k : Disk) (d : Daemon) (j : Job) (output : Text)
    (n : ℕ)
    → j.output_path ≡ some output
    → file_at output d.files ≡ some n
    → filed_output u cfg paths k d j ≡ file_title u cfg paths k d j.disc_id j.title_index output
unfolding file_output
output_is u cfg paths k d j output n named there =
    ap (λ o. file_output u cfg paths k d j o) named ∙ rw (there, file_output) refl

-- What a step of the loop over fileable jobs does: it files the job, keeps every link and file, and
-- changes neither jobs nor catalog.
abbrev Step : Daemon → Job → Daemon → Type 0
Step d j e =
    Filed j.disc_id j.title_index e.links
    × ((disc i : ℕ) → Filed disc i d.links → Filed disc i e.links)
    × Keeps d e
    × Kept d e

step_of :
    (u : Unicode) (cfg : Settings) (paths : Paths) (k : Disk) (d : Daemon) (j : Job)
    → cfg.file_to_library ≡ true
    → IsWorking k
    → IsFileable u d.catalog d.files j
    → Step d j (filed_output u cfg paths k d j)
step_of u cfg paths k d j on w (output, n, p, named, there, place) =
    subst (Step d j) (sym (output_is u cfg paths k d j output n named there)) (
      title-Filed u cfg paths k d j.disc_id j.title_index output n p on w there place,
      title-keeps_links u cfg paths k d j.disc_id j.title_index output,
      title-Keeps u cfg paths k d j.disc_id j.title_index output,
      file_title-Kept u cfg paths k d j.disc_id j.title_index output,
    )

still-IsFileable :
    (u : Unicode) (d e : Daemon) (j : Job)
    → Keeps d e
    → Kept d e
    → IsFileable u d.catalog d.files j
    → IsFileable u e.catalog e.files j
still-IsFileable u d e j keeps (jobs, catalog) (output, n, p, named, there, place) = (
  output,
  n,
  p,
  named,
  keeps output n there,
  ap (λ c. placement_in u j.title_index (disc_with_titles c j.disc_id)) catalog ∙ place,
)

abbrev FiledAll : Daemon → List Job → Daemon → Type 0
FiledAll d js e =
    All (λ (j : Job). Filed j.disc_id j.title_index e.links) js
    × ((disc i : ℕ) → Filed disc i d.links → Filed disc i e.links)
    × Kept d e

each_files :
    (u : Unicode) (cfg : Settings) (paths : Paths) (k : Disk) (d : Daemon) (js : List Job)
    → cfg.file_to_library ≡ true
    → IsWorking k
    → All (IsFileable u d.catalog d.files) js
    → FiledAll d js (file_each u cfg paths k d js)
unfolding file_each
each_files u cfg paths k d [] on w h = (tt, λ disc i f. f, (refl, refl))
each_files u cfg paths k d (j ∷ js) on w h =
    let e = filed_output u cfg paths k d j in
    let (here, links, keeps, (jobs, catalog)) = step_of u cfg paths k d j on w h.0 in
    let (later, links', (jobs', catalog')) =
      each_files u cfg paths k e js on w
        (All-map js (λ x f. still-IsFileable u d e x keeps (jobs, catalog) f) h.1) in
    subst (FiledAll d (j ∷ js))
      (ap (λ b. if b then d else file_each u cfg paths k e js)
        (sym (w.goes_on j.disc_id j.title_index)))
      (
        (links' j.disc_id j.title_index here, later),
        λ disc i f. links' disc i (links disc i f),
        (jobs' ∙ jobs, catalog' ∙ catalog),
      )

filter_none : (p : Job → Bool) (js : List Job) → All (λ j. p j ≡ false) js → filter p js ≡ []
filter_none p [] h = refl
filter_none p (j ∷ js) h = rw h.0 (filter_none p js h.1)

All-In : {P : Job → Type 0} (js : List Job) → ((j : Job) → In j js → P j) → All P js
All-In [] h = tt
All-In (j ∷ js) h = (h j (inl refl), All-In js (λ k i. h k (inr i)))

-- A job is not unfiled any more if it has a link now, or was not unfiled before and links are kept.
not_unfiled :
    (s : Store) (t : Store) (j : Job)
    → (is_unfiled s j ≡ true → Filed j.disc_id j.title_index t.links)
    → (Filed j.disc_id j.title_index s.links → Filed j.disc_id j.title_index t.links)
    → is_unfiled t j ≡ false
unfolding is_unfiled
not_unfiled s t j h keep = ground (arith, h, keep)

-- The library catches up: where filing is on, the disk takes links, SQLite refuses nothing and the daemon
-- goes on, filing what is unfiled leaves nothing unfiled, if each unfiled output is on disk and its title has a place.
pub library_catches_up :
    (u : Unicode) (cfg : Settings) (paths : Paths) (k : Disk) (d : Daemon)
    → cfg.file_to_library ≡ true
    → IsWorking k
    → All (IsFileable u d.catalog d.files) (unfiled_transcodes (store_of d))
    → unfiled_transcodes (store_of (file_unfiled u cfg paths k d)) ≡ []
unfolding file_unfiled unfiled_transcodes
library_catches_up u cfg paths k d on w h =
    let js = sort_by by_disc_and_title (unfiled_transcodes (store_of d)) in
    let e = file_each u cfg paths k d js in
    let (filed, links, (jobs, catalog)) = each_files u cfg paths k d js on w (
      All-sort_by (IsFileable u d.catalog d.files) by_disc_and_title
        (unfiled_transcodes (store_of d)) h) in
    let after = filter_none (is_unfiled (store_of e)) d.jobs (
      All-In d.jobs (λ j i.
        not_unfiled (store_of d) (store_of e) j
          (λ t.
            In-All (λ (x : Job). Filed x.disc_id x.title_index e.links) j js
              (In-sort_by by_disc_and_title j (unfiled_transcodes (store_of d))
                (filter-In (is_unfiled (store_of d)) j d.jobs t i))
              filed)
          (links j.disc_id j.title_index))) in
    let whole : file_unfiled u cfg paths k d ≡ e =
      ap (λ b. if b then file_each u cfg paths k d (read_unfiled k d) else d) on
      ∙ ap (file_each u cfg paths k d) (unfiled_read k d w) in
    subst (λ x. unfiled_transcodes (store_of x) ≡ []) (sym whole)
      (ap (filter (is_unfiled (store_of e))) jobs ∙ after)
