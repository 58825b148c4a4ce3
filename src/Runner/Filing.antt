-- ===== src/Runner/Filing.antt =====
-- internal/daemon/library.go: that filing replaces no file, and that the library catches up.
use hellbox.Base.{
  ℕ, ◌≡◌, refl, ap, ◌∙◌, Bool, true, false, List, [], ◌∷◌, Option, none, some, arith, inl, inr,
  Bool-cases, Option-cases, Text, Unicode, if◌then◌else◌,
}
use hellbox.Transcodes.{Job}
use hellbox.Library.Naming.{Placement, file_at, Linked, linked, already_there, link_failed, link}
use hellbox.Library.Plan.{files_after, link_keeps}
use hellbox.Runner.{
  Settings, Daemon, Paths, Disk, record_link, after_link, path_of, file_at_placement, placement_in,
  read_disc, read_unfiled, file_title, file_output, file_each, file_unfiled,
}

-- Every path that holds a file in the one holds it in the other.
abbrev pub Keeps : Daemon → Daemon → Type 0
Keeps d e = (path : Text) (n : ℕ) → file_at path d.files ≡ some n → file_at path e.files ≡ some n

record_files :
    (k : Disk) (d : Daemon) (disc i : ℕ) (path : Text)
    → (record_link k d disc i path).files ≡ d.files
unfolding record_link
record_files k d disc i path = ground arith

after_files :
    (k : Disk) (d : Daemon) (disc i : ℕ) (path : Text) (l : Linked)
    → (after_link k d disc i path l).files ≡ files_after d.files l
unfolding after_link
after_files k d disc i path (linked fs) = record_files k (record d { files = fs }) disc i path
after_files k d disc i path already_there = record_files k d disc i path
after_files k d disc i path (link_failed e) = refl

either-Keeps : (b : Bool) (d e : Daemon) → Keeps d e → Keeps d (if b then e else d)
either-Keeps true d e h = h
either-Keeps false d e h = λ path n at. at

placed-Keeps :
    (cfg : Settings) (paths : Paths) (k : Disk) (d : Daemon) (disc i : ℕ) (source : Text)
    (o : Option Placement)
    → Keeps d (file_at_placement cfg paths k d disc i source o)
unfolding file_at_placement
placed-Keeps cfg paths k d disc i source none path n h = h
placed-Keeps cfg paths k d disc i source (some p) path n h =
    let to = path_of cfg paths p in
    let l = link k.mkdir_error k.link_error d.files source to in
    ap (file_at path) (after_files k d disc i to l)
    ∙ link_keeps k.mkdir_error k.link_error d.files source to path n h

pub title-Keeps :
    (u : Unicode) (cfg : Settings) (paths : Paths) (k : Disk) (d : Daemon) (disc i : ℕ)
    (source : Text)
    → Keeps d (file_title u cfg paths k d disc i source)
unfolding file_title
title-Keeps u cfg paths k d disc i source =
    either-Keeps cfg.file_to_library d _
      (placed-Keeps cfg paths k d disc i source (placement_in u i (read_disc k d.catalog disc)))

output-Keeps :
    (u : Unicode) (cfg : Settings) (paths : Paths) (k : Disk) (d : Daemon) (j : Job)
    (o : Option Text)
    → Keeps d (file_output u cfg paths k d j o)
unfolding file_output
output-Keeps u cfg paths k d j none path n h = h
output-Keeps u cfg paths k d j (some output) path n h =
    elim (Option-cases (file_at output d.files)) [
      | inl e ↦ rw (e, file_output) h
      | inr (m, e) ↦
          rw (e, file_output) (title-Keeps u cfg paths k d j.disc_id j.title_index output path n h)
    ]

each-Keeps :
    (u : Unicode) (cfg : Settings) (paths : Paths) (k : Disk) (d : Daemon) (js : List Job)
    → Keeps d (file_each u cfg paths k d js)
unfolding file_each
each-Keeps u cfg paths k d [] path n h = h
each-Keeps u cfg paths k d (j ∷ js) path n h = elim (Bool-cases (k.ended j.disc_id j.title_index)) [
  | inl e ↦ rw e h
  | inr e ↦ rw e (
      each-Keeps u cfg paths k (file_output u cfg paths k d j j.output_path) js path n
        (output-Keeps u cfg paths k d j j.output_path path n h))
]

-- Filing what is unfiled replaces and removes no file, in the library or elsewhere, whatever fails: each
-- path that held a file holds the same one after.
pub file_unfiled_keeps :
    (u : Unicode) (cfg : Settings) (paths : Paths) (k : Disk) (d : Daemon) (path : Text) (n : ℕ)
    → file_at path d.files ≡ some n
    → file_at path (file_unfiled u cfg paths k d).files ≡ some n
unfolding file_unfiled
file_unfiled_keeps u cfg paths k d path n h =
    let js = read_unfiled k d in
    either-Keeps cfg.file_to_library d (file_each u cfg paths k d js)
      (each-Keeps u cfg paths k d js) path n h
