-- ===== src/Catalog/Tests.antt =====
-- A disc that is scanned, ripped badly and forgotten.
use hellbox.Base.{ℕ, ◌+◌, ◌≡◌, refl, false, [], ◌∷◌, Option, none, some, arith, codes, text_eq}
use hellbox.Catalog.{
  JobState, Disc, DiscRow, RipJob, Catalog, type_dvd, is_ripped, find_row, find_disc, create_job,
  set_job_state, forget_disc, save_disc, attempts_for_disc, forgotten_after, next_id, update_rows,
  last_job,
}
use hellbox.Catalog.Rows.{Known, save_disc_keeps}
use hellbox.Catalog.Attempts.{attempt_counts, forgotten_is_retried}

abbrev row : Option ℕ → DiscRow
row forgotten = record {
  id = 4;
  fingerprint = codes "abc";
  volume_label = codes "STNG";
  disc_type = type_dvd;
  title_count = 1;
  total_bytes = 5000;
  first_seen = 10;
  rip_dir = none;
  makemkv_info = [];
  forgotten_after_job = forgotten;
}

abbrev job : ℕ → JobState → RipJob
job id state = record {
  id = id;
  disc_id = 4;
  drive_id = 1;
  state = state;
  attempt = 1;
  created_at = 20;
  started_at = some 20;
  ended_at = none;
  error = none;
  titles_total = 0;
  titles_done = 0;
}

abbrev tables : Option ℕ → Catalog
tables forgotten = record {
  discs = row forgotten ∷ [];
  titles = [];
  streams = [];
  jobs = job 1 JobState.failed ∷ job 2 JobState.cancelled ∷ job 3 JobState.failed ∷ [];
}

attempt_counts_example :
    attempts_for_disc
      (set_job_state
        (create_job (tables (some 1)) 4 1 2 30).1
        (create_job (tables (some 1)) 4 1 2 30).0
        JobState.cancelled
        none
        40)
      4
    ≡ attempts_for_disc (tables (some 1)) 4 + 0
unfolding create_job forgotten_after next_id
attempt_counts_example =
    attempt_counts (tables (some 1)) 4 1 2 30 40 JobState.cancelled none (omega arith)

forgets_all : forget_disc (tables none) (codes "abc") ≡ some (tables (some 3))
unfolding forget_disc find_row update_rows last_job text_eq
forgets_all = refl

forgotten_is_retried_example :
    (d : DiscRow) × (find_disc (tables none) (codes "abc") ≡ some d)
    × (attempts_for_disc (tables (some 3)) d.id ≡ 0)
    × ((r : DiscRow) × (find_disc (tables (some 3)) (codes "abc") ≡ some r) × (is_ripped r ≡ false))
forgotten_is_retried_example =
    forgotten_is_retried (tables none) (tables (some 3)) (codes "abc") forgets_all

abbrev scanned : Disc
scanned = record {
  fingerprint = codes "abc";
  volume_label = codes "STNG 2";
  kind = type_dvd;
  total_bytes = 6000;
  titles = [];
}

save_disc_keeps_example :
    Known
      (codes "abc")
      (save_disc (tables none) scanned [] 50).0
      (save_disc (tables none) scanned [] 50).1.discs
    × ((r : DiscRow)
        → find_disc (tables none) (codes "abc") ≡ some r
        → (r' : DiscRow) × (find_disc (save_disc (tables none) scanned [] 50).1 (codes "abc")
            ≡ some r')
          × (r'.id ≡ r.id)
          × (r'.rip_dir ≡ r.rip_dir))
    × (find_disc (tables none) (codes "abc") ≡ none
        → (r' : DiscRow) × (find_disc (save_disc (tables none) scanned [] 50).1 (codes "abc")
            ≡ some r')
          × (r'.rip_dir ≡ none))
save_disc_keeps_example = save_disc_keeps (tables none) scanned [] 50
