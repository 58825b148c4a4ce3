-- ===== src/Runner/Requeue.antt =====
-- internal/daemon/transcode.go: how titles come into the queue, after a rip and on request.
use hellbox.Base.{
  ℕ, zero, suc, ◌+◌, Bool, true, false, not, List, [], ◌∷◌, Option, none, some, ◌==◌, if◌then◌else◌,
  Text, codes, ◌⊎◌, inl, inr, Unicode, trim_space,
}
use hellbox.Catalog.{DiscRow, find_disc, is_ripped}
use hellbox.Transcodes.{queue_transcode}
use hellbox.Identity.{title_file_name, short}
use hellbox.Library.Naming.{file_at}
use hellbox.Runner.Tables.{Settings, Daemon, Paths, store_of, with_store, ripped_titles}
use hellbox.Runner.Encode.{refresh_transcode_counts}

-- `nudgeTranscoder`
abbrev pub nudge_transcoder : Daemon → Daemon
nudge_transcoder d = record d { woken = true }

abbrev pub default_profile : Text
default_profile = codes "default"

abbrev pub ripped_file : Paths → Text → ℕ → Text
ripped_file paths rip_dir index = paths.join (rip_dir ∷ title_file_name index ∷ [])

-- The loop of `queueTranscodes`, over the indices of the titles, with the number that it has queued;
-- SQLite may refuse a title.
unfoldable pub queue_each : Paths → (ℕ → Bool) → ℕ → Daemon → ℕ → Text → List ℕ → ℕ × Daemon
unfolding queue_transcode
queue_each paths refused now d disc rip_dir [] = (0, d)
queue_each paths refused now d disc rip_dir (i ∷ is) =
    let queued =
      with_store d
        (queue_transcode (store_of d) disc i default_profile (ripped_file paths rip_dir i) now) in
    let (n, d') = queue_each paths refused now (if refused i then d else queued) disc rip_dir is in
    (if refused i then n else n + 1, d')

-- `queueTranscodes`
unfoldable pub queue_transcodes :
    Settings → Paths → (ℕ → Bool) → Bool → ℕ → Daemon → ℕ → Text → List ℕ → Daemon
unfolding queue_each refresh_transcode_counts
queue_transcodes cfg paths refused counts_fail now d disc rip_dir titles =
    let (n, d') = queue_each paths refused now d disc rip_dir titles in
    if not cfg.transcode
    then d
    else if n == 0
    then d'
    else nudge_transcoder (refresh_transcode_counts counts_fail d')

-- `displayName`
unfoldable pub display_name : Unicode → Text → Text → Text
unfolding trim_space short
display_name u label fingerprint = elim (trim_space u label) [
  | [] ↦ short fingerprint
  | c ∷ s ↦ c ∷ s
]

-- The errors of `requeueDisc`
pub data RequeueError : Type 0 where
  transcoding_off : RequeueError
  no_such_disc not_ripped no_verified_titles : Text → RequeueError
  titles_gone : Text → Text → RequeueError
  not_queued : RequeueError

-- The loop of `requeueDisc`: a title whose file is gone is passed over, and a title that SQLite refuses
-- ends it.
unfoldable pub requeue_each :
    Paths → (ℕ → Bool) → ℕ → Daemon → ℕ → Text → List ℕ → (Bool × ℕ) × Daemon
unfolding file_at queue_transcode
requeue_each paths refused now d disc rip_dir [] = ((true, 0), d)
requeue_each paths refused now d disc rip_dir (i ∷ is) =
    elim (file_at (ripped_file paths rip_dir i) d.files) [
      | none ↦ requeue_each paths refused now d disc rip_dir is
      | some n ↦
          let queued = with_store d (
            queue_transcode (store_of d) disc i default_profile (ripped_file paths rip_dir i)
              now) in
          let ((whole, count), d') = requeue_each paths refused now queued disc rip_dir is in
          if refused i then ((false, 0), d) else ((whole, count + 1), d')
    ]

-- The end of `requeueDisc`: how many titles are queued and of which disc, or an error with that number.
abbrev pub requeued :
    Unicode → Bool → DiscRow → Text → (Bool × ℕ) × Daemon → (RequeueError × ℕ ⊎ ℕ × Text) × Daemon
requeued u counts_fail row rip_dir ((false, n), d) = (inl (not_queued, n), d)
requeued u counts_fail row rip_dir ((true, zero), d) =
    (inl (titles_gone (display_name u row.volume_label row.fingerprint) rip_dir, 0), d)
requeued u counts_fail row rip_dir ((true, suc n), d) = (
  inr (suc n, display_name u row.volume_label row.fingerprint),
  nudge_transcoder (refresh_transcode_counts counts_fail d),
)

abbrev pub requeue_titles :
    Unicode
    → Paths
    → (ℕ → Bool)
    → Bool
    → ℕ
    → Daemon
    → DiscRow
    → Text
    → List ℕ
    → (RequeueError × ℕ ⊎ ℕ × Text) × Daemon
requeue_titles u paths refused counts_fail now d row rip_dir [] =
    (inl (no_verified_titles (display_name u row.volume_label row.fingerprint), 0), d)
requeue_titles u paths refused counts_fail now d row rip_dir (i ∷ is) =
    requeued u counts_fail row rip_dir (requeue_each paths refused now d row.id rip_dir (i ∷ is))

abbrev pub dir_of : Option Text → Text
dir_of none = []
dir_of (some dir) = dir

abbrev pub requeue_found :
    Unicode
    → Paths
    → (ℕ → Bool)
    → Bool
    → ℕ
    → Daemon
    → Text
    → Option DiscRow
    → (RequeueError × ℕ ⊎ ℕ × Text) × Daemon
requeue_found u paths refused counts_fail now d fingerprint none =
    (inl (no_such_disc fingerprint, 0), d)
requeue_found u paths refused counts_fail now d fingerprint (some row) =
    if is_ripped row
    then requeue_titles u paths refused counts_fail now d row (dir_of row.rip_dir)
        (ripped_titles d.catalog row.id)
    else (inl (not_ripped (display_name u row.volume_label fingerprint), 0), d)

-- `requeueDisc`, where the statements that read succeed
unfoldable pub requeue_disc :
    Unicode
    → Settings
    → Paths
    → (ℕ → Bool)
    → Bool
    → ℕ
    → Daemon
    → Text
    → (RequeueError × ℕ ⊎ ℕ × Text) × Daemon
unfolding requeue_each display_name refresh_transcode_counts is_ripped ripped_titles find_disc
requeue_disc u cfg paths refused counts_fail now d fingerprint =
    if cfg.transcode
    then requeue_found u paths refused counts_fail now d fingerprint
        (find_disc d.catalog fingerprint)
    else (inl (transcoding_off, 0), d)
