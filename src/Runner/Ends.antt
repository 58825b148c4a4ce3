-- ===== src/Runner/Ends.antt =====
-- internal/daemon/transcode.go: in what state an encode leaves its job.
use hellbox.Base.{
  ℕ, ◌≡◌, refl, sym, subst, Bool, true, false, ◌||◌, List, arith, inl, inr, ◌⊎◌, All, Text, Unicode,
  if◌then◌else◌, ==_iff,
}
use hellbox.Transcodes.{
  Job, State, pending, complete, failed, Claim, update_where, has_id, requeue_transcode,
  fail_transcode, finish_transcode,
}
use hellbox.Transcodes.Claims.{update-hit}
use hellbox.Runner.{
  Settings, Daemon, Paths, Moment, Encoded, store_of, with_store, settle, transcode_one, begun,
  clear_current, encode,
}
use hellbox.Runner.Drain.{file_title-Kept}

-- The state of a job whose encode has ended, cancelled or with a result.
abbrev pub end_state : Bool → Text ⊎ Encoded → State
end_state true res = pending
end_state false (inl e) = failed
end_state false (inr r) = complete

abbrev Ended : ℕ → State → Job → Type 0
Ended id s j = j.id ≡ id → j.state ≡ s

-- An update of the rows with an id that sets a state leaves them in that state.
update_ends :
    (id : ℕ) (s : State) (change : Job → Job) (js : List Job)
    → ((j : Job) → (change j).state ≡ s)
    → All (Ended id s) (update_where (has_id id) change js)
update_ends id s change js h =
    update-hit (Ended id s) (has_id id) change js (λ j t same. h j)
      (λ j t same. absurd (ground (arith, t, (==_iff j.id id).1 same)))

settle_ends :
    (u : Unicode) (cfg : Settings) (paths : Paths) (m : Moment) (d : Daemon) (c : Claim) (b : Bool)
    (res : Text ⊎ Encoded)
    → m.requeue_fails ≡ false
    → m.fail_fails ≡ false
    → m.finish_fails ≡ false
    → All (Ended c.id (end_state b res)) (settle u cfg paths m d c b res).jobs
unfolding settle requeue_transcode fail_transcode finish_transcode
settle_ends u cfg paths m d c true res x y z = rw x (update_ends c.id pending _ d.jobs (λ j. refl))
settle_ends u cfg paths m d c false (inl e) x y z =
    rw y (update_ends c.id failed _ d.jobs (λ j. refl))
settle_ends u cfg paths m d c false (inr r) x y z =
    let finished =
      if m.finish_fails
      then d
      else with_store d (finish_transcode (store_of d) c.id r.path r.size_bytes r.hardware m.now) in
    subst (All (Ended c.id complete))
      (sym (file_title-Kept u cfg paths m.disk finished c.disc_id c.title_index r.path).0)
      (rw z (update_ends c.id complete _ d.jobs (λ j. refl)))

-- An encode leaves its job pending if it was cancelled or the daemon was stopped, failed if the encoder
-- failed, and complete otherwise, where SQLite takes the statements.
pub transcode_one_ends :
    (u : Unicode) (cfg : Settings) (paths : Paths) (m : Moment) (d : Daemon) (c : Claim)
    → m.requeue_fails ≡ false
    → m.fail_fails ≡ false
    → m.finish_fails ≡ false
    → All
        (λ (j : Job).
          j.id ≡ c.id → j.state ≡ end_state (m.cancelled || m.stopped) (encode cfg paths m d c))
        (transcode_one u cfg paths m d c).jobs
unfolding transcode_one clear_current
transcode_one_ends u cfg paths m d c x y z =
    settle_ends u cfg paths m (record (begun m d c) { files = m.writes d.files }) c
      (m.cancelled || m.stopped) (encode cfg paths m d c) x y z
