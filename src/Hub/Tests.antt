-- ===== src/Hub/Tests.antt =====
-- A hub of two places: a subscriber, three events, a release half way, and one more event.
use hellbox.Base.{ℕ, ◌≡◌, ◌↔◌, refl, true, false, List, [], ◌∷◌, some, arith, ltb, filter, codes}
use hellbox.Hub.{
  Event, Hub, deleted, Reach, started, published, subscribed, release_stepped, new_hub, append,
  fanout, send, publish, subscribe, since, ordered, release_step,
}
use hellbox.Hub.Ring.{last}
use hellbox.Hub.Replay.{ordered-last, since_complete_iff}
use hellbox.Hub.Channels.{publish_total}

abbrev event : ℕ → Event ℕ
event n = record { id = n; kind = codes "log"; at = 100; payload = n }

abbrev after_three : Hub ℕ
after_three = record {
  next_id = 3;
  ring = event 3 ∷ event 2 ∷ [];
  start = 1;
  full = true;
  subs = [];
  channels = record { buffer = event 1 ∷ event 2 ∷ []; closed = false; release = deleted } ∷ [];
}

abbrev history : List (Event ℕ)
history = event 1 ∷ event 2 ∷ event 3 ∷ []

three_published : Reach 2 after_three history
unfolding new_hub publish append fanout send subscribe release_step
three_published =
    published (codes "log") 100 3
      (release_stepped 0 (
        published (codes "log") 100 2 (published (codes "log") 100 1 (subscribed started) refl)
          refl))
      refl

since_one : since after_three 1 ≡ (event 2 ∷ event 3 ∷ [], true)
unfolding since
since_one = refl

since_zero_misses : since after_three 0 ≡ (event 2 ∷ event 3 ∷ [], false)
unfolding since
since_zero_misses = refl

ordered-last_example : ordered after_three ≡ last 2 history
ordered-last_example = ordered-last 2 (omega arith) three_published

since_complete_iff_example :
    ((since after_three 1).1 ≡ true)
    ↔ ((since after_three 1).0 ≡ filter (λ (ev : Event ℕ). ltb 1 ev.id) history)
since_complete_iff_example =
    since_complete_iff 2 (omega arith) 1 three_published (omega arith) (omega arith)

publish_total_example :
    (ev : Event ℕ) × (h' : Hub ℕ) × (publish 2 after_three (codes "disc") 101 4 ≡ some (ev, h'))
publish_total_example = publish_total (codes "disc") 101 4 three_published
