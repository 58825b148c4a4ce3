-- ===== src/Hub/Channels.antt =====
-- internal/api/hub.go: no event is sent to a closed channel, whatever clients do.
use hellbox.Base.{
  ℕ, ◌≡◌, ◌≢◌, refl, sym, ap, ◌∙◌, true, false, not, List, [], ◌∷◌, ◌++◌, some, Option-cases,
  some_inj, pair_inj, arith, ltb, length, get_elem?, set, filter, drop, Text, All, All-map,
  All-filter, ◌==◌, get_elem?-set_self, get_elem?-set_ne, get_elem?-lt, get_elem?-append,
  get_elem?-concat, ℕ_discrete, inl, inr, Bool-cases,
}
use mathlib.Core.Path.{subst}
use hellbox.Hub.{
  Event, Hub, Channel, Release, pending, deleted, finished, Reach, started, published, subscribed,
  release_stepped, received, new_hub, append, send, fanout, publish, subscribe, release_at,
  release_step, receive, channel_capacity, next_u64,
}

module _ {ℓ} {A : Type ℓ} where
  -- The channel at an address is open, and its release function has not been called.
  abbrev IsOpen : Channel A → Type 0
  IsOpen c = (c.closed ≡ false) × (c.release ≡ pending)

  abbrev IsLive : List (Channel A) → ℕ → Type ℓ
  IsLive cs k = (c : Channel A) × (get_elem? cs k ≡ some c) × IsOpen c

  abbrev pub IsSound : Hub A → Type ℓ
  IsSound h = All (IsLive h.channels) h.subs

  -- A write that keeps an open channel open keeps every address live.
  set-IsLive :
      (cs : List (Channel A)) (k : ℕ) (c c' : Channel A)
      → get_elem? cs k ≡ some c
      → (IsOpen c → IsOpen c')
      → (j : ℕ) → IsLive cs j
      → IsLive (set cs k c') j
  set-IsLive cs k c c' at_k keep j (d, e, live) = elim (ℕ_discrete k j) [
    | yes p ↦
        let same : d ≡ c = some_inj (sym e ∙ ap (get_elem? cs) (sym p) ∙ at_k) in
        (c', rw p (get_elem?-set_self cs j c' (get_elem?-lt cs j e)), keep (subst IsOpen same live))
    | no p ↦ (d, get_elem?-set_ne cs c' p ∙ e, live)
  ]

  set_ne-IsLive :
      (cs : List (Channel A)) (k : ℕ) (c : Channel A) (j : ℕ)
      → k ≢ j
      → IsLive cs j
      → IsLive (set cs k c) j
  set_ne-IsLive cs k c j p (d, e, live) = (d, get_elem?-set_ne cs c p ∙ e, live)

  send-IsOpen :
      (ev : Event A) (c : Channel A)
      → IsOpen c
      → (c' : Channel A) × (send ev c ≡ some c') × IsOpen c'
  unfolding send
  send-IsOpen ev c o = elim (Bool-cases (ltb (length c.buffer) channel_capacity)) [
    | inl room ↦ (record c { buffer = c.buffer ++ ev ∷ [] }, rw (o.0, room), o)
    | inr full ↦ (c, rw (o.0, full), o)
  ]

  fanout_total :
      (ev : Event A) (ks : List ℕ) (cs : List (Channel A))
      → All (IsLive cs) ks
      → (cs' : List (Channel A)) × (fanout ev ks cs ≡ some cs')
        × ((j : ℕ) → IsLive cs j → IsLive cs' j)
  unfolding fanout
  fanout_total ev [] cs h = (cs, refl, λ j l. l)
  fanout_total ev (k ∷ ks) cs ((c, e, o), h) =
      let (c', sent, o') = send-IsOpen ev c o in
      let keep = set-IsLive cs k c c' e (λ _. o') in
      let (cs', out, kept) = fanout_total ev ks (set cs k c') (All-map ks keep h) in
      (cs', rw (e, fanout) (rw (sent, fanout) out), λ j l. kept j (keep j l))

  subs-append : (size : ℕ) (h : Hub A) (ev : Event A) → (append size h ev).subs ≡ h.subs
  unfolding append
  subs-append size h ev = ground arith

  channels-append : (size : ℕ) (h : Hub A) (ev : Event A) → (append size h ev).channels ≡ h.channels
  unfolding append
  channels-append size h ev = ground arith

  -- Where every subscribed channel is open, `Publish` returns, and they stay open.
  publish-IsSound :
      (size : ℕ) (h : Hub A) (kind : Text) (now : ℕ) (payload : A)
      → IsSound h
      → (ev : Event A) × (h' : Hub A) × (publish size h kind now payload ≡ some (ev, h'))
        × IsSound h'
  unfolding publish
  publish-IsSound size h kind now payload s =
      let id = next_u64 h.next_id in
      let ev : Event A = record { id = id; kind = kind; at = now; payload = payload } in
      let h₁ = append size (record h { next_id = id }) ev in
      let subs = subs-append size (record h { next_id = id }) ev in
      let channels = channels-append size (record h { next_id = id }) ev in
      let (cs, out, kept) = fanout_total ev h.subs h.channels s in
      let out' : fanout ev h₁.subs h₁.channels ≡ some cs = rw (subs, channels) out in
      (ev, record h₁ { channels = cs }, rw (out', publish), rw subs (All-map h.subs kept s))

  subscribe-IsSound : (h : Hub A) → IsSound h → IsSound (subscribe h).1
  unfolding subscribe
  subscribe-IsSound h s =
      let c : Channel A = record { buffer = []; closed = false; release = pending } in
      (
        (c, get_elem?-concat h.channels c, (refl, refl)),
        All-map h.subs
            (λ j (d, e, live).
              (d, get_elem?-append h.channels (c ∷ []) j (get_elem?-lt h.channels j e) ∙ e, live))
            s,
      )

  receive-IsSound : (h : Hub A) (k : ℕ) → IsSound h → IsSound (receive h k)
  unfolding receive
  receive-IsSound h k s = elim (Option-cases (get_elem? h.channels k)) [
    | inl e ↦ rw (e, receive) s
    | inr (c, e) ↦
        let c' : Channel A = record c { buffer = drop 1 c.buffer } in
        rw (e, receive) (All-map h.subs (set-IsLive h.channels k c c' e (λ o. o)) s)
  ]

  release_at-IsSound :
      (r : Release) (h : Hub A) (k : ℕ) (c : Channel A)
      → c.release ≡ r
      → get_elem? h.channels k ≡ some c
      → IsSound h
      → IsSound (release_at r h k c)
  unfolding release_at
  release_at-IsSound pending h k c p e s =
      let c' : Channel A = record c { release = deleted } in
      let kept = All-filter (IsLive h.channels) (λ j. not (j == k)) h.subs s in
      All-map (filter (λ j. not (j == k)) h.subs)
        (λ j (live, test). set_ne-IsLive h.channels k c' j (λ q. ground arith) live) kept
  release_at-IsSound deleted h k c p e s =
      let c' : Channel A = record c { closed = true; release = finished } in
      All-map h.subs (set-IsLive h.channels k c c' e (λ o. absurd (cc (o.1)))) s
  release_at-IsSound finished h k c p e s = s

  release_step-IsSound : (h : Hub A) (k : ℕ) → IsSound h → IsSound (release_step h k)
  unfolding release_step
  release_step-IsSound h k s = elim (Option-cases (get_elem? h.channels k)) [
    | inl e ↦ rw (e, release_step) s
    | inr (c, e) ↦ rw (e, release_step) (release_at-IsSound c.release h k c refl e s)
  ]

  Reach-IsSound :
      {size : ℕ} {h : Hub A} {history : List (Event A)} → Reach size h history → IsSound h
  unfolding new_hub
  Reach-IsSound started = tt
  Reach-IsSound {size} (published {h} {h' = h'} kind now payload r e) =
      let (ev, h₂, e₂, s) = publish-IsSound size h kind now payload (Reach-IsSound r) in
      subst IsSound ((pair_inj (some_inj (sym e₂ ∙ e))).1) s
  Reach-IsSound (subscribed {h} r) = subscribe-IsSound h (Reach-IsSound r)
  Reach-IsSound (release_stepped {h} k r) = release_step-IsSound h k (Reach-IsSound r)
  Reach-IsSound (received {h} k r) = receive-IsSound h k (Reach-IsSound r)

  -- `Publish` never panics: in every reachable hub, however clients have subscribed, read and
  -- released, also half way through a release, it returns, since no channel among the subscribers
  -- is closed.
  pub publish_total :
      {size : ℕ} {h : Hub A} {history : List (Event A)} (kind : Text) (now : ℕ) (payload : A)
      → Reach size h history
      → (ev : Event A) × (h' : Hub A) × (publish size h kind now payload ≡ some (ev, h'))
  publish_total {size} {h} kind now payload r =
      let (ev, h', e, s) = publish-IsSound size h kind now payload (Reach-IsSound r) in (ev, h', e)
