-- ===== src/Hub.antt =====
-- internal/api/hub.go: the event hub, which fans events out to subscribers and keeps the recent
-- ones for replay. A channel is an address in a heap of channels, so that a send to a closed one
-- can be seen; every operation is one critical section of the source.
pub mod Ring
pub mod Replay
pub mod Channels
mod Tests
use hellbox.Base.{
  ℕ, zero, suc, ◌+◌, ◌%◌, ◌^◌, Bool, true, false, not, ◌||◌, ◌&&◌, List, [], ◌∷◌, ◌++◌, Option,
  none, some, ◌≡◌, ltb, leb, ◌==◌, if◌then◌else◌, length, get_elem?, set, take, drop, filter, any,
  Text,
}

pub record Event {ℓ} (A : Type ℓ) : Type ℓ where
  pub id : ℕ  -- uint64
  pub kind : Text
  pub at : ℕ
  pub payload : A

-- Where the `sync.Once` of a release function stands: not called, `delete` done, `close` done.
pub data Release : Type 0 where
  pending deleted finished : Release

-- A channel made by `Subscribe`, with what waits in its buffer and its release function.
pub record Channel {ℓ} (A : Type ℓ) : Type ℓ where
  pub buffer : List (Event A)
  pub closed : Bool
  pub release : Release

pub record Hub {ℓ} (A : Type ℓ) : Type ℓ where
  pub next_id : ℕ  -- uint64
  pub ring : List (Event A)
  pub start : ℕ
  pub full : Bool
  pub subs : List ℕ  -- the keys of the map, as addresses in `channels`
  pub channels : List (Channel A)

-- `ringSize`. The operations take the size as an argument; the program passes this one.
abbrev pub source_ring_size : ℕ
source_ring_size = 4096

-- The buffer of a subscriber's channel.
abbrev pub channel_capacity : ℕ
channel_capacity = 256

unfoldable pub new_hub {ℓ} : {A : Type ℓ} → Hub A
new_hub = record { next_id = 0; ring = []; start = 0; full = false; subs = []; channels = [] }

-- uint64 addition of one
abbrev pub next_u64 : ℕ → ℕ
next_u64 n = (n + 1) % 2 ^ 64

module _ {ℓ} {A : Type ℓ} where
  -- `append`: grows to the ring's size, then writes over the oldest.
  pub append : ℕ → Hub A → Event A → Hub A
  append ring_size h ev =
      if ltb (length h.ring) ring_size
      then record h { ring = h.ring ++ (ev ∷ []) }
      else record h { full = true; ring = set h.ring h.start ev; start = (h.start + 1) % ring_size }

  -- `select { case c <- ev: default: }`; `none` is the panic of a send on a closed channel.
  pub send : Event A → Channel A → Option (Channel A)
  send ev c =
      if c.closed
      then none
      else if ltb (length c.buffer) channel_capacity
      then some (record c { buffer = c.buffer ++ (ev ∷ []) })
      else some c

  -- The loop over `h.subs`. A key outside the heap cannot arise (`Channels.IsSound`).
  pub fanout : Event A → List ℕ → List (Channel A) → Option (List (Channel A))
  fanout ev [] cs = some cs
  fanout ev (k ∷ ks) cs = elim (get_elem? cs k) [
    | none ↦ none
    | some c ↦ elim (send ev c) [ none ↦ none | some c' ↦ fanout ev ks (set cs k c') ]
  ]

  -- `Publish`, at the time `now`.
  pub publish : ℕ → Hub A → Text → ℕ → A → Option (Event A × Hub A)
  publish ring_size h kind now payload =
      let id = next_u64 h.next_id in
      let ev : Event A = record { id = id; kind = kind; at = now; payload = payload } in
      let h' = append ring_size (record h { next_id = id }) ev in
      elim (fanout ev h'.subs h'.channels) [
        | none ↦ none
        | some cs ↦ some (ev, record h' { channels = cs })
      ]

  pub last_id : Hub A → ℕ
  last_id h = h.next_id

  -- `orderedLocked`: the ring, oldest first.
  pub ordered : Hub A → List (Event A)
  ordered h = if not h.full then h.ring else drop h.start h.ring ++ take h.start h.ring

  -- `Since`: the events after `id`, and whether none was missed.
  pub since_in : List (Event A) → ℕ → ℕ → List (Event A) × Bool
  since_in [] next_id id = ([], id == 0 || id == next_id)
  since_in (oldest ∷ rest) next_id id = (
    filter (λ (ev : Event A). ltb id ev.id) (oldest ∷ rest),
    leb oldest.id (next_u64 id) || leb next_id id,
  )

  pub since : Hub A → ℕ → List (Event A) × Bool
  unfolding since_in ordered
  since h id = since_in (ordered h) h.next_id id

  -- `Subscribe`: a new channel, and its address.
  pub subscribe : Hub A → ℕ × Hub A
  subscribe h =
      let k = length h.channels in
      let c : Channel A = record { buffer = []; closed = false; release = pending } in
      (k, record h { subs = k ∷ h.subs; channels = h.channels ++ (c ∷ []) })

  -- The release function of `Subscribe`, one atomic part a call: the locked `delete`, then the
  -- `close`, then nothing, as `sync.Once` has it.
  pub release_at : Release → Hub A → ℕ → Channel A → Hub A
  release_at pending h k c = record h {
    subs = filter (λ j. not (j == k)) h.subs;
    channels = set h.channels k (record c { release = deleted });
  }
  release_at deleted h k c = record h {
    channels = set h.channels k (record c { closed = true; release = finished });
  }
  release_at finished h k c = h

  pub release_step : Hub A → ℕ → Hub A
  unfolding release_at
  release_step h k = elim (get_elem? h.channels k) [
    | none ↦ h
    | some c ↦ release_at c.release h k c
  ]

  -- A subscriber reads its channel: the next event of the buffer leaves it.
  pub receive : Hub A → ℕ → Hub A
  receive h k = elim (get_elem? h.channels k) [
    | none ↦ h
    | some c ↦ record h { channels = set h.channels k (record c { buffer = drop 1 c.buffer }) }
  ]

  pub subscribers : Hub A → ℕ
  subscribers h = length h.subs

-- The hubs that a daemon can reach, each with the events that it has published, oldest first.
pub data Reach {ℓ} {A : Type ℓ} (ring_size : ℕ) : Hub A → List (Event A) → Type ℓ where
  started : Reach ring_size new_hub []
  published :
      {h h' : Hub A} {history : List (Event A)} {ev : Event A} (kind : Text) (now : ℕ) (payload : A)
      → Reach ring_size h history
      → publish ring_size h kind now payload ≡ some (ev, h')
      → Reach ring_size h' (history ++ ev ∷ [])
  subscribed :
      {h : Hub A} {history : List (Event A)}
      → Reach ring_size h history
      → Reach ring_size (subscribe h).1 history
  release_stepped :
      {h : Hub A} {history : List (Event A)} (k : ℕ)
      → Reach ring_size h history
      → Reach ring_size (release_step h k) history
  received :
      {h : Hub A} {history : List (Event A)} (k : ℕ)
      → Reach ring_size h history
      → Reach ring_size (receive h k) history
