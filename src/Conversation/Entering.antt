-- ===== src/Conversation/Entering.antt =====
-- From every state there is a way into the chain for a goroutine that waits for the lock.
use velaros.Base.{
  ℕ, ◌≡◌, refl, Bool, Bool-cases, true, false, none, some, Text, arith, inl, inr, Option-cases,
}
use velaros.Base.Maps.{lookup}
use velaros.Socket.Defs.{InboundMessage, Socket}
use velaros.Socket.Ops
use velaros.Socket.Ops.{update}
use velaros.Context.Sub.{empty_message}
use velaros.Conversation.System.{
  Phase, arriving, active, finishing, done, waiting, found, sending, receiving, set_buffer, Move,
  enter, remove, send, take, release, System, Step, pick, Reach, later,
}
use velaros.Conversation.Owners.{held, owns, release_lock}
use velaros.Conversation.Live.{Live}
use velaros.Conversation.Live.Steps.{Reach-Live}
use velaros.Conversation.Wake.{wake_when_free}

acquire_free :
    (id : Text) (s : Socket)
    → held id s ≡ false
    → (s' : Socket) × (Ops.acquire_message_id_lock id s ≡ (s.next_lock, true, s'))
unfolding Ops.acquire_message_id_lock
acquire_free id s free = elim (Option-cases (lookup id s.message_id_locks)) [
  | inl open_ ↦ ((Ops.acquire_message_id_lock id s).2, rw open_ refl)
  | inr (c, taken) ↦ absurd (ground arith)
]

-- Some steps, one after the other.
pub data Leads (id : Text) (s : System) : System → Type 0 where
  at_once : Leads id s s
  and_then : {t u : System} → Leads id s t → Step id t u → Leads id s u

Reach-Leads : {id uuid : Text} {s t : System} → Reach id uuid s → Leads id s t → Reach id uuid t
Reach-Leads r at_once = r
Reach-Leads r (and_then way st) = later (Reach-Leads r way) st

Leads-trans : {id : Text} {s t u : System} → Leads id s t → Leads id t u → Leads id s u
Leads-trans way at_once = way
Leads-trans way (and_then more st) = and_then (Leads-trans way more) st

abbrev moved : System → ℕ → Socket → Phase → System
moved s j socket' p' = record { socket = socket'; pc = update s.pc j p' }

-- The lock is free at the end of some steps, and this goroutine still waits.
abbrev Freed : Text → System → ℕ → ℕ → Type 0
Freed id s i ch = (t : System) × Leads id s t × (t.pc i ≡ waiting ch) × (held id t.socket ≡ false)

module _ (id : Text) (i ch : ℕ) where
  Freed-after :
      (s : System) (j : ℕ) (s' : Socket) (p' : Phase)
      → Move id s.socket (s.pc j) s' p'
      → Freed id (moved s j s' p') i ch
      → Freed id s i ch
  Freed-after s j s' p' move (t, way, same, free) =
      (t, Leads-trans (and_then at_once (pick j move)) way, same, free)

  free_active :
      (s : System) (j : ℕ) (own : Bool)
      → s.pc i ≡ waiting ch
      → s.pc j ≡ active own
      → Freed id s i ch
  free_active s j own waits here =
      Freed-after s j (Ops.release_message_id_lock id s.socket) (finishing own) (rw here release)
        (_, at_once, ground arith, (release_lock id s.socket).0)

  free_receiving :
      (s : System) (j c : ℕ) (m : InboundMessage)
      → s.pc i ≡ waiting ch
      → s.pc j ≡ receiving c
      → (s.socket.channels c).buffer ≡ some m
      → Freed id s i ch
  free_receiving s j c m waits here full =
      let s' = set_buffer c none s.socket in
      Freed-after s j s' (active true) (rw here (take full))
        (free_active (moved s j s' (active true)) j true (ground arith) (ground arith))

  free_sending :
      (s : System) (j c : ℕ)
      → Live id s.socket s.pc
      → s.pc i ≡ waiting ch
      → s.pc j ≡ sending c
      → Freed id s i ch
  free_sending s j c live waits here =
      let (k, listens, empty) = live.aimed j c (rw here) in
      let s' = set_buffer c (some empty_message) s.socket in
      Freed-after s j s' done (rw here (send empty_message empty)) (
        free_receiving (moved s j s' done) k c empty_message (ground arith) (ground arith)
          (ground arith))

  free_found :
      {uuid : Text} (s : System) (j c : ℕ)
      → Reach id uuid s
      → s.pc i ≡ waiting ch
      → s.pc j ≡ found c
      → Freed id s i ch
  free_found s j c r waits here =
      let s' = Ops.remove_receiver id s.socket in
      let move : Move id s.socket (s.pc j) s' (sending c) = rw here remove in
      Freed-after s j s' (sending c) move (
        free_sending (moved s j s' (sending c)) j c (Reach-Live (later r (pick j move)))
          (ground arith) (ground arith))

  free_owner :
      {uuid : Text} (s : System) (j : ℕ) (p : Phase)
      → Reach id uuid s
      → s.pc i ≡ waiting ch
      → s.pc j ≡ p
      → owns s.socket p ≡ true
      → Freed id s i ch
  free_owner s j (active own) r waits here o = free_active s j own waits here
  free_owner s j (found c) r waits here o = free_found s j c r waits here
  free_owner s j (sending c) r waits here o = free_sending s j c (Reach-Live r) waits here
  free_owner s j (receiving c) r waits here o = elim (Option-cases (s.socket.channels c).buffer) [
    | inl empty ↦ absurd (ground arith)
    | inr (m, full) ↦ free_receiving s j c m waits here full
  ]
  free_owner s j _ r waits here o = cc

  free_first : {uuid : Text} (s : System) → Reach id uuid s → s.pc i ≡ waiting ch → Freed id s i ch
  free_first s r waits = elim (Bool-cases (held id s.socket)) [
    | inl taken ↦ let (j, o) = (Reach-Live r).owned taken in free_owner s j (s.pc j) r waits refl o
    | inr free ↦ (s, at_once, waits, free)
  ]

-- No deadlock, while the socket is open and no wait is cancelled: from every state that is reached,
-- some further steps, in which handlers in the chain come to their end, lead a goroutine that waits
-- for the lock of its id into the chain.
pub may_enter :
    {id uuid : Text} {s : System}
    → Reach id uuid s
    → (i ch : ℕ) → s.pc i ≡ waiting ch
    → (t : System) × Leads id s t × (t.pc i ≡ active false)
may_enter {id} {uuid} {s} r i ch waits =
    let (t, way, still, free) = free_first id i ch s r waits in
    let woken = wake_when_free (Reach-Leads r way) i ch still free in
    let u = moved t i t.socket arriving in
    let arrives : u.pc i ≡ arriving = ground arith in
    let (s', first) = acquire_free id t.socket free in
    (
      moved u i s' (active false),
      and_then (and_then way (pick i woken)) (pick i (rw arrives (enter first))),
      ground arith,
    )
