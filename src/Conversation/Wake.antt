-- ===== src/Conversation/Wake.antt =====
-- No goroutine misses the release of the lock that it waits for.
use velaros.Base.{
  ℕ, ◌+◌, ◌<◌, ◌≡◌, ◌≢◌, ◌⊎◌, inl, inr, refl, true, false, none, some, Text, arith, Option-cases,
  text_eq_refl,
}
use native.Mathlib.Decide.{ℕ_discrete}
use velaros.Base.Maps.{lookup, insert, lookup-insert, lookup-delete}
use velaros.Socket.Defs.{Socket}
use velaros.Socket.Ops
use velaros.Socket.Ops.{update}
use velaros.Conversation.System.{
  Phase, arriving, active, finishing, done, waiting, found, sending, receiving, set_buffer,
  await_next, Move, enter, queue, wake, receive, find, remove, send, take, skip, pass_end, release,
  finalize_own, finalize_none, System, Step, pick, Reach, start, later,
}
use velaros.Conversation.Owners.{held}

-- A goroutine that waits, waits for the lock that is there, or its channel is closed already.
record Wakes (id : Text) (s : Socket) (pc : ℕ → Phase) : Type 0 where
  fresh : (ch : ℕ) → lookup id s.message_id_locks ≡ some ch → ch < s.next_lock
  woken :
      (i ch : ℕ)
      → pc i ≡ waiting ch
      → (ch < s.next_lock) × ((s.lock_closed ch ≡ true) ⊎ (lookup id s.message_id_locks ≡ some ch))

module _ {id : Text} {s : Socket} {pc : ℕ → Phase} (inv : Wakes id s pc) (i : ℕ) where
  -- Moves that touch no lock.
  Wakes-quiet :
      (s' : Socket) (p' : Phase)
      → s'.message_id_locks ≡ s.message_id_locks
      → s'.next_lock ≡ s.next_lock
      → s'.lock_closed ≡ s.lock_closed
      → ((ch : ℕ) → p' ≢ waiting ch)
      → Wakes id s' (update pc i p')
  Wakes-quiet s' p' locks next closed running = record {
    fresh = λ ch e. rw next (inv.fresh ch (rw locks at e));
    woken = λ j ch e. elim (ℕ_discrete i j) [
      | yes same ↦ absurd (running ch (ground arith))
      | no ne ↦ rw (locks, next, closed) (inv.woken j ch (ground arith))
    ];
  }

-- Taking a free lock adds it with a fresh, open channel.
abbrev with_lock : Text → Socket → Socket
with_lock id s = record s {
  message_id_locks = insert id s.next_lock s.message_id_locks;
  lock_closed = update s.lock_closed s.next_lock false;
  next_lock = s.next_lock + 1;
}

acquire_first_is :
    (id : Text) (s : Socket) {ch : ℕ} {s' : Socket}
    → Ops.acquire_message_id_lock id s ≡ (ch, true, s')
    → (lookup id s.message_id_locks ≡ none) × (s' ≡ with_lock id s)
unfolding Ops.acquire_message_id_lock
acquire_first_is id s e = ground arith

acquire_taken_is :
    (id : Text) (s : Socket) {ch : ℕ} {s' : Socket}
    → Ops.acquire_message_id_lock id s ≡ (ch, false, s')
    → (lookup id s.message_id_locks ≡ some ch) × (s' ≡ s)
unfolding Ops.acquire_message_id_lock
acquire_taken_is id s e = ground arith

module _ {id : Text} {s : Socket} {pc : ℕ → Phase} (inv : Wakes id s pc) where
  Wakes-with_lock : lookup id s.message_id_locks ≡ none → Wakes id (with_lock id s) pc
  Wakes-with_lock free = record {
    fresh =
        λ ch q. ground (arith, lookup-insert id id s.next_lock s.message_id_locks, text_eq_refl id);
    woken = λ j ch q. ground (arith, inv.woken j ch q);
  }

  -- The lock is given up: its channel is closed.
  Wakes-release : Wakes id (Ops.release_message_id_lock id s) pc
  unfolding Ops.release_message_id_lock
  Wakes-release = elim (Option-cases (lookup id s.message_id_locks)) [
    | inl free ↦ rw (free, Ops.release_message_id_lock) inv
    | inr (ch, taken) ↦
        rw (taken, Ops.release_message_id_lock)
          (record {
            fresh = λ c q. ground (arith, lookup-delete id id s.message_id_locks, text_eq_refl id);
            woken = λ j c q. ground (arith, inv.woken j c q);
          })
  ]

module _ {id : Text} {s : Socket} {pc : ℕ → Phase} (inv : Wakes id s pc) (i : ℕ) where
  Wakes-await :
      (s₀ : Socket) (node index : ℕ)
      → s₀.message_id_locks ≡ s.message_id_locks
      → s₀.next_lock ≡ s.next_lock
      → s₀.lock_closed ≡ s.lock_closed
      → Wakes id (await_next id node index s₀) (update pc i (receiving s₀.next_channel))
  unfolding await_next Ops.make_channel Ops.add_receiver
  Wakes-await s₀ node index locks next closed = Wakes-release (
      Wakes-quiet inv i
        (Ops.add_receiver id node index s₀.next_channel (record s₀ {
          channels = update s₀.channels s₀.next_channel Ops.empty_channel;
          next_channel = s₀.next_channel + 1;
        }))
        (receiving s₀.next_channel) locks next closed (λ ch q. cc))

  Move-Wakes :
      {p p' : Phase} {s' : Socket} → Move id s p s' p' → pc i ≡ p → Wakes id s' (update pc i p')
  unfolding Ops.remove_receiver
  Move-Wakes (enter e) here =
      let (free, same) = acquire_first_is id s e in
      rw same
        (Wakes-with_lock (Wakes-quiet inv i s (active false) refl refl refl (λ ch q. cc)) free)
  Move-Wakes (queue {ch} e) here =
      let (taken, same) = acquire_taken_is id s e in
      rw same (record {
        fresh = inv.fresh;
        woken = λ j c q. elim (ℕ_discrete i j) [
          | yes mine ↦ ground (arith, inv.fresh ch taken)
          | no ne ↦ inv.woken j c (ground arith)
        ];
      })
  Move-Wakes (wake e) here = Wakes-quiet inv i s arriving refl refl refl (λ ch q. cc)
  Move-Wakes (receive node index) here = Wakes-await s node index refl refl refl
  Move-Wakes (find {ch} node index e) here =
      Wakes-quiet inv i s (found ch) refl refl refl (λ c q. cc)
  Move-Wakes (remove {ch}) here =
      Wakes-quiet inv i (Ops.remove_receiver id s) (sending ch) refl refl refl (λ c q. cc)
  Move-Wakes (send {ch} m e) here =
      Wakes-quiet inv i (set_buffer ch (some m) s) done refl refl refl (λ c q. cc)
  Move-Wakes (take {ch} e) here =
      Wakes-quiet inv i (set_buffer ch none s) (active true) refl refl refl (λ c q. cc)
  Move-Wakes (skip {ch} node index e empty) here =
      Wakes-await (set_buffer ch none s) node index refl refl refl
  Move-Wakes pass_end here =
      Wakes-quiet inv i (Ops.remove_receiver id s) (active false) refl refl refl (λ c q. cc)
  Move-Wakes (release {own}) here =
      Wakes-release (Wakes-quiet inv i s (finishing own) refl refl refl (λ c q. cc))
  Move-Wakes finalize_own here =
      Wakes-quiet inv i (Ops.remove_receiver id s) done refl refl refl (λ c q. cc)
  Move-Wakes finalize_none here = Wakes-quiet inv i s done refl refl refl (λ c q. cc)

Step-Wakes :
    {id : Text} {s t : System} → Step id s t → Wakes id s.socket s.pc → Wakes id t.socket t.pc
Step-Wakes (pick i move) inv = Move-Wakes inv i move refl

Reach-Wakes : {id uuid : Text} {s : System} → Reach id uuid s → Wakes id s.socket s.pc
unfolding lookup
Reach-Wakes start = record { fresh = λ ch e. cc; woken = λ i ch e. cc }
Reach-Wakes (later r st) = Step-Wakes st (Reach-Wakes r)

-- No wake-up is lost: in every interleaving, a goroutine that waits for the lock of its id goes on
-- as soon as the lock is free.
pub wake_when_free :
    {id uuid : Text} {s : System}
    → Reach id uuid s
    → (i ch : ℕ) → s.pc i ≡ waiting ch
    → held id s.socket ≡ false
    → Move id s.socket (s.pc i) s.socket arriving
wake_when_free {s} r i ch here free =
    let (below, closed) = (Reach-Wakes r).woken i ch here in rw here (wake (ground arith))
