-- ===== src/Conversation/Invariant.antt =====
-- At most one goroutine owns the id: the one in the chain, or the one whose message has arrived.
use velaros.Base.{
  ℕ, ◌+◌, ◌≡◌, ◌≢◌, ◌⊎◌, inl, inr, refl, ◌∙◌, true, false, Option, none, some, Text, arith,
}
use native.Mathlib.Decide.{ℕ_discrete}
use velaros.Socket.Defs.{InboundMessage, Socket}
use velaros.Socket.Ops
use velaros.Socket.Ops.{update}
use velaros.Conversation.System.{
  Phase, arriving, active, finishing, done, waiting, found, sending, receiving, set_buffer,
  await_next, Move, enter, queue, wake, receive, find, remove, send, take, skip, pass_end, release,
  finalize_own, finalize_none, System, Step, pick, Reach, start, later,
}
use velaros.Conversation.Owners.{
  owns, held, channel_of, Inv, acquire_first, acquire_taken, release_lock, await_next_lem,
  owns-congr, owns-fresh, owns-set_buffer, owns-apart,
}

module _ {id : Text} {s : Socket} {pc : ℕ → Phase} (inv : Inv id s pc) (i : ℕ) where
  -- Moves that change no channel, and keep or free the lock.
  Inv-quiet :
      (s' : Socket) (p' : Phase)
      → s'.channels ≡ s.channels
      → s'.next_channel ≡ s.next_channel
      → channel_of p' ≡ none
      → (owns s p' ≡ true → (owns s (pc i) ≡ true) ⊎ (held id s ≡ false))
      → ((j : ℕ) → owns s (update pc i p' j) ≡ true → held id s' ≡ true)
      → Inv id s' (update pc i p')
  Inv-quiet s' p' channels next no_channel fresh locked = record {
    unique = λ j k o q. ground (
      arith,
      owns-congr s s' (update pc i p' j) channels,
      owns-congr s s' (update pc i p' k) channels,
      inv.unique j k,
      inv.unique i k,
      inv.unique i j,
      inv.locked j,
      inv.locked k,
      fresh,
    );
    locked = λ j o. locked j (ground (arith, owns-congr s s' (update pc i p' j) channels));
    apart = λ j k ch o q. ground (arith, inv.apart j k ch);
    known = λ j ch o. ground (arith, inv.known j ch);
  }

  -- The owner waits for the next message on a fresh channel, and gives the lock up. Before that
  -- it may have emptied a channel of its own.
  Inv-await :
      (s₀ s' : Socket)
      → owns s (pc i) ≡ true
      → ((j : ℕ) → i ≢ j → owns s₀ (pc j) ≡ owns s (pc j))
      → s'.channels ≡ update s₀.channels s.next_channel Ops.empty_channel
      → s'.next_channel ≡ s.next_channel + 1
      → Inv id s' (update pc i (receiving s.next_channel))
  Inv-await s₀ s' owner others channels next = record {
    unique = λ j k o q. absurd (nobody j o);
    locked = λ j o. absurd (nobody j o);
    apart = λ j k c o q. ground (arith, inv.apart j k c, inv.known j c, inv.known k c);
    known = λ j c o. ground (arith, inv.known j c);
  }
    where
      mine : owns s' (receiving s.next_channel) ≡ false
      mine = rw channels (ground arith)

      theirs : (j : ℕ) → i ≢ j → owns s' (pc j) ≡ owns s (pc j)
      theirs j ne =
          owns-fresh s₀ s' (pc j) s.next_channel channels (λ c o. inv.known j c o) ∙ others j ne

      nobody : (j : ℕ) → owns s' (update pc i (receiving s.next_channel) j) ≡ true → ⊥
      nobody j o = elim (ℕ_discrete i j) [
        | yes same ↦ ground (arith, mine)
        | no ne ↦ ground (arith, theirs j ne, inv.unique i j)
      ]

  -- The owner fills a channel and is done: who waits on the channel is the owner now.
  Inv-send :
      (ch : ℕ) (m : Option InboundMessage)
      → owns s (pc i) ≡ true
      → Inv id (set_buffer ch m s) (update pc i done)
  Inv-send ch m owner = record {
    unique = λ j k o q. inv.apart j k ch (heir j o) (heir k q);
    locked = λ j o. inv.locked i owner;
    apart = λ j k c o q. ground (arith, inv.apart j k c);
    known = λ j c o. ground (arith, inv.known j c);
  }
    where
      heir :
          (j : ℕ)
          → owns (set_buffer ch m s) (update pc i done j) ≡ true
          → channel_of (pc j) ≡ some ch
      heir j o = ground (arith, owns-set_buffer s (pc j) ch m, inv.unique i j)

  -- The owner takes its message, and is in the chain again.
  Inv-take :
      (ch : ℕ)
      → pc i ≡ receiving ch
      → owns s (pc i) ≡ true
      → Inv id (set_buffer ch none s) (update pc i (active true))
  Inv-take ch here owner = record {
    unique = λ j k o q. ground (arith, only j, only k);
    locked = λ j o. inv.locked i owner;
    apart = λ j k c o q. ground (arith, inv.apart j k c);
    known = λ j c o. ground (arith, inv.known j c);
  }
    where
      only : (j : ℕ) → owns (set_buffer ch none s) (update pc i (active true) j) ≡ true → i ≡ j
      only j o = ground (arith, owns-set_buffer s (pc j) ch none, inv.unique i j, inv.apart i j ch)

  Move-Inv :
      {p p' : Phase} {s' : Socket} → Move id s p s' p' → pc i ≡ p → Inv id s' (update pc i p')
  unfolding Ops.remove_receiver
  Move-Inv (enter {s'} e) here =
      let (free, taken, same) = acquire_first id s e in
      Inv-quiet s' (active false) same.0 same.1 refl (λ o. inr free) (λ j o. taken)
  Move-Inv (queue {ch} {s'} e) here =
      rw (acquire_taken id s e)
        (Inv-quiet s (waiting ch) refl refl refl (λ o. cc) (λ j o. ground (arith, inv.locked j)))
  Move-Inv (wake e) here =
      Inv-quiet s arriving refl refl refl (λ o. cc) (λ j o. ground (arith, inv.locked j))
  Move-Inv (receive node index) here =
      let (free, channels, next) = await_next_lem id node index s in
      Inv-await s (await_next id node index s) (rw here) (λ j ne. refl) channels next
  Move-Inv (find {ch} node index e) here =
      Inv-quiet s (found ch) refl refl refl (λ o. inl (rw here)) (λ j o. inv.locked i (rw here))
  Move-Inv (remove {ch}) here =
      Inv-quiet (Ops.remove_receiver id s) (sending ch) refl refl refl (λ o. inl (rw here))
        (λ j o. inv.locked i (rw here))
  Move-Inv (send {ch} m e) here = Inv-send ch (some m) (rw here)
  Move-Inv (take {ch} e) here = Inv-take ch here (rw (here, e))
  Move-Inv (skip {ch} node index e empty) here =
      let s₀ = set_buffer ch none s in
      let (free, channels, next) = await_next_lem id node index s₀ in
      Inv-await s₀ (await_next id node index s₀) (rw (here, e))
        (λ j ne. owns-apart s (pc j) ch none (λ q. ne (inv.apart i j ch (rw here) q))) channels next
  Move-Inv pass_end here =
      Inv-quiet (Ops.remove_receiver id s) (active false) refl refl refl (λ o. inl (rw here))
        (λ j o. inv.locked i (rw here))
  Move-Inv (release {own}) here =
      let owner : owns s (pc i) ≡ true = rw here in
      let (free, same) = release_lock id s in
      Inv-quiet (Ops.release_message_id_lock id s) (finishing own) same.0 same.1 refl (λ o. cc)
        (λ j o. ground (arith, inv.unique i j))
  Move-Inv finalize_own here =
      Inv-quiet (Ops.remove_receiver id s) done refl refl refl (λ o. cc)
        (λ j o. ground (arith, inv.locked j))
  Move-Inv finalize_none here =
      Inv-quiet s done refl refl refl (λ o. cc) (λ j o. ground (arith, inv.locked j))

Step-Inv : {id : Text} {s t : System} → Step id s t → Inv id s.socket s.pc → Inv id t.socket t.pc
Step-Inv (pick i move) inv = Move-Inv inv i move refl

pub Reach-Inv : {id uuid : Text} {s : System} → Reach id uuid s → Inv id s.socket s.pc
Reach-Inv start = record {
  unique = λ i j o q. cc;
  locked = λ i o. cc;
  apart = λ i j ch o q. cc;
  known = λ i ch o. cc;
}
Reach-Inv (later r st) = Step-Inv st (Reach-Inv r)
