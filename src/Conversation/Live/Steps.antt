-- ===== src/Conversation/Live/Steps.antt =====
-- The moves keep the lock in somebody's hands, and the receivers waited on.
use velaros.Base.{
  ap, ℕ, ◌≡◌, ◌≢◌, refl, ◌∙◌, sym, true, false, none, some, Text, arith, inl, inr, Option-cases,
}
use mathlib.Core.Path.{subst}
use native.Mathlib.Decide.{ℕ_discrete}
use velaros.Base.Maps.{lookup}
use velaros.Socket.Defs.{InboundMessage, ReceiverEntry, Socket}
use velaros.Socket.Ops
use velaros.Socket.Ops.{update}
use velaros.Conversation.System.{
  Phase, arriving, active, finishing, done, waiting, found, sending, receiving, set_buffer,
  await_next, Move, enter, queue, wake, receive, find, remove, send, take, skip, pass_end, release,
  finalize_own, finalize_none, System, Step, pick, Reach, start, later,
}
use velaros.Conversation.Owners.{
  owns, held, channel_of, Inv, acquire_first, acquire_taken, release_lock, await_next_lem,
  owns-congr,
}
use velaros.Conversation.Invariant.{Reach-Inv}
use velaros.Conversation.Live.{
  target, Awaited, Live, channel_in, await_next_registered, gone, removed, acquire_receivers,
  release_receivers, found_registered, alone,
}

module _ {id : Text} {s : Socket} {pc : ℕ → Phase} (live : Live id s pc) (i : ℕ) where
  Awaited-keeps :
      (s' : Socket) (p' : Phase) (ch : ℕ)
      → (s'.channels ch).buffer ≡ (s.channels ch).buffer
      → pc i ≢ receiving ch
      → Awaited s pc ch
      → Awaited s' (update pc i p') ch
  Awaited-keeps s' p' ch same ne (j, waits, empty) = (j, ground arith, same ∙ empty)

  -- Moves that change no channel, and register nobody.
  Live-quiet :
      (s' : Socket) (p' : Phase)
      → s'.channels ≡ s.channels
      → channel_of (pc i) ≡ none
      → ((r : ReceiverEntry) → lookup id s'.receivers ≡ some r → lookup id s.receivers ≡ some r)
      → ((ch : ℕ) → target p' ≡ some ch → Awaited s pc ch)
      → ((ch : ℕ) → p' ≡ sending ch → lookup id s'.receivers ≡ none)
      → (held id s' ≡ true → (j : ℕ) × (owns s (update pc i p' j) ≡ true))
      → Live id s' (update pc i p')
  Live-quiet s' p' channels apart kept aims clears owner = record {
    owned = λ e. let (j, o) = owner e in (j, owns-congr s s' (update pc i p' j) channels ∙ o);
    registered = λ r e. carry r.ch (live.registered r (kept r e));
    aimed = λ j ch e. elim (ℕ_discrete i j) [
      | yes same ↦ carry ch (aims ch (ground arith))
      | no ne ↦ carry ch (live.aimed j ch (ground arith))
    ];
    cleared = λ j ch e. elim (ℕ_discrete i j) [
      | yes same ↦ clears ch (ground arith)
      | no ne ↦ unregistered (live.cleared j ch (ground arith))
    ];
  }
    where
      carry : (ch : ℕ) → Awaited s pc ch → Awaited s' (update pc i p') ch
      carry ch awaited = Awaited-keeps s' p' ch (rw channels) (λ e. ground arith) awaited

      unregistered : lookup id s.receivers ≡ none → lookup id s'.receivers ≡ none
      unregistered e = elim (Option-cases (lookup id s'.receivers)) [
        | inl gone ↦ gone
        | inr (r, there) ↦ ground (arith, kept r there)
      ]

  -- The owner waits on a fresh channel, registered for the id, and the lock is free.
  Live-await :
      (s₀ : Socket) (node index : ℕ)
      → Inv id s pc
      → owns s (pc i) ≡ true
      → Live id (await_next id node index s₀) (update pc i (receiving s₀.next_channel))
  Live-await s₀ node index inv owner = record {
    owned =
        λ e. let (free, channels, next) = await_next_lem id node index s₀ in absurd (ground arith);
    registered = λ r e.
        let here : s₀.next_channel ≡ r.ch =
          ap channel_in (sym (await_next_registered id node index s₀) ∙ e) in
        let (free, channels, next) = await_next_lem id node index s₀ in
        subst (Awaited (await_next id node index s₀) (update pc i (receiving s₀.next_channel))) here
          (i, ground arith, rw channels (ground arith));
    aimed = λ j ch e. absurd (alone i (receiving s₀.next_channel) inv owner refl j ch e);
    cleared = λ j ch e. absurd (alone i (receiving s₀.next_channel) inv owner refl j ch (rw e));
  }

  -- The message is handed over: who waits on the channel owns the id.
  Live-send :
      (ch : ℕ) (m : InboundMessage)
      → Inv id s pc
      → pc i ≡ sending ch
      → Live id (set_buffer ch (some m) s) (update pc i done)
  Live-send ch m inv here = record {
    owned = λ e. let (j, waits, empty) = live.aimed i ch (rw here) in (j, ground arith);
    registered = λ r e. absurd (ground (arith, live.cleared i ch here));
    aimed = λ j c e. absurd (alone i done inv (rw here) refl j c e);
    cleared = λ j c e. absurd (alone i done inv (rw here) refl j c (rw e));
  }

  -- The message is taken; the other channels are as they were.
  Live-take :
      (ch : ℕ) (m : InboundMessage)
      → Inv id s pc
      → pc i ≡ receiving ch
      → (s.channels ch).buffer ≡ some m
      → Live id (set_buffer ch none s) (update pc i (active true))
  Live-take ch m inv here full = record {
    owned = λ e. (i, ground arith);
    registered =
        λ r e. let (j, waits, empty) = live.registered r e in (j, ground arith, ground arith);
    aimed = λ j c e. absurd (alone i (active true) inv (rw (here, full)) refl j c e);
    cleared = λ j c e. absurd (alone i (active true) inv (rw (here, full)) refl j c (rw e));
  }

  -- An owner that is not the goroutine at hand is still there after its move.
  still_owned :
      (p' : Phase)
      → held id s ≡ true
      → owns s (pc i) ≡ false
      → (j : ℕ) × (owns s (update pc i p' j) ≡ true)
  still_owned p' taken other = let (j, o) = live.owned taken in (j, ground arith)

  Move-Live :
      {p p' : Phase} {s' : Socket}
      → Move id s p s' p'
      → Inv id s pc
      → pc i ≡ p
      → Live id s' (update pc i p')
  unfolding Ops.remove_receiver
  Move-Live (enter {ch} {s'} e) inv here =
      let (free, taken, same) = acquire_first id s e in
      Live-quiet s' (active false) same.0 (rw here) (λ r q. rw (acquire_receivers id s e) at q)
        (λ c q. cc) (λ c q. cc) (λ q. (i, ground arith))
  Move-Live (queue {ch} {s'} e) inv here = rw (acquire_taken id s e) (
      Live-quiet s (waiting ch) refl (rw here) (λ r q. q) (λ c q. cc) (λ c q. cc)
        (λ q. still_owned (waiting ch) q (rw here)))
  Move-Live (wake e) inv here =
      Live-quiet s arriving refl (rw here) (λ r q. q) (λ c q. cc) (λ c q. cc)
        (λ q. still_owned arriving q (rw here))
  Move-Live (receive node index) inv here = Live-await s node index inv (rw here)
  Move-Live (find {ch} node index e) inv here =
      let (r, there, same) = found_registered id node index ch s e in
      Live-quiet s (found ch) refl (rw here) (λ r q. q)
        (λ c q. subst (Awaited s pc) (ground arith) (live.registered r there)) (λ c q. cc)
        (λ q. (i, ground arith))
  Move-Live (remove {ch}) inv here =
      Live-quiet (Ops.remove_receiver id s) (sending ch) refl (rw here) (removed id s)
        (λ c q. live.aimed i c (rw here q)) (λ c q. gone id s) (λ q. (i, ground arith))
  Move-Live (send {ch} m e) inv here = Live-send ch m inv here
  Move-Live (take {ch} {m} e) inv here = Live-take ch m inv here e
  Move-Live (skip {ch} node index e empty) inv here =
      Live-await (set_buffer ch none s) node index inv (rw (here, e))
  Move-Live pass_end inv here =
      Live-quiet (Ops.remove_receiver id s) (active false) refl (rw here) (removed id s) (λ c q. cc)
        (λ c q. cc) (λ q. (i, ground arith))
  Move-Live (release {own}) inv here =
      let (free, same) = release_lock id s in
      Live-quiet (Ops.release_message_id_lock id s) (finishing own) same.0 (rw here)
        (λ r q. rw (release_receivers id s) at q) (λ c q. cc) (λ c q. cc)
        (λ q. absurd (ground arith))
  Move-Live finalize_own inv here =
      Live-quiet (Ops.remove_receiver id s) done refl (rw here) (removed id s) (λ c q. cc)
        (λ c q. cc) (λ q. still_owned done q (rw here))
  Move-Live finalize_none inv here =
      Live-quiet s done refl (rw here) (λ r q. q) (λ c q. cc) (λ c q. cc)
        (λ q. still_owned done q (rw here))

Step-Live :
    {id : Text} {s t : System}
    → Step id s t
    → Inv id s.socket s.pc
    → Live id s.socket s.pc
    → Live id t.socket t.pc
Step-Live (pick i move) inv live = Move-Live live i move inv refl

pub Reach-Live : {id uuid : Text} {s : System} → Reach id uuid s → Live id s.socket s.pc
unfolding lookup
Reach-Live start = record {
  owned = λ e. cc;
  registered = λ r e. cc;
  aimed = λ i ch e. cc;
  cleared = λ i ch e. cc;
}
Reach-Live (later r st) = Step-Live st (Reach-Inv r) (Reach-Live r)
