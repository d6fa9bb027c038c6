-- ===== src/Conversation/Owners.antt =====
-- Which goroutine owns the id, and what the operations on the socket change of that.
use velaros.Base.{
  ℕ, ◌+◌, ◌<◌, ◌≡◌, ◌⊎◌, inr, refl, Bool, true, false, Option, none, some, Text, arith,
  text_eq_refl,
}
use velaros.Base.Maps.{lookup, lookup-insert, lookup-delete}
use velaros.Socket.Defs.{InboundMessage, Socket}
use velaros.Socket.Ops
use velaros.Socket.Ops.{update}
use velaros.Context.Next.{is_some}
use velaros.Conversation.System.{
  Phase, arriving, active, found, sending, receiving, set_buffer, await_next,
}

-- A goroutine owns the id while it runs the chain, and once its channel holds a message.
abbrev pub owns : Socket → Phase → Bool
owns s (active _) = true
owns s (found _) = true
owns s (sending _) = true
owns s (receiving ch) = is_some (s.channels ch).buffer
owns s _ = false

abbrev pub held : Text → Socket → Bool
held id s = is_some (lookup id s.message_id_locks)

abbrev pub channel_of : Phase → Option ℕ
channel_of (receiving ch) = some ch
channel_of _ = none

pub record Inv (id : Text) (s : Socket) (pc : ℕ → Phase) : Type 0 where
  pub unique : (i j : ℕ) → owns s (pc i) ≡ true → owns s (pc j) ≡ true → i ≡ j
  pub locked : (i : ℕ) → owns s (pc i) ≡ true → held id s ≡ true
  pub apart : (i j ch : ℕ) → channel_of (pc i) ≡ some ch → channel_of (pc j) ≡ some ch → i ≡ j
  pub known : (i ch : ℕ) → channel_of (pc i) ≡ some ch → ch < s.next_channel

-- What a lock operation does to the locks, and leaves as it is.
abbrev pub SameRest : Socket → Socket → Type 0
SameRest s s' = (s'.channels ≡ s.channels) × (s'.next_channel ≡ s.next_channel)

pub acquire_first :
    (id : Text) (s : Socket) {ch : ℕ} {s' : Socket}
    → Ops.acquire_message_id_lock id s ≡ (ch, true, s')
    → (held id s ≡ false) × (held id s' ≡ true) × SameRest s s'
unfolding Ops.acquire_message_id_lock
acquire_first id s e =
    ground (arith, lookup-insert id id s.next_lock s.message_id_locks, text_eq_refl id)

pub acquire_taken :
    (id : Text) (s : Socket) {ch : ℕ} {s' : Socket}
    → Ops.acquire_message_id_lock id s ≡ (ch, false, s')
    → s' ≡ s
unfolding Ops.acquire_message_id_lock
acquire_taken id s e = ground arith

pub release_lock :
    (id : Text) (s : Socket)
    → (held id (Ops.release_message_id_lock id s) ≡ false)
      × SameRest s (Ops.release_message_id_lock id s)
unfolding Ops.release_message_id_lock
release_lock id s = ground (arith, lookup-delete id id s.message_id_locks, text_eq_refl id)

pub await_next_lem :
    (id : Text) (node index : ℕ) (s : Socket)
    → (held id (await_next id node index s) ≡ false)
      × ((await_next id node index s).channels ≡ update s.channels s.next_channel Ops.empty_channel)
      × ((await_next id node index s).next_channel ≡ s.next_channel + 1)
unfolding await_next Ops.make_channel Ops.add_receiver
await_next_lem id node index s =
    let (free, same) = release_lock id (
      Ops.add_receiver id node index s.next_channel (record s {
        channels = update s.channels s.next_channel Ops.empty_channel;
        next_channel = s.next_channel + 1;
      })) in
    (free, same.0, same.1)

pub owns-congr : (s s' : Socket) (p : Phase) → s'.channels ≡ s.channels → owns s' p ≡ owns s p
owns-congr s s' (receiving ch) e = rw e
owns-congr s s' arriving e = refl
owns-congr s s' _ e = refl

pub owns-fresh :
    (s s' : Socket) (p : Phase) (n : ℕ)
    → s'.channels ≡ update s.channels n Ops.empty_channel
    → ((c : ℕ) → channel_of p ≡ some c → c < n)
    → owns s' p ≡ owns s p
owns-fresh s s' (receiving c) n e below = rw e (ground (arith, below c refl))
owns-fresh s s' arriving n e below = refl
owns-fresh s s' _ n e below = refl

pub owns-set_buffer :
    (s : Socket) (p : Phase) (ch : ℕ) (m : Option InboundMessage)
    → owns (set_buffer ch m s) p ≡ true
    → (channel_of p ≡ some ch) ⊎ (owns s p ≡ true)
owns-set_buffer s (receiving c) ch m o = ground arith
owns-set_buffer s arriving ch m o = inr o
owns-set_buffer s _ ch m o = inr o

pub owns-apart :
    (s : Socket) (p : Phase) (ch : ℕ) (m : Option InboundMessage)
    → (channel_of p ≡ some ch → ⊥)
    → owns (set_buffer ch m s) p ≡ owns s p
owns-apart s (receiving c) ch m ne = ground arith
owns-apart s arriving ch m ne = refl
owns-apart s _ ch m ne = refl
