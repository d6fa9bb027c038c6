-- ===== src/Socket/Receivers.antt =====
-- socket.go: the receivers that are registered on a socket, and their channels.
use velaros.Base.{ℕ, ◌<◌, ◌≡◌, sym, ap, ◌∙◌, Bool, false, some, Text, arith}
use mathlib.Core.Path.{subst}
use velaros.Base.Maps.{lookup, lookup-insert}
use velaros.Socket.Defs.{Status, CloseSource, ReceiverEntry, Channel, Socket}
use velaros.Socket.Ops

-- Every registered receiver has a channel that was made and that is not closed.
pub record HasOpenReceivers (s : Socket) : Type 0 where
  pub open_channel :
      (id : Text) (r : ReceiverEntry)
      → lookup id s.receivers ≡ some r
      → (s.channels r.ch).closed ≡ false
  pub made :
      (id : Text) (r : ReceiverEntry) → lookup id s.receivers ≡ some r → r.ch < s.next_channel

pub same_receivers :
    (s s' : Socket)
    → s'.receivers ≡ s.receivers
    → s'.channels ≡ s.channels
    → s'.next_channel ≡ s.next_channel
    → HasOpenReceivers s
    → HasOpenReceivers s'
same_receivers s s' rs cs n h = record {
  open_channel = λ id r e.
      ap (λ (c : ℕ → Channel). (c r.ch).closed) cs
      ∙ h.open_channel id r (sym (ap (lookup id) rs) ∙ e);
  made = λ id r e. subst (λ k. r.ch < k) (sym n) (h.made id r (sym (ap (lookup id) rs) ∙ e));
}

pub close-HasOpenReceivers :
    (status : Status) (reason : Text) (source : CloseSource) (s : Socket)
    → HasOpenReceivers s
    → HasOpenReceivers (Ops.close status reason source s)
unfolding Ops.close lookup
close-HasOpenReceivers status reason source s h = record {
  open_channel = λ id r e. ground (arith, h.open_channel id r);
  made = λ id r e. ground (arith, h.made id r);
}

abbrev pub third : ℕ × Bool × Socket → Socket
third (ch, first, s) = s

abbrev pub socket_of : ℕ × Socket → Socket
socket_of (ch, s) = s

pub add_fresh-HasOpenReceivers :
    (id : Text) (node index : ℕ) (s : Socket)
    → HasOpenReceivers s
    → HasOpenReceivers
        (Ops.add_receiver id node index s.next_channel (socket_of (Ops.make_channel s)))
unfolding Ops.add_receiver Ops.make_channel
add_fresh-HasOpenReceivers id node index s h = record {
  open_channel = λ k r e. ground (
    arith,
    lookup-insert id k (record { node = node; handler_index = index; ch = s.next_channel })
        s.receivers,
    h.open_channel k r,
    h.made k r,
  );
  made = λ k r e. ground (
    arith,
    lookup-insert id k (record { node = node; handler_index = index; ch = s.next_channel })
        s.receivers,
    h.made k r,
  );
}

pub acquire-HasOpenReceivers :
    (id : Text) (s : Socket)
    → HasOpenReceivers s
    → HasOpenReceivers (third (Ops.acquire_message_id_lock id s))
unfolding Ops.acquire_message_id_lock
acquire-HasOpenReceivers id s h = same_receivers s _ (ground arith) (ground arith) (ground arith) h

pub release-HasOpenReceivers :
    (id : Text) (s : Socket)
    → HasOpenReceivers s
    → HasOpenReceivers (Ops.release_message_id_lock id s)
unfolding Ops.release_message_id_lock
release-HasOpenReceivers id s h = same_receivers s _ (ground arith) (ground arith) (ground arith) h
