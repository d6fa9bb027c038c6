-- ===== src/Conversation/Exclusion.antt =====
-- What the lock of a message id promises.
use velaros.Base.{ℕ, ◌≡◌, refl, Bool, true, false, Text}
use velaros.Socket.Defs.{Socket}
use velaros.Conversation.System.{Phase, active, found, sending, System, Reach}
use velaros.Conversation.Invariant.{Reach-Inv}
use velaros.Conversation.Owners.{held, owns}

-- In the handler chain, with the lock taken.
abbrev pub in_chain : Phase → Bool
in_chain (active _) = true
in_chain (found _) = true
in_chain (sending _) = true
in_chain _ = false

in_chain-owns : (s : Socket) (p : Phase) → in_chain p ≡ true → owns s p ≡ true
in_chain-owns s (active _) e = refl
in_chain-owns s (found _) e = refl
in_chain-owns s (sending _) e = refl
in_chain-owns s _ e = cc

-- While the socket is open and no wait is cancelled, of all messages with one id at most one is
-- in the handler chain at a time, in every interleaving, and the lock of the id is held while it
-- is there. One that waits in `Receive`, or that was handed to a receiver, does not count.
pub one_in_chain :
    {id uuid : Text} {s : System}
    → Reach id uuid s
    → (i j : ℕ) → in_chain (s.pc i) ≡ true
    → in_chain (s.pc j) ≡ true
    → (i ≡ j) × (held id s.socket ≡ true)
one_in_chain {s} r i j in_i in_j =
    let inv = Reach-Inv r in
    let owner = in_chain-owns s.socket (s.pc i) in_i in
    (inv.unique i j owner (in_chain-owns s.socket (s.pc j) in_j), inv.locked i owner)
