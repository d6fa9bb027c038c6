-- ===== src/Connection/Ping.antt =====
-- router.go: `SetPingInterval`, `SetPingTimeout`, `runPingLoop`, and where `HandleConnection` starts
-- it.
use velaros.Base.{
  ℕ, zero, suc, ap, ◌∙◌, Option-cases, ◌≡◌, refl, Bool, true, false, Option, none, some, List, [],
  ◌∷◌, Text, codes, arith, ◌+◌, ◌<◌, ◌⊎◌, inl, inr, if◌then◌else◌,
}
use velaros.Socket.Defs.{status_going_away, server_close_source, Socket}
use velaros.Socket.Ops.{close}

-- A `time.Duration`; `negsuc n` is -(n + 1).
pub data ℤ : Type 0 where
  pos : ℕ → ℤ
  negsuc : ℕ → ℤ

abbrev pub is_positive : ℤ → Bool
is_positive (pos (suc n)) = true
is_positive _ = false

-- The router's settings, 0 where they were not set.
pub record Liveness : Type 0 where
  pub ping_interval : ℤ
  pub ping_timeout : ℤ

-- What the loop waits for: `stop` is closed, or the ticker ticks.
pub data Signal : Type 0 where
  stop tick : Signal

-- What the n-th ping with a timeout answers: an error, or none for a pong in time.
abbrev pub Pinger : Type 0
Pinger = ℤ → ℕ → Option Text

abbrev pub dead : Socket → Socket
dead s = close status_going_away (codes "ping timeout") server_close_source s

abbrev pub answered : Option Text → Socket → Socket → Socket
answered none s rest = rest
answered (some e) s rest = dead s

-- The loop, from the n-th ping on.
pub ping_loop : Pinger → ℤ → ℕ → List Signal → Socket → Socket
ping_loop ping timeout n [] s = s
ping_loop ping timeout n (stop ∷ signals) s = s
ping_loop ping timeout n (tick ∷ signals) s =
    answered (ping timeout n) s (ping_loop ping timeout (suc n) signals s)

abbrev pub timeout_of : Liveness → ℤ
timeout_of l = if is_positive l.ping_timeout then l.ping_timeout else l.ping_interval

-- `runPingLoop`
unfoldable pub run_ping_loop : Liveness → Pinger → List Signal → Socket → Socket
unfolding ping_loop
run_ping_loop l ping signals s = ping_loop ping (timeout_of l) 0 signals s

-- `HandleConnection` starts the loop for a connection that can ping, if there is an interval.
unfoldable pub watch : Liveness → Option Pinger → List Signal → Socket → Socket
watch l none signals s = s
watch l (some ping) signals s =
    if is_positive l.ping_interval then run_ping_loop l ping signals s else s

-- The pings that the loop may send: the ticks before it is stopped.
abbrev pub ticks : List Signal → ℕ
ticks [] = 0
ticks (stop ∷ signals) = 0
ticks (tick ∷ signals) = suc (ticks signals)

-- The socket is closed for a ping that fails with this timeout, or no ping fails and it is left.
abbrev pub Watched : Pinger → ℤ → List Signal → Socket → Socket → Type 0
Watched ping timeout signals s s' =
    ((n : ℕ) × (e : Text) × (n < ticks signals)
      × (ping timeout n ≡ some e)
      × (s' ≡ close 1001 (codes "ping timeout") server_close_source s))
    ⊎ (((n : ℕ) → n < ticks signals → ping timeout n ≡ none) × (s' ≡ s))

-- The same from the n-th ping on.
abbrev WatchedFrom : Pinger → ℤ → ℕ → List Signal → Socket → Socket → Type 0
WatchedFrom ping timeout n signals s s' = Watched (λ t i. ping t (n + i)) timeout signals s s'

none_from :
    (ping : Pinger) (timeout : ℤ) (n k : ℕ)
    → ping timeout n ≡ none
    → ((i : ℕ) → i < k → ping timeout (suc n + i) ≡ none)
    → (i : ℕ) → i < suc k
    → ping timeout (n + i) ≡ none
none_from ping timeout n k pong all zero lt = ap (ping timeout) (omega arith) ∙ pong
none_from ping timeout n k pong all (suc j) lt =
    ap (ping timeout) (omega arith) ∙ all j (omega arith)

ping_loop-Watched :
    (ping : Pinger) (timeout : ℤ) (n : ℕ) (signals : List Signal) (s : Socket)
    → WatchedFrom ping timeout n signals s (ping_loop ping timeout n signals s)
unfolding ping_loop
ping_loop-Watched ping timeout n [] s = inr ((λ i lt. absurd (omega arith)), refl)
ping_loop-Watched ping timeout n (stop ∷ signals) s = inr ((λ i lt. absurd (omega arith)), refl)
ping_loop-Watched ping timeout n (tick ∷ signals) s =
    let now : ping timeout (n + 0) ≡ ping timeout n = ap (ping timeout) (omega arith) in
    let later : (i : ℕ) → ping timeout (n + suc i) ≡ ping timeout (suc n + i) =
      λ i. ap (ping timeout) (omega arith) in
    elim (Option-cases (ping timeout n)) [
      | inl pong ↦ rw pong (elim (ping_loop-Watched ping timeout (suc n) signals s) [
        | inl (i, e, lt, fails, is) ↦ inl (suc i, e, omega arith, later i ∙ fails, is)
        | inr (all, is) ↦ inr (none_from ping timeout n (ticks signals) pong all, is)
      ])
      | inr (e, fails) ↦ rw fails (inl (0, e, omega arith, now ∙ fails, refl))
    ]

run-Watched :
    (ping : Pinger) (timeout : ℤ) (signals : List Signal) (s : Socket)
    → Watched ping timeout signals s (ping_loop ping timeout 0 signals s)
run-Watched ping timeout signals s = elim (ping_loop-Watched ping timeout 0 signals s) [
  | inl (i, e, lt, fails, is) ↦ inl (i, e, lt, ap (ping timeout) (omega arith) ∙ fails, is)
  | inr (all, is) ↦ inr ((λ i lt. ap (ping timeout) (omega arith) ∙ all i lt), is)
]

-- What a connection is watched with: the timeout if it is positive, the interval otherwise.
abbrev pub waits_for : ℤ → ℤ → ℤ
waits_for interval (pos (suc n)) = pos (suc n)
waits_for interval _ = interval

-- A connection is watched if the interval is positive.
abbrev pub Watches : ℤ → ℤ → Pinger → List Signal → Socket → Socket → Type 0
Watches (pos (suc i)) timeout ping signals s s' =
    Watched ping (waits_for (pos (suc i)) timeout) signals s s'
Watches _ timeout ping signals s s' = s' ≡ s

Watches-loop :
    (interval timeout : ℤ) (ping : Pinger) (signals : List Signal) (s : Socket)
    → Watches interval timeout ping signals s
        (watch (record { ping_interval = interval; ping_timeout = timeout }) (some ping) signals s)
unfolding watch run_ping_loop
Watches-loop (pos (suc i)) (pos (suc n)) ping signals s = run-Watched ping (pos (suc n)) signals s
Watches-loop (pos (suc i)) (pos zero) ping signals s = run-Watched ping (pos (suc i)) signals s
Watches-loop (pos (suc i)) (negsuc n) ping signals s = run-Watched ping (pos (suc i)) signals s
Watches-loop (pos zero) timeout ping signals s = refl
Watches-loop (negsuc n) timeout ping signals s = refl

-- The liveness check leaves the socket as it is if no positive interval is set or the connection
-- cannot ping. Otherwise either one of the pings that the ticks before its end ask for fails, within
-- the timeout, or the interval where no positive timeout is set, and the socket is closed by the
-- server with status 1001 and the reason "ping timeout"; or none of them fails, and the socket is left
-- as it is.
pub watch-fails :
    (l : Liveness) (ping : Pinger) (signals : List Signal) (s : Socket)
    → (watch l none signals s ≡ s)
      × Watches l.ping_interval l.ping_timeout ping signals s (watch l (some ping) signals s)
unfolding watch
watch-fails l ping signals s = (refl, Watches-loop l.ping_interval l.ping_timeout ping signals s)
