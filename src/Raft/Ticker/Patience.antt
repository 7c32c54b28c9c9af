-- ===== src/Raft/Ticker/Patience.antt =====
-- How long a node that has heard of a leader waits before it stands.
use my_kv_storage_base_raft.Common.{
  ℕ, ◌+◌, ◌≤◌, ◌<◌, ◌≡◌, refl, ◌⊎◌, inl, inr, arith, some, ltb, true, false,
}
use my_kv_storage_base_raft.Raft.Types.{ok, AppendEntriesArgs, AppendEntriesReply, RequestVoteArgs}
use my_kv_storage_base_raft.Raft.State.{Raft, Archive}
use my_kv_storage_base_raft.Raft.Persist.{persist}
use my_kv_storage_base_raft.Raft.Vote.{do_election}
use my_kv_storage_base_raft.Raft.Append.{append_entries1}
use my_kv_storage_base_raft.Raft.History.Steps.{appends}
use my_kv_storage_base_raft.Raft.Ticker.{
  Clocked, Ticker, waiting, ready, asleep, Lives, lives, others_act, leaves_loop, falls_asleep, due,
  goes_round, falls_due, declines, stands, suitable_sleep_time, timer_expired,
  min_randomized_election_time,
}
use my_kv_storage_base_raft.Raft.Ticker.Timer.{Step-IsTimed, append_entries1-timer}

-- While the ticker sleeps: it began in the past, and the timer was reset since, or the ticker sleeps
-- until the shortest timeout is over. A test of the timer was in the past.
abbrev Sleeps : ℕ → ℕ → Ticker → Type 0
Sleeps last_reset clock waiting = Unit {0}
Sleeps last_reset clock ready = Unit {0}
Sleeps last_reset clock (asleep weak_time wake) =
    (weak_time ≤ clock)
    × ((weak_time < last_reset) ⊎ (last_reset + min_randomized_election_time ≤ wake + 1))
Sleeps last_reset clock (due tested) = tested ≤ clock

-- The timer holds a time that was read, and the ticker sleeps long enough.
pub record IsPatient (z : Clocked) : Type 0 where
  pub past : z.node.last_reset_election_time ≤ z.clock
  pub sleeps : Sleeps z.node.last_reset_election_time z.clock z.ticker

Sleeps-later :
    (last_reset clock now : ℕ) (ticker : Ticker)
    → clock < now
    → Sleeps last_reset clock ticker
    → Sleeps last_reset now ticker
Sleeps-later last_reset clock now waiting h k = tt
Sleeps-later last_reset clock now ready h k = tt
Sleeps-later last_reset clock now (asleep weak_time wake) h k = (omega (arith, h, k.0), k.1)
Sleeps-later last_reset clock now (due tested) h k = omega (arith, h, k)

Sleeps-reset :
    (last_reset clock now : ℕ) (ticker : Ticker)
    → clock < now
    → Sleeps last_reset clock ticker
    → Sleeps now now ticker
Sleeps-reset last_reset clock now waiting h k = tt
Sleeps-reset last_reset clock now ready h k = tt
Sleeps-reset last_reset clock now (asleep weak_time wake) h k =
    (omega (arith, h, k.0), inl (omega (arith, h, k.0)))
Sleeps-reset last_reset clock now (due tested) h k = omega (arith, h, k)

do_election-timer :
    (ar : Archive) (s : Raft) (now : ℕ) {t : Raft} {args : RequestVoteArgs}
    → do_election ar s now ≡ some (t, args)
    → t.last_reset_election_time ≡ now
unfolding do_election persist
do_election-timer ar s now h = ground arith

timer_expired-since :
    (s : Raft) (weak_time : ℕ)
    → timer_expired s weak_time ≡ true
    → s.last_reset_election_time ≤ weak_time
unfolding timer_expired
timer_expired-since s weak_time h = ground arith

Lives-IsPatient :
    (ar : Archive) {z y : Clocked}
    → IsPatient z
    → Lives ar z y
    → IsPatient y × (z.node.last_reset_election_time ≤ y.node.last_reset_election_time)
unfolding suitable_sleep_time
Lives-IsPatient ar p lives = (p, omega arith)
Lives-IsPatient ar {z} p (others_act {y = x} {t} now before later step reads) =
    let (q, low) = Lives-IsPatient ar p before in
    let was = x.node.last_reset_election_time in
    elim (Step-IsTimed ar now step reads) [
      | inl same ↦ (
        record {
          past = omega (arith, same, q.past, later);
          sleeps = rw same (Sleeps-later was x.clock now x.ticker later q.sleeps);
        },
        omega (arith, same, low),
      )
      | inr reset ↦ (
        record {
          past = omega (arith, reset);
          sleeps = rw reset (Sleeps-reset was x.clock now x.ticker later q.sleeps);
        },
        omega (arith, reset, low, q.past, later),
      )
    ]
Lives-IsPatient ar p (leaves_loop before loop other) =
    let (q, low) = Lives-IsPatient ar p before in (record { past = q.past; sleeps = tt }, low)
Lives-IsPatient ar p (falls_asleep {y = x} timeout now before at_work later least most) =
    let (q, low) = Lives-IsPatient ar p before in
    (
      record {
        past = omega (arith, q.past, later);
        sleeps = (omega arith, inr (ground (arith, least, q.past, later)));
      },
      low,
    )
Lives-IsPatient ar p (goes_round weak_time wake now before off over later none) =
    let (q, low) = Lives-IsPatient ar p before in
    (record { past = omega (arith, q.past, later); sleeps = tt }, low)
Lives-IsPatient ar p (falls_due weak_time wake now before off over later at_end) =
    let (q, low) = Lives-IsPatient ar p before in
    (record { past = omega (arith, q.past, later); sleeps = omega arith }, low)
Lives-IsPatient ar p (declines tested now before off later none) =
    let (q, low) = Lives-IsPatient ar p before in
    (record { past = omega (arith, q.past, later); sleeps = tt }, low)
Lives-IsPatient ar p (stands {y = x} tested now before off later some_args) =
    let (q, low) = Lives-IsPatient ar p before in
    let timer = do_election-timer ar x.node now some_args in
    (record { past = omega (arith, timer); sleeps = tt }, omega (arith, timer, low, q.past, later))

-- A test of the timer that lets the ticker go on was before the time `heard`, or long enough after.
abbrev pub Defers : ℕ → Ticker → Type 0
Defers heard waiting = Unit {0}
Defers heard ready = Unit {0}
Defers heard (asleep weak_time wake) = Unit {0}
Defers heard (due tested) = (tested < heard) ⊎ (heard + min_randomized_election_time ≤ tested + 1)

Sleeps-Defers :
    (last_reset clock heard : ℕ) (ticker : Ticker)
    → clock < heard
    → Sleeps last_reset clock ticker
    → Defers heard ticker
Sleeps-Defers last_reset clock heard waiting h k = tt
Sleeps-Defers last_reset clock heard ready h k = tt
Sleeps-Defers last_reset clock heard (asleep weak_time wake) h k = tt
Sleeps-Defers last_reset clock heard (due tested) h k = inl (omega (arith, h, k))

Lives-Defers :
    (ar : Archive) (heard : ℕ) {z y : Clocked}
    → IsPatient z
    → z.node.last_reset_election_time ≡ heard
    → Defers heard z.ticker
    → Lives ar z y
    → Defers heard y.ticker
Lives-Defers ar heard p e d lives = d
Lives-Defers ar heard p e d (others_act now before later step reads) =
    Lives-Defers ar heard p e d before
Lives-Defers ar heard p e d (leaves_loop before loop other) = tt
Lives-Defers ar heard p e d (falls_asleep timeout now before at_work later least most) = tt
Lives-Defers ar heard p e d (goes_round weak_time wake now before off over later reset) = tt
Lives-Defers ar heard p e d (falls_due {y = x} weak_time wake now before off over later expired) =
    let (q, low) = Lives-IsPatient ar p before in
    let still = timer_expired-since x.node weak_time expired in
    let s : Sleeps x.node.last_reset_election_time x.clock (asleep weak_time wake) =
      rw off at q.sleeps in
    inr (ground (arith, s, e, low, still, over))
Lives-Defers ar heard p e d (declines tested now before off later none) = tt
Lives-Defers ar heard p e d (stands tested now before off later some_args) = tt

-- A node is sent a request `AppendEntries` by a leader whose term is not behind, at the time `heard`.
-- When its ticker is on its way into `doElection`, whatever its other threads do and hear before and
-- after, then the ticker tested the timer before `heard`, or at least 299 ms after. (`doElection`
-- does not test again, so a message that comes behind the test does not hold the node back.) Its life
-- began with the ticker awake and with a timer that held a time of the past, and each reading of the
-- clock is later than the one before.
pub append_entries1-defers :
    (ar : Archive) {x z y : Clocked} (args : AppendEntriesArgs) (heard tested : ℕ) {t : Raft}
    {reply : AppendEntriesReply}
    → x.ticker ≡ waiting
    → x.node.last_reset_election_time ≤ x.clock
    → Lives ar x z
    → z.clock < heard
    → ltb args.term z.node.current_term ≡ false
    → append_entries1 ar z.node args heard ≡ ok (t, reply)
    → Lives ar (record z { node = t; clock = heard }) y
    → y.ticker ≡ due tested
    → (tested < heard) ⊎ (heard + min_randomized_election_time ≤ tested + 1)
append_entries1-defers ar {x} {z} args heard tested {t} {reply} awake past life later current h run
      off =
    let p : IsPatient x = record { past = past; sleeps = rw awake tt } in
    let (q, _) = Lives-IsPatient ar p life in
    let (q', _) =
      Lives-IsPatient ar p (others_act heard life later (appends args heard reply h) refl) in
    let d = Sleeps-Defers z.node.last_reset_election_time z.clock heard z.ticker later q.sleeps in
    rw off at
      (Lives-Defers ar heard q' (append_entries1-timer ar z.node args heard current h) d run)
