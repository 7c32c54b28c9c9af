-- ===== src/Raft/Ticker.antt =====
-- `electionTimeoutTicker` and `leaderHearBeatTicker` of Raft.cpp: when a node stands, and when a
-- leader sends heartbeats. Times are whole milliseconds; the random timeout is an argument.
pub mod Timer
pub mod Patience
use my_kv_storage_base_raft.Common.{
  ℕ, ◌+◌, ◌-◌, ◌≤◌, ◌<◌, ◌≡◌, ◌≢◌, Bool, true, false, Option, none, some, List, ltb, not,
  if◌then◌else◌,
}
use my_kv_storage_base_raft.Raft.Types.{leader, RequestVoteArgs}
use my_kv_storage_base_raft.Raft.State.{Raft, Archive}
use my_kv_storage_base_raft.Raft.Vote.{do_election}
use my_kv_storage_base_raft.Raft.Heartbeat.{Outgoing, do_heart_beat}
use my_kv_storage_base_raft.Raft.History.Steps.{
  Step, votes, appends, installs, elects, counts, hears, synced, starts, beats, sends, flushes,
  halts, applies, restarts,
}

abbrev pub hear_beat_timeout : ℕ
hear_beat_timeout = 25

abbrev pub min_randomized_election_time : ℕ
min_randomized_election_time = 300

abbrev pub max_randomized_election_time : ℕ
max_randomized_election_time = 500

-- The sleep that both tickers compute; a time of a millisecond or less is not slept.
unfoldable pub suitable_sleep_time : ℕ → ℕ → ℕ → ℕ
suitable_sleep_time timeout last_reset weak_time =
    if ltb (weak_time + 1) (timeout + last_reset) then timeout + last_reset - weak_time else 0

-- What the election ticker tests when it is awake again, without a lock: the timer was not reset
-- since `weak_time`.
unfoldable pub timer_expired : Raft → ℕ → Bool
timer_expired s weak_time = not (ltb weak_time s.last_reset_election_time)

-- What the heartbeat ticker does when it is awake again, if nothing comes between its test, which is
-- without a lock as well, and `doHeartBeat`.
unfoldable pub hear_beat_round : Raft → ℕ → ℕ → Option (Raft × List (ℕ × Outgoing))
hear_beat_round s weak_time now =
    if ltb weak_time s.last_reset_hear_beat_time then none else some (do_heart_beat s now)

-- Where the thread of the election ticker is: in the loop that waits while the node leads, behind
-- it, asleep from `weak_time` to the second number, or on its way into `doElection`, after a test of
-- the timer at the time `tested`.
pub data Ticker : Type 0 where
  waiting : Ticker
  ready : Ticker
  asleep : (weak_time wake : ℕ) → Ticker
  due : (tested : ℕ) → Ticker

-- A node, the last time that was read of its clock, and its election ticker.
pub record Clocked : Type 0 where
  pub node : Raft
  pub clock : ℕ
  pub ticker : Ticker

-- A step of the other threads that reads the clock reads `now`. Only the ticker stands, and a
-- restart begins another life with another ticker.
abbrev pub Reads : {ar : Archive} {s t : Raft} → ℕ → Step ar s t → Type 0
Reads clock (elects now args h) = ⊥
Reads clock (restarts ch now h) = ⊥
Reads clock (votes args now reply h) = now ≡ clock
Reads clock (appends args now reply h) = now ≡ clock
Reads clock (starts command now) = now ≡ clock
Reads clock (beats now) = now ≡ clock
Reads clock (sends now out h) = now ≡ clock
Reads clock (installs request) = Unit {0}
Reads clock (counts reply vote_num n h) = Unit {0}
Reads clock (hears peer args reply nums n h) = Unit {0}
Reads clock (synced peer index reply nums) = Unit {0}
Reads clock (flushes peer) = Unit {0}
Reads clock halts = Unit {0}
Reads clock (applies h) = Unit {0}

-- A life of the node with its ticker from `z` on. Whoever reads the clock reads a later time than
-- was read before.
pub data Lives (ar : Archive) (z : Clocked) : Clocked → Type 0 where
  lives : Lives ar z z
  others_act :
      {y : Clocked} {t : Raft} (now : ℕ)
      → Lives ar z y
      → y.clock < now
      → (step : Step ar y.node t) → Reads now step
      → Lives ar z (record y { node = t; clock = now })
  leaves_loop :
      {y : Clocked}
      → Lives ar z y
      → y.ticker ≡ waiting
      → y.node.status ≢ leader
      → Lives ar z (record y { ticker = ready })
  falls_asleep :
      {y : Clocked} (timeout now : ℕ)
      → Lives ar z y
      → y.ticker ≡ ready
      → y.clock < now
      → min_randomized_election_time ≤ timeout
      → timeout ≤ max_randomized_election_time
      → Lives ar z (record y {
        clock = now;
        ticker = asleep now (now + suitable_sleep_time timeout y.node.last_reset_election_time now);
      })
  goes_round :
      {y : Clocked} (weak_time wake now : ℕ)
      → Lives ar z y
      → y.ticker ≡ asleep weak_time wake
      → wake ≤ now
      → y.clock < now
      → timer_expired y.node weak_time ≡ false
      → Lives ar z (record y { clock = now; ticker = waiting })
  falls_due :
      {y : Clocked} (weak_time wake now : ℕ)
      → Lives ar z y
      → y.ticker ≡ asleep weak_time wake
      → wake ≤ now
      → y.clock < now
      → timer_expired y.node weak_time ≡ true
      → Lives ar z (record y { clock = now; ticker = due now })
  declines :
      {y : Clocked} (tested now : ℕ)
      → Lives ar z y
      → y.ticker ≡ due tested
      → y.clock < now
      → do_election ar y.node now ≡ none
      → Lives ar z (record y { clock = now; ticker = waiting })
  stands :
      {y : Clocked} {t : Raft} {args : RequestVoteArgs} (tested now : ℕ)
      → Lives ar z y
      → y.ticker ≡ due tested
      → y.clock < now
      → do_election ar y.node now ≡ some (t, args)
      → Lives ar z (record { node = t; clock = now; ticker = waiting })
