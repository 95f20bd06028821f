-- ===== src/Main.antt =====
-- main.cpp: reading the BIOS, and the loop of `main2` that resumes the program with the next event.
mod Tests
pub mod Bios
pub mod Rounds
use craft_osos.Base.{
  ℕ, zero, suc, ◌+◌, ◌/◌, Bool, true, false, not, Option, none, some, List, [], ◌∷◌, ◌==◌,
  if◌then◌else◌,
}
use craft_osos.Lua.{Text, Value}
use craft_osos.Keyboard.{Poll}
use craft_osos.Os.{Os, Outcome, done, waiting, crash, out_of_fuel, ◌>>=◌, get_next_event, c_string}
use craft_osos.Fat.{Fat, Device, Init, ready, panic, fault}
use craft_osos.Directory.{Slot, Dirent}
use craft_osos.Volume.{Cache, stat, is_invalid}
use craft_osos.Reading.{read}

abbrev pub bios_name : Text
bios_name = b'b' ∷ b'i' ∷ b'o' ∷ b's' ∷ b'.' ∷ b'l' ∷ b'u' ∷ b'a' ∷ []

-- `bios_buf`, or the panic without a BIOS.
unfoldable pub read_bios : Device → (List ℕ → List Slot) → Fat → ℕ → ℕ → Cache → Init (List ℕ)
unfolding stat read
read_bios device slots_in f block_size fuel cache =
    let (bios_dir, cache') = stat device slots_in f fuel cache (bios_name ∷ []) none in
    if is_invalid bios_dir.entry_type
    then panic
    else read device f block_size bios_dir 0 (bios_dir.size + bios_dir.size / 512)

-- What `lua_resume` gives: `LUA_YIELD`, 0 or an error.
pub data Status : Type 0 where
  yielded finished errored : Status

-- A resumed program, the string on top of its stack if there is one, and the globals that the
-- handlers have changed in the meantime.
pub record Resumed (Program : Type 0) : Type 0 where
  pub program : Program
  pub status : Status
  pub top : Option Text
  pub running : ℕ
  pub os : Os

-- The variables of the loop; `args` are the `narg` values on top of the program's stack.
pub record Session (Program : Type 0) : Type 0 where
  pub program : Program
  pub args : List Value
  pub running : ℕ
  pub os : Os
  pub polls : List Poll

-- A round goes on with the loop, or leaves it: with an error, or for the end of the session.
pub data Round (Program : Type 0) : Type 0 where
  goes_on : Session Program → Round Program
  failed : Round Program
  closed : ℕ → Os → List Poll → Round Program

abbrev pub filter_of : Option Text → Text
filter_of none = []
filter_of (some t) = c_string t

-- How main2 ends: with its result.
abbrev pub Exit : Type 0
Exit = Outcome ℕ

module _ {Program : Type 0} (resume : Program → List Value → Os → Resumed Program)
    (check_stack : ℕ → Bool) (fuel : ℕ) where
  -- What follows on `lua_resume`.
  unfoldable pub next_round : Resumed Program → Status → List Poll → Outcome (Round Program)
  unfolding get_next_event
  next_round r yielded polls = get_next_event check_stack fuel (filter_of r.top) r.os polls >>= λ d.
      done (
        goes_on (record {
          program = r.program;
          args = d.pushed;
          running = r.running;
          os = d.after;
          polls = d.polls;
        }))
  next_round r finished polls = done (closed r.running r.os polls)
  next_round r errored polls = done failed

  -- One round, with the test of the loop.
  unfoldable pub round : Session Program → Outcome (Round Program)
  unfolding next_round
  round s =
      let r = resume s.program s.args s.os in
      if s.running == 1 then next_round r r.status s.polls else done (closed s.running s.os s.polls)

  -- The loop, with a bound on its rounds.
  unfoldable pub main_loop : ℕ → Session Program → Outcome (Round Program)
  unfolding round
  main_loop zero s = out_of_fuel
  main_loop (suc rounds) s = round s >>= λ r. elim r [
    | goes_on s' ↦ main_loop rounds s'
    | failed ↦ done failed
    | closed running os polls ↦ done (closed running os polls)
  ]

  -- From `start:` on, with a bound on the sessions. A new Lua state has a new, empty `paramQueue`;
  -- `load` is the program in the BIOS, if it can be loaded. `running` keeps its value.
  unfoldable pub main2 : ℕ → ℕ → Option Program → ℕ → Os → List Poll → Exit
  unfolding main_loop
  main2 zero rounds load running os polls = out_of_fuel
  main2 (suc sessions) rounds none running os polls = done 2
  main2 (suc sessions) rounds (some program) running os polls =
      main_loop rounds (record {
        program = program;
        args = [];
        running = running;
        os = record os { params = [] };
        polls = polls;
      })
      >>= λ r. elim r [
        | goes_on s' ↦ out_of_fuel
        | failed ↦ done 1
        | closed running' os' polls' ↦
            let again = main2 sessions rounds (some program) running' os' polls' in
            if running' == 2 then again else done 0
      ]
