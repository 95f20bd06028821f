-- ===== src/Main/Rounds.antt =====
-- The rounds of the loop of `main2`: events reach the program, and what a restart does.
use craft_osos.Base.{
  ℕ, zero, suc, ◌+◌, ◌<◌, ◌≡◌, true, none, some, Option, List, [], ◌∷◌, ◌++◌, append_assoc, length,
  arith, refl, ap, ◌∙◌, inl, Bool, ◌==◌, if◌then◌else◌,
}
use mathlib.Core.Path.{subst}
use craft_osos.Lua.{Text, Value}
use craft_osos.Keyboard.{Poll}
use craft_osos.Os.{Os, Outcome, done, out_of_fuel, Delivery, push_name, get_next_event, ◌>>=◌}
use craft_osos.Os.Pending.{Entry, Holds, names, bodies}
use craft_osos.Os.Filter.{get_next_event-first}
use craft_osos.Main.{
  yielded, Resumed, Session, Round, goes_on, closed, filter_of, next_round, round, main_loop, main2,
}

module _ {Program : Type 0} (resume : Program → List Value → Os → Resumed Program)
    (check_stack : ℕ → Bool) (fuel : ℕ) where
  -- A program that always yields for any event and neither takes events from the queue nor shuts
  -- down. It may queue events.
  abbrev pub Polite : Type 0
  Polite =
      (p : Program) (args : List Value) (os : Os) (es : List Entry)
      → Holds os es
      → (more : List Entry) × ((resume p args os).status ≡ yielded)
        × ((resume p args os).top ≡ none)
        × ((resume p args os).running ≡ 1)
        × Holds (resume p args os).os (es ++ more)

  round-next :
      (s : Session Program)
      → s.running ≡ 1
      → round resume check_stack fuel s
        ≡ next_round resume check_stack fuel
            (resume s.program s.args s.os)
            (resume s.program s.args s.os).status
            s.polls
  unfolding round
  round-next s on =
      let r = resume s.program s.args s.os in
      ap
        (λ k.
          if k == 1
          then next_round resume check_stack fuel r r.status s.polls
          else done (closed k s.os s.polls))
        on

  main_loop-goes_on :
      (rounds : ℕ) (s s' : Session Program)
      → round resume check_stack fuel s ≡ done (goes_on s')
      → main_loop resume check_stack fuel (suc rounds) s
        ≡ main_loop resume check_stack fuel rounds s'
  unfolding main_loop
  main_loop-goes_on rounds s s' e = rw e

  next_round-first :
      (r : Resumed Program) (polls : List Poll) (ev : Option Text) (vs : List Value)
      (rest : List Entry)
      → r.top ≡ none
      → Holds r.os ((ev, vs) ∷ rest)
      → check_stack (length vs + 1) ≡ true
      → 0 < fuel
      → next_round resume check_stack fuel r yielded polls
        ≡ done (
            goes_on (record {
              program = r.program;
              args = push_name ev ∷ vs;
              running = r.running;
              os = record r.os { events = names rest; params = bodies rest };
              polls = polls;
            }))
  unfolding next_round
  next_round-first r polls ev vs rest none_top holds room some_fuel =
      let on_event : Outcome Delivery → Outcome (Round Program) = λ o. o >>= λ d. done (
        goes_on (record {
          program = r.program;
          args = d.pushed;
          running = r.running;
          os = d.after;
          polls = d.polls;
        })) in
      ap (λ o. on_event (get_next_event check_stack fuel (filter_of o) r.os polls)) none_top
      ∙ ap on_event (
          get_next_event-first [] polls ev vs rest (inl refl) check_stack fuel [] r.os holds tt
            some_fuel room)

  -- One round of a polite program, with an event in front of the queue.
  round-first :
      (s : Session Program) (ev : Option Text) (vs : List Value) (rest : List Entry)
      → Polite
      → ((n : ℕ) → check_stack n ≡ true)
      → 0 < fuel
      → s.running ≡ 1
      → Holds s.os ((ev, vs) ∷ rest)
      → (s' : Session Program) × (more : List Entry) × (round resume check_stack fuel s
          ≡ done (goes_on s'))
        × (s'.args ≡ push_name ev ∷ vs)
        × (s'.running ≡ 1)
        × Holds s'.os (rest ++ more)
  round-first s ev vs rest polite room some_fuel on holds =
      let r = resume s.program s.args s.os in
      let (more, waits, plain, still, queued) =
        polite s.program s.args s.os ((ev, vs) ∷ rest) holds in
      (
        record {
          program = r.program;
          args = push_name ev ∷ vs;
          running = r.running;
          os = record r.os { events = names (rest ++ more); params = bodies (rest ++ more) };
          polls = s.polls;
        },
        more,
        round-next s on
            ∙ ap (λ st. next_round resume check_stack fuel r st s.polls) waits
            ∙ next_round-first r s.polls ev vs (rest ++ more) plain queued (room (length vs + 1))
                some_fuel,
        refl,
        still,
        record { events = refl; params = refl },
      )

  -- Every event in the queue reaches a program that always yields for any event, does not shut
  -- down, and changes the queue by new events at its end only: with n events ahead of it, the
  -- running program is resumed with it and its parameters after n + 1 rounds, whatever events are
  -- queued in the meantime. The stack of the program is assumed to have room, and `getNextEvent` to
  -- have fuel.
  pub main_loop-delivers :
      (before : List Entry) (ev : Option Text) (vs : List Value) (behind : List Entry)
      (s : Session Program)
      → Polite
      → ((n : ℕ) → check_stack n ≡ true)
      → 0 < fuel
      → s.running ≡ 1
      → Holds s.os (before ++ ((ev, vs) ∷ behind))
      → (s' : Session Program) × ((rounds : ℕ)
          → main_loop resume check_stack fuel (suc (length before) + rounds) s
            ≡ main_loop resume check_stack fuel rounds s')
        × (s'.args ≡ push_name ev ∷ vs)
        × (s'.running ≡ 1)
  main_loop-delivers [] ev vs behind s polite room some_fuel on holds =
      let (s', more, e, args, still, _) =
        round-first s ev vs behind polite room some_fuel on holds in
      (
        s',
        λ rounds.
            ap (λ k. main_loop resume check_stack fuel k s) {x = 1 + rounds} {y = suc rounds}
              (omega arith)
            ∙ main_loop-goes_on rounds s s' e,
        args,
        still,
      )
  main_loop-delivers ((ev0, vs0) ∷ before) ev vs behind s polite room some_fuel on holds =
      let (s1, more, e, _, still, queued) =
        round-first s ev0 vs0 (before ++ ((ev, vs) ∷ behind)) polite room some_fuel on holds in
      let (s', rest, args, running) =
        main_loop-delivers before ev vs (behind ++ more) s1 polite room some_fuel still
          (subst (Holds s1.os) (append_assoc before ((ev, vs) ∷ behind) more) queued) in
      (
        s',
        λ rounds.
            ap (λ k. main_loop resume check_stack fuel k s) {x = suc (suc (length before)) + rounds}
              {y = suc (suc (length before) + rounds)} (omega arith)
            ∙ main_loop-goes_on (suc (length before) + rounds) s s1 e
            ∙ rest rounds,
        args,
        running,
      )

  -- With `running` at 2, as `os_reboot` leaves it, and a BIOS that loads, a session ends at once
  -- and the next one begins: `main2` uses up any number of sessions and rounds that it is given
  -- without an end.
  pub main2-reboot :
      (sessions rounds : ℕ) (program : Program) (os : Os) (polls : List Poll)
      → main2 resume check_stack fuel sessions rounds (some program) 2 os polls ≡ out_of_fuel
  unfolding main2
  main2-reboot zero rounds program os polls = refl
  main2-reboot (suc sessions) zero program os polls = refl
  main2-reboot (suc sessions) (suc rounds) program os polls =
      main2-reboot sessions (suc rounds) program (record os { params = [] }) polls
