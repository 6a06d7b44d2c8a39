-- ===== src/Tests/Cli.antt =====
-- The theorems about the CLI driver, the factory and the errors of C-Data at concrete inputs.
use nano_southbound.Prelude.{◌≡◌, refl, true, false, none, some, List, [], ◌∷◌, ◌++◌, arith}
use nano_southbound.Go.Text.{
  Text, codes, contains, has_prefix, split, split_on, join, trim_space, trim_left, trim_right,
}
use nano_southbound.Go.Result.{Result, ok, err}
use nano_southbound.Drivers.Cli.Prompt.{
  mode_prompt, matches_prompt, matches_backwards, matches_pager, reverse, reverse_onto, opens_mode,
  clean_output,
}
use nano_southbound.Drivers.Cli.Session.{Expecter, execute, read_pages, newline}
use nano_southbound.Drivers.Cli.Driver.{
  Network, Driver, exec_command, exec_commands, disconnect, is_connected,
}
use nano_southbound.Drivers.Cli.Paging.{last, page, read_pages-ends}
use nano_southbound.Drivers.Cli.Screens.{screen, clean_output-screen}
use nano_southbound.Drivers.Cli.Stopping.{none_left, step, exec_commands-stops}
use nano_southbound.Drivers.Cli.Executing.{
  Terminal, Shows, executor, outputs_of, executor-refines_terminal,
}
use nano_southbound.Drivers.Cli.Connection.{connect-Outcome}

-- A device that has its chunks ready
abbrev shown_next : List Text → Result Text Text × List Text
shown_next [] = (err (codes "timeout"), [])
shown_next (chunk ∷ chunks) = (ok chunk, chunks)

abbrev queue : Expecter (List Text)
queue = record {
  send = λ line d. (ok tt, d);
  expect = λ pattern d. shown_next d;
  close = λ d. (ok tt, []);
}

abbrev network : Network (List Text)
network = record {
  expecter = queue;
  dial = λ target user password only d. (ok tt, d);
  spawn = λ d. (ok tt, d);
  close_client = λ d. (ok tt, []);
}

abbrev connected : Driver
connected = record { config = none; ssh_client = true; expect_session = some mode_prompt }

read_pages-ends_example :
    read_pages queue mode_prompt 2
      (codes "show onu")
      []
      (codes "onu 1\n--More--" ∷ codes "onu 2\nOLT#" ∷ [])
    ≡ some (ok (codes "onu 1\n--More--onu 2\nOLT#"), [])
unfolding matches_pager contains has_prefix
read_pages-ends_example =
    (read_pages-ends queue mode_prompt (codes "show onu")
        (codes "onu 1\n--More--" ∷ codes "onu 2\nOLT#" ∷ []) []
        (codes "onu 1\n--More--onu 2\nOLT#")).1
      1 (page refl refl refl (last refl refl)) 2 (ground arith)

connect-Outcome_example : is_connected (disconnect network (connected, [])).1.0 ≡ false
connect-Outcome_example = (connect-Outcome network 9 connected []).0

clean_output-screen_example :
    clean_output mode_prompt
      (screen
        (codes "show version")
        (codes "V-SOL 2.1" ∷ codes "up 3 days" ∷ [])
        (codes "OLT(config)#"))
      (codes "show version")
    ≡ trim_space (join (codes "V-SOL 2.1" ∷ codes "up 3 days" ∷ []) newline)
unfolding contains has_prefix matches_prompt matches_backwards reverse reverse_onto opens_mode
    trim_space trim_left trim_right
clean_output-screen_example =
    clean_output-screen mode_prompt (codes "show version") (codes "show version")
      (codes "V-SOL 2.1" ∷ codes "up 3 days" ∷ []) (codes "OLT(config)#")
      (refl, refl, (refl, (refl, tt)), (refl, (refl, tt)), refl, refl)

exec_commands-stops_example :
    exec_commands network 3
      (λ d. none)
      (codes "a" ∷ codes "b" ∷ [])
      (connected, codes "a\none\nOLT#" ∷ codes "b\ntwo\nOLT#" ∷ [])
    ≡ some ((codes "one" ∷ codes "two" ∷ [], ok tt), (connected, []))
unfolding exec_command execute read_pages clean_output contains has_prefix matches_pager
    matches_prompt matches_backwards reverse reverse_onto opens_mode trim_space trim_left trim_right
    split split_on join
exec_commands-stops_example =
    (exec_commands-stops network 3 (λ d. none) (codes "a" ∷ codes "b" ∷ [])
        (connected, codes "a\none\nOLT#" ∷ codes "b\ntwo\nOLT#" ∷ [])
        (codes "one" ∷ codes "two" ∷ []) [] (connected, [])).0.1
      (step refl (step refl none_left))

-- A device that answers every command by its version
abbrev version : Network Text
version = record {
  expecter = record {
    send = λ line d. (ok tt, line ++ codes "V-SOL 2.1\nOLT#");
    expect = λ pattern d. (ok d, []);
    close = λ d. (ok tt, []);
  };
  dial = λ target user password only d. (ok tt, d);
  spawn = λ d. (ok tt, d);
  close_client = λ d. (ok tt, []);
}

abbrev version_terminal : Terminal (Unit {0})
version_terminal = record {
  echo = λ command. command;
  answer = λ command m. codes "V-SOL 2.1" ∷ [];
  after = λ command m. tt;
  next_prompt = λ m. codes "OLT#";
}

abbrev IsShow : Text → Type 0
IsShow command = command ≡ codes "show version"

version_shows : Shows version version_terminal mode_prompt 1 (λ d. none) (λ d m. Unit {0}) IsShow
unfolding matches_pager contains has_prefix matches_prompt matches_backwards reverse reverse_onto
    opens_mode trim_space trim_left trim_right join
version_shows command d m usual agrees = rw usual (
  codes "show version\nV-SOL 2.1\nOLT#",
  [],
  0,
  refl,
  last refl refl,
  ground arith,
  (refl, refl, (refl, tt), (refl, tt), refl, refl),
  tt,
)

executor-refines_terminal_example :
    (next : Text) × (executor version 1
        (λ d. none)
        (codes "show version" ∷ codes "show version" ∷ [])
        (connected, [])
      ≡ (ok (codes "V-SOL 2.1" ∷ codes "V-SOL 2.1" ∷ []), (connected, next)))
    × Unit {0}
unfolding outputs_of join trim_space trim_left trim_right
executor-refines_terminal_example =
    executor-refines_terminal version version_terminal mode_prompt 1 (λ d. none) (λ d m. Unit {0})
      IsShow connected (codes "show version" ∷ codes "show version" ∷ []) [] tt version_shows
      (refl, refl, λ d. refl) (refl, (refl, tt)) tt
