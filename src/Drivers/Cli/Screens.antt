-- ===== src/Drivers/Cli/Screens.antt =====
-- The output that is left of what a device shows for a command.
use nano_southbound.Prelude.{◌≡◌, true, false, List, [], ◌∷◌, ◌++◌, keep, ◌==◌, All, All-append}
use nano_southbound.Go.Text.{Text, contains, join, trim_space}
use nano_southbound.Go.Text.Words.{Lacks, split-join}
use nano_southbound.Drivers.Cli.Prompt.{PromptPattern, is_output, clean_output}
use nano_southbound.Drivers.Cli.Session.{newline}

-- A line of a screen
abbrev pub IsLine : Text → Type 0
IsLine = Lacks (λ c. c == 10)

-- What a device shows for a command: its echo, the lines of the answer and the next prompt
abbrev pub screen : Text → List Text → Text → Text
screen echo answer next_prompt = join (echo ∷ (answer ++ next_prompt ∷ [])) newline

-- The echo shows the command, the prompt is one, and no line of the answer looks like one.
abbrev pub IsScreen : PromptPattern → Text → Text → List Text → Text → Type 0
IsScreen p command echo answer next_prompt =
    IsLine echo
    × (contains echo command ≡ true)
    × All IsLine answer
    × All (λ line. is_output p line ≡ true) answer
    × IsLine next_prompt
    × (is_output p next_prompt ≡ false)

keep-answer :
    (p : PromptPattern) (answer : List Text) (next_prompt : Text)
    → All (λ line. is_output p line ≡ true) answer
    → is_output p next_prompt ≡ false
    → keep (is_output p) (answer ++ next_prompt ∷ []) ≡ answer
keep-answer p [] next_prompt shown hidden = rw hidden
keep-answer p (line ∷ answer) next_prompt (here, shown) hidden =
    rw (here, keep-answer p answer next_prompt shown hidden)

-- Of a screen with the echo of the command, an answer whose lines do not look like prompts and a
-- prompt, the lines of the answer are left, without the blanks at the ends of the answer.
pub clean_output-screen :
    (p : PromptPattern) (command echo : Text) (answer : List Text) (next_prompt : Text)
    → IsScreen p command echo answer next_prompt
    → clean_output p (screen echo answer next_prompt) command ≡ trim_space (join answer newline)
unfolding clean_output
clean_output-screen p command echo answer next_prompt (e, c, l, o, n, h) = rw (
  split-join 10 echo (answer ++ next_prompt ∷ [])
      (e, All-append IsLine answer (next_prompt ∷ []) l (n, tt)),
  c,
  keep-answer p answer next_prompt o h,
)
