-- ===== src/Dev/Tty.antt =====
-- dev/tty/tty.hpp: what a terminal makes of a character that is put out or comes in. The flags of termios
-- are kept decoded; `put` collects the characters in order.
pub mod Discipline
use saba_os.Base.{
  ℕ, Bool, true, false, ◌&&◌, if◌then◌else◌, ◌==◌, List, [], ◌∷◌, ◌++◌, Option, none, some,
}

pub record Termios : Type 0 where
  pub onlcr : Bool
  pub igncr : Bool
  pub icrnl : Bool
  pub inlcr : Bool
  pub isig : Bool
  pub vintr : ℕ
  pub vquit : ℕ
  pub vsusp : ℕ

abbrev pub newline : ℕ
newline = 10

abbrev pub carriage_return : ℕ
carriage_return = 13

-- What is put for one character.
pub process_output_char : Termios → ℕ → List ℕ
process_output_char t c = if (c == newline) && t.onlcr then carriage_return ∷ c ∷ [] else c ∷ []

-- The signal that a character stands for: SIGINT, SIGQUIT or SIGTSTP.
pub char_signal : Termios → ℕ → Option ℕ
char_signal t c =
    if c == t.vintr
    then some 2
    else if c == t.vquit
    then some 3
    else if c == t.vsusp
    then some 20
    else none

-- What is put before the test for a signal.
pub translated : Termios → ℕ → List ℕ
translated t c =
    if (c == carriage_return) && t.icrnl
    then newline ∷ []
    else if (c == newline) && t.inlcr
    then carriage_return ∷ []
    else []

-- By the signal: it goes to the foreground process group, or the character is put.
pub put_or_signal : ℕ → List ℕ → Option ℕ → List ℕ × Option ℕ
put_or_signal c before none = (before ++ (c ∷ []), none)
put_or_signal c before (some signal) = (before, some signal)

-- What is put for a character that comes in, and the signal that is sent.
pub process_input_char : Termios → ℕ → List ℕ × Option ℕ
process_input_char t c =
    if (c == carriage_return) && t.igncr
    then ([], none)
    else put_or_signal c (translated t c) (if t.isig then char_signal t c else none)
