-- ===== src/Dev/Tty/Discipline.antt =====
-- What the line discipline does to characters that stand for no signal.
use saba_os.Base.{◌≡◌, refl, true, false, [], ◌∷◌, none}
use saba_os.Dev.Tty.{
  Termios, newline, carriage_return, process_input_char, translated, put_or_signal,
}

-- With ICRNL and without IGNCR and ISIG, a carriage return is put as a newline and a carriage return.
pub icrnl_keeps_return :
    (t : Termios)
    → t.icrnl ≡ true
    → t.igncr ≡ false
    → t.isig ≡ false
    → process_input_char t carriage_return ≡ (newline ∷ carriage_return ∷ [], none)
unfolding process_input_char translated put_or_signal
icrnl_keeps_return t maps keeps quiet = simp (maps, keeps, quiet) refl
