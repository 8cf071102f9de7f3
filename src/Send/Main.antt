-- ===== src/Send/Main.antt =====
-- EgdSend.c, `ParsePositiveInt` and `main` on Linux.
pub mod Numbers
pub mod Sockets
pub mod Closing
use auroralink.Prelude.{
  ℕ, zero, suc, ◌+◌, ◌-◌, ◌*◌, ◌^◌, min, Text, codes, Bool, true, false, ◌&&◌, ◌||◌, Option, none,
  some, List, [], ◌∷◌, ◌++◌, length, ltb, leb, ◌==◌, if◌then◌else◌,
}
use auroralink.Prelude.Int.{ℤ, pos, negsuc}
use auroralink.Prelude.Eq.{text_eqb}
use auroralink.Client.Types.{Resolver}
use auroralink.Send.Types.{DoubleArith, SenderReplies, SenderCall, closed}
use auroralink.Send.Setup.{invalid_socket}
use auroralink.Send.Loop.{SenderRun, finished, still_sending, sender_example}

abbrev pub is_space : ℕ → Bool
is_space c = (c == 32) || (leb 9 c && leb c 13)

abbrev pub is_digit : ℕ → Bool
is_digit c = leb 48 c && leb c 57

abbrev pub skip_spaces : Text → Text
skip_spaces [] = []
skip_spaces (c ∷ s) = if is_space c then skip_spaces s else c ∷ s

-- The digits at the head of a text, and what follows them.
unfoldable pub read_digits : ℕ → Text → ℕ × Text
read_digits acc [] = (acc, [])
read_digits acc (c ∷ s) =
    let more = read_digits (acc * 10 + (c - 48)) s in if is_digit c then more else (acc, c ∷ s)

-- The sign of a number, and what follows it.
abbrev pub read_sign : Text → Bool × Text
read_sign [] = (false, [])
read_sign (c ∷ s) = if c == 45 then (true, s) else (if c == 43 then (false, s) else (false, c ∷ s))

-- `LONG_MAX` and `LONG_MIN` bound what `strtol` returns.
abbrev pub signed_long : Bool → ℕ → ℤ
signed_long false n = pos (min n (2 ^ 63 - 1))
signed_long true zero = pos 0
signed_long true (suc n) = negsuc (min n (2 ^ 63 - 1))

-- `strtol` in base 10: the value and the text that is left, or `none` where no digit stands.
unfoldable pub strtol : Text → Option (ℤ × Text)
unfolding read_digits
strtol str =
    let (negative, s) = read_sign (skip_spaces str) in
    let (n, rest) = read_digits 0 s in
    if length rest == length s then none else some (signed_long negative n, rest)

-- A value from 0 to 2147483647 with nothing behind it.
abbrev pub checked_int : Option (ℤ × Text) → Option ℕ
checked_int none = none
checked_int (some (pos n, [])) = if ltb 2147483647 n then none else some n
checked_int (some _) = none

unfoldable pub parse_positive_int : Text → Option ℕ
unfolding strtol
parse_positive_int str = checked_int (strtol str)

-- An argument that is no number from 0 to 2147483647.
pub data Refusal : Type 0 where
  invalid_interval : Text → Refusal
  invalid_count : Text → Refusal

-- The command line: the usage is asked for, an argument is refused, or the sender runs.
pub data Command : Type 0 where
  show_usage : Command
  refused : Refusal → Command
  send : Text → ℕ → ℕ → Command

abbrev pub default_destination : Text
default_destination = codes "192.168.101.255"

abbrev pub wants_help : Text → Bool
wants_help s = text_eqb s (codes "-h") || text_eqb s (codes "--help")

abbrev pub with_count : Text → ℕ → List Text → Command
with_count destination interval_ms [] = send destination interval_ms 0
with_count destination interval_ms (s ∷ _) = elim (parse_positive_int s) [
  | none ↦ refused (invalid_count s)
  | some count ↦ send destination interval_ms count
]

abbrev pub with_interval : Text → List Text → Command
with_interval destination [] = send destination 1000 0
with_interval destination (s ∷ rest) = elim (parse_positive_int s) [
  | none ↦ refused (invalid_interval s)
  | some interval_ms ↦ with_count destination interval_ms rest
]

-- The arguments behind the program's name.
unfoldable pub read_arguments : List Text → Command
unfolding parse_positive_int
read_arguments [] = send default_destination 1000 0
read_arguments (destination ∷ rest) =
    if wants_help destination then show_usage else with_interval destination rest

abbrev pub is_valid_socket : ℤ → Bool
is_valid_socket (negsuc zero) = false
is_valid_socket _ = true

-- The last statements of `main`: a socket that `SenderExample` left is closed. The status and the
-- calls, or the calls of a program that still sends.
unfoldable pub close_left : SenderRun → Option ℕ × List SenderCall
close_left (finished sock result calls) =
    (some result, if is_valid_socket sock then calls ++ closed sock ∷ [] else calls)
close_left (still_sending calls) = (none, calls)

unfoldable pub run_command :
    DoubleArith → Resolver → SenderReplies → Command → Option ℕ × List SenderCall
unfolding sender_example close_left
run_command d resolver replies show_usage = (some 0, [])
run_command d resolver replies (refused what) = (some 1, [])
run_command d resolver replies (send destination interval_ms count) =
    close_left (sender_example d resolver replies invalid_socket destination interval_ms count)

unfoldable pub main :
    DoubleArith → Resolver → SenderReplies → List Text → Option ℕ × List SenderCall
unfolding read_arguments run_command
main d resolver replies args = run_command d resolver replies (read_arguments args)
