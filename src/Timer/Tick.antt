-- ===== src/Timer/Tick.antt =====
-- `timer_callback` of sys/timer.c with what it prints: the formats as texts, and `print_cx_cy` at
-- column 57 of the status line. A format is given by how it writes each field.
use cse508_operating_system.Prelude.{ℕ, Option, none, some, List, [], ◌∷◌, ◌++◌, ◌>>=◌}
use cse508_operating_system.Text.{Bytes}
use cse508_operating_system.Console.{Console}
use cse508_operating_system.Printf.{print_cx_cy}
use cse508_operating_system.Timer.{Field, zeros, padded, bare, Uptime, timer_callback}

-- " system uptime"
abbrev pub suffix : List ℕ
suffix =
    32 ∷ b's' ∷ b'y' ∷ b's' ∷ b't' ∷ b'e' ∷ b'm' ∷ 32 ∷ b'u' ∷ b'p' ∷ b't' ∷ b'i' ∷ b'm' ∷ b'e' ∷ []

abbrev pub field_format : Field → List ℕ
field_format zeros = 48 ∷ 48 ∷ []
field_format (padded n) = 48 ∷ b'%' ∷ b'd' ∷ []
field_format (bare n) = b'%' ∷ b'd' ∷ []

abbrev pub field_params : Field → List ℕ
field_params zeros = []
field_params (padded n) = n ∷ []
field_params (bare n) = n ∷ []

-- The format and the arguments of the call.
abbrev pub status_format : Uptime → List ℕ
status_format u =
    field_format u.hours ++ (58 ∷ (field_format u.mins ++ (58 ∷ (field_format u.secs ++ suffix))))

abbrev pub status_params : Uptime → List ℕ
status_params u = field_params u.hours ++ (field_params u.mins ++ field_params u.secs)

-- The call of `print_cx_cy`, if there is one; `format u` is the address of the format.
unfoldable pub print_uptime :
    (rounds fuel : ℕ) (mem buffer : Bytes) (format : Uptime → ℕ)
    → Console
    → Option Uptime
    → Option Console
print_uptime rounds fuel mem buffer format s none = some s
print_uptime rounds fuel mem buffer format s (some u) = do
  q ← print_cx_cy rounds fuel s mem buffer 57 24 (format u) (status_params u)
  some q.state

-- `tick` afterwards, and the console.
unfoldable pub timer_tick :
    (rounds fuel : ℕ) (mem buffer : Bytes) (format : Uptime → ℕ)
    → Console
    → (tick : ℕ) → Option (ℕ × Console)
timer_tick rounds fuel mem buffer format s tick = do
  s' ← print_uptime rounds fuel mem buffer format s ((timer_callback tick).1)
  some ((timer_callback tick).0, s')
