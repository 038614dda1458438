-- ===== src/Keyboard/Echo.antt =====
-- `kbc_irq` of sys/kbc.c with what it prints: the character of the key at column 52 of the status
-- line, and behind what stands in the text area.
use cse508_operating_system.Prelude.{ℕ, Option, some, List, [], ◌∷◌, ◌==◌, if◌then◌else◌, ◌>>=◌}
use cse508_operating_system.Pic.{Write}
use cse508_operating_system.Text.{Bytes}
use cse508_operating_system.Console.{Console}
use cse508_operating_system.Printf.{print_cx_cy, printf}
use cse508_operating_system.Keyboard.{kbc_irq}

-- The two calls, unless the character is 0; `status` and `text` are the addresses of their formats.
unfoldable pub show_key :
    (rounds fuel : ℕ) (mem buffer : Bytes) (status text : ℕ)
    → Console
    → (c : ℕ) → Option (Console × List Write)
show_key rounds fuel mem buffer status text s c =
    let calls : Option (Console × List Write) = (do
      p ← print_cx_cy rounds fuel s mem buffer 52 24 status (c ∷ [])
      q ← printf rounds fuel p.state mem p.buffer text (c ∷ [])
      some q.state) in
    if c == 0 then some (s, []) else calls

-- `shift` afterwards, the console, and what the ports get.
unfoldable pub kbc_echo :
    (rounds fuel : ℕ) (mem buffer : Bytes) (status text : ℕ)
    → Console
    → (shift b : ℕ) → Option (ℕ × (Console × List Write))
kbc_echo rounds fuel mem buffer status text s shift b = do
  shown ← show_key rounds fuel mem buffer status text s ((kbc_irq shift b).1)
  some ((kbc_irq shift b).0, shown)
