-- ===== src/Server.antt =====
-- src/main.cpp: the coroutine that serves one client, which answers each request of the keep-alive
-- connection. A request ends with an empty line.
pub mod Requests
pub mod Startup
pub mod Responses
pub mod Turns
pub mod Orderly
pub mod Delivered
pub mod Stops
pub mod Waits
pub mod Texts
pub mod Answers
mod Examples
mod EndingExamples
use ice_test.Base.{ℕ, zero, suc, ◌+◌, Bool, true, false, List, [], ◌∷◌, ◌==◌, if◌then◌else◌}

abbrev pub cr : ℕ
cr = 13

abbrev pub lf : ℕ
lf = 10

-- The local variable `newline`, with the count of calls of `respond`.
pub record Loop : Type 0 where
  pub newline : Bool
  pub responses : ℕ

-- The `switch` on one byte.
unfoldable pub on_byte : Loop → ℕ → Loop
on_byte s c =
    if c == cr
    then s
    else if c == lf
    then if s.newline
      then record { newline = false; responses = suc s.responses }
      else record s { newline = true }
    else record s { newline = false }

-- The `for` loop over what one `recv` has put into the buffer.
unfoldable pub on_chunk : Loop → List ℕ → Loop
on_chunk s [] = s
on_chunk s (c ∷ cs) = on_chunk (on_byte s c) cs

-- The `while` loop over what the calls of `recv` give. An empty one ends the connection.
unfoldable pub handle : Loop → List (List ℕ) → Loop
unfolding on_chunk
handle s [] = s
handle s ([] ∷ chunks) = s
handle s ((c ∷ cs) ∷ chunks) = handle (on_chunk s (c ∷ cs)) chunks

unfoldable pub new_loop : Loop
new_loop = record { newline = false; responses = 0 }
