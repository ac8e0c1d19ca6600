-- ===== src/Fs/Pipe/Tests.antt =====
-- Inputs for the theorems on pipes.
use linux_0_11_notes.Prelude.{List, [], arith, length, min, update, ℕ, ◌++◌, ◌∷◌, ◌≡◌, ◌⊎◌}
use linux_0_11_notes.Fs.Pipe.{Pipe, got, pipe_size, read_pipe, read_ready, room, write_ready}
use linux_0_11_notes.Fs.Pipe.Fifo.{
  IsRead, IsValid, IsWritten, contents, read_pipe-returns, read_ready-IsRead, write_ready-IsWritten,
}

-- Two bytes, of which the second stands at the start of the page.
abbrev pipe : Pipe
pipe = record { page = update (λ _. 0) 4095 65; head = 1; tail = 4095; users = 1 }

pipe-IsValid : IsValid pipe
pipe-IsValid = record { head_in = omega arith; tail_in = omega arith }

read_ready-IsRead_example :
    IsRead 5 pipe [] (read_ready 5 5 pipe [])
    × (((read_ready 5 5 pipe []).0 ≡ 0) ⊎ (pipe_size (read_ready 5 5 pipe []).1 ≡ 0))
read_ready-IsRead_example = read_ready-IsRead 5 5 pipe [] pipe-IsValid (omega arith)

read_pipe-returns_example :
    (out : List ℕ) × (q : Pipe) × (read_pipe [] 5 pipe [] ≡ got out q)
    × (out ++ contents q ≡ contents pipe)
    × (length out ≡ min 5 (pipe_size pipe))
read_pipe-returns_example = read_pipe-returns [] 5 pipe pipe-IsValid (λ e. absurd (omega arith))

write_ready-IsWritten_example :
    IsWritten (1 ∷ 2 ∷ []) pipe (write_ready 2 (1 ∷ 2 ∷ []) pipe)
    × ((length (write_ready 2 (1 ∷ 2 ∷ []) pipe).0 ≡ 0)
        ⊎ (room (write_ready 2 (1 ∷ 2 ∷ []) pipe).1 ≡ 0))
write_ready-IsWritten_example = write_ready-IsWritten 2 (1 ∷ 2 ∷ []) pipe pipe-IsValid (omega arith)
