-- ===== src/Audio/Ring/Fifo.antt =====
-- The contract of the ring: a queue, oldest first, of bounded size, that loses its oldest samples.
use sonospoof.Base.{ℕ, ◌-◌, ◌+◌, List, ◌++◌, length, take, drop, replicate}

-- The newest `cap` of a list of samples.
abbrev pub newest : ℕ → List ℕ → List ℕ
newest cap xs = drop (length xs - cap) xs

-- How many of them a write of `xs` onto `held` pushes out.
abbrev pub overflow : ℕ → List ℕ → List ℕ → ℕ
overflow cap held xs = length held + length xs - cap

-- What a read of `size` samples that does not wait delivers.
abbrev pub padded : ℕ → List ℕ → List ℕ
padded size held = take size held ++ replicate (size - length held) 0
