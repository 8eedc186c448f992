-- ===== src/Raop/Receiver/Calls.antt =====
-- internal/raop/rtsp.go: the calls of a handler, of which Start is launched in a goroutine.
use sonospoof.Base.{ℕ, ◌+◌, ◌≡◌, refl, Bool, true, false, List, [], ◌∷◌, arith, length}
use sonospoof.Raop.Receiver.{Effect, launched, stopped, volume, opened, closed, missed}

-- What the handler sees.
pub data Call : Type 0 where
  start : List ℕ → Call
  stop : Call
  set_volume : ℕ → Call

-- One of the launched Starts, and the others.
pub data Picks (name : List ℕ) : List (List ℕ) → List (List ℕ) → Type 0 where
  first : {names : List (List ℕ)} → Picks name (name ∷ names) names
  further :
      {other : List ℕ} {names rest : List (List ℕ)}
      → Picks name names rest
      → Picks name (other ∷ names) (other ∷ rest)

-- The calls that a handler may see of a session's effects, with Starts that are launched and have
-- not reached it: each reaches it at any time later. The other calls are made at once.
pub data Sees : List (List ℕ) → List Effect → List Call → Type 0 where
  all_seen : Sees [] [] []
  launch :
      {names : List (List ℕ)} {name : List ℕ} {es : List Effect} {cs : List Call}
      → Sees (name ∷ names) es cs
      → Sees names (launched name ∷ es) cs
  reach :
      {names rest : List (List ℕ)} {name : List ℕ} {es : List Effect} {cs : List Call}
      → Picks name names rest
      → Sees rest es cs
      → Sees names es (start name ∷ cs)
  see_stop :
      {names : List (List ℕ)} {es : List Effect} {cs : List Call}
      → Sees names es cs
      → Sees names (stopped ∷ es) (stop ∷ cs)
  see_volume :
      {names : List (List ℕ)} {db : ℕ} {es : List Effect} {cs : List Call}
      → Sees names es cs
      → Sees names (volume db ∷ es) (set_volume db ∷ cs)
  see_opened :
      {names : List (List ℕ)} {s : ℕ} {es : List Effect} {cs : List Call}
      → Sees names es cs
      → Sees names (opened s ∷ es) cs
  see_closed :
      {names : List (List ℕ)} {s : ℕ} {es : List Effect} {cs : List Call}
      → Sees names es cs
      → Sees names (closed s ∷ es) cs
  see_missed :
      {names : List (List ℕ)} {m : ℕ × ℕ} {es : List Effect} {cs : List Call}
      → Sees names es cs
      → Sees names (missed m ∷ es) cs

abbrev pub starts : List Call → ℕ
starts [] = 0
starts (start name ∷ cs) = 1 + starts cs
starts (stop ∷ cs) = starts cs
starts (set_volume db ∷ cs) = starts cs

abbrev pub stops : List Call → ℕ
stops [] = 0
stops (start name ∷ cs) = stops cs
stops (stop ∷ cs) = 1 + stops cs
stops (set_volume db ∷ cs) = stops cs

abbrev pub launches : List Effect → ℕ
launches [] = 0
launches (launched name ∷ es) = 1 + launches es
launches (stopped ∷ es) = launches es
launches (volume db ∷ es) = launches es
launches (opened s ∷ es) = launches es
launches (closed s ∷ es) = launches es
launches (missed m ∷ es) = launches es

abbrev pub halts : List Effect → ℕ
halts [] = 0
halts (launched name ∷ es) = halts es
halts (stopped ∷ es) = 1 + halts es
halts (volume db ∷ es) = halts es
halts (opened s ∷ es) = halts es
halts (closed s ∷ es) = halts es
halts (missed m ∷ es) = halts es

length-Picks :
    {name : List ℕ} {names rest : List (List ℕ)}
    → Picks name names rest
    → length names ≡ 1 + length rest
length-Picks (Picks.first) = omega arith
length-Picks (Picks.further p) = omega (arith, length-Picks p)

pub Sees-count :
    {names : List (List ℕ)} {es : List Effect} {cs : List Call}
    → Sees names es cs
    → (starts cs ≡ length names + launches es) × (stops cs ≡ halts es)
Sees-count (Sees.all_seen) = (refl, refl)
Sees-count (Sees.launch s) = let (a, b) = Sees-count s in (omega (arith, a), b)
Sees-count (Sees.reach p s) = let (a, b) = Sees-count s in (omega (arith, a, length-Picks p), b)
Sees-count (Sees.see_stop s) = let (a, b) = Sees-count s in (a, omega (arith, b))
Sees-count (Sees.see_volume s) = Sees-count s
Sees-count (Sees.see_opened s) = Sees-count s
Sees-count (Sees.see_closed s) = Sees-count s
Sees-count (Sees.see_missed s) = Sees-count s

abbrev pub bit : Bool → ℕ
bit true = 1
bit false = 0
