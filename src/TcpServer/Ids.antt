-- ===== src/TcpServer/Ids.antt =====
-- The ids of the connections of sznet/net/TcpServer.cpp.
use sznet.Base.{ℕ, suc, ◌≤◌, ◌≡◌, refl, ap, true, false, List, [], ◌∷◌, ◌++◌, ◌==◌, arith}
use sznet.TcpServer.{Connection, set_connection, erase}

-- The map of these connections.
abbrev pub entries : List Connection → List (ℕ × Connection)
entries [] = []
entries (c ∷ cs) = (c.id, c) ∷ entries cs

-- The ids go up, from `low` to below `high`.
abbrev pub Ascending : ℕ → List Connection → ℕ → Type 0
Ascending low [] high = low ≤ high
Ascending low (c ∷ cs) high = (low ≤ c.id) × Ascending (suc c.id) cs high

pub weaken :
    (low low' high : ℕ) (cs : List Connection)
    → low' ≤ low
    → Ascending low cs high
    → Ascending low' cs high
weaken low low' high [] h a = omega (arith, h, a)
weaken low low' high (c ∷ cs) h (first, rest) = (omega (arith, h, first), rest)

pub Ascending-append :
    (low high : ℕ) (cs : List Connection) (c : Connection)
    → Ascending low cs high
    → high ≤ c.id
    → Ascending low (cs ++ c ∷ []) (suc c.id)
Ascending-append low high [] c a h = (omega (arith, a, h), omega arith)
Ascending-append low high (d ∷ cs) c (first, rest) h =
    (first, Ascending-append (suc d.id) high cs c rest h)

pub Ascending-remove :
    (low high : ℕ) (front back : List Connection) (c : Connection)
    → Ascending low (front ++ c ∷ back) high
    → Ascending low (front ++ back) high
Ascending-remove low high [] back c (first, rest) =
    weaken (suc c.id) low high back (omega (arith, first)) rest
Ascending-remove low high (d ∷ front) back c (first, rest) =
    (first, Ascending-remove (suc d.id) high front back c rest)

low_of :
    (low high : ℕ) (front back : List Connection) (c : Connection)
    → Ascending low (front ++ c ∷ back) high
    → low ≤ c.id
low_of low high [] back c (first, rest) = first
low_of low high (d ∷ front) back c (first, rest) =
    omega (arith, first, low_of (suc d.id) high front back c rest)

high_of : (low high : ℕ) (cs : List Connection) → Ascending low cs high → low ≤ high
high_of low high [] a = a
high_of low high (c ∷ cs) (first, rest) = omega (arith, first, high_of (suc c.id) high cs rest)

-- A new id comes last.
pub set_connection-entries :
    (low high : ℕ) (cs : List Connection) (c : Connection)
    → Ascending low cs high
    → high ≤ c.id
    → set_connection c.id c (entries cs) ≡ entries (cs ++ c ∷ [])
set_connection-entries low high [] c a h = refl
set_connection-entries low high (d ∷ cs) c (first, rest) h =
    let other : (d.id == c.id) ≡ false = ground (arith, h, high_of (suc d.id) high cs rest) in
    rw other (ap (◌∷◌ (d.id, d)) (set_connection-entries (suc d.id) high cs c rest h))

-- Every connection of the map is found.
pub erase-entries :
    (low high : ℕ) (front back : List Connection) (c : Connection)
    → Ascending low (front ++ c ∷ back) high
    → erase c.id (entries (front ++ c ∷ back)) ≡ (1, entries (front ++ back))
erase-entries low high [] back c a = let same : (c.id == c.id) ≡ true = ground arith in rw same refl
erase-entries low high (d ∷ front) back c (first, rest) =
    let other : (d.id == c.id) ≡ false = ground (arith, low_of (suc d.id) high front back c rest) in
    rw (other, erase-entries (suc d.id) high front back c rest) refl
