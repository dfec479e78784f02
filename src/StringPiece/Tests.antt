-- ===== src/StringPiece/Tests.antt =====
-- The theorem about sznet/string/StringPiece.h at concrete pieces.
use sznet.Base.{◌≡◌, true, false, [], ◌∷◌, Ordering, arith}
use sznet.Run.{ok}
use sznet.StringPiece.{
  StringPiece, compare_pieces, less, less_equal, greater_equal, greater, equal, unequal,
  starts_with,
}
use sznet.StringPiece.Ordered.{compare-lexicographic}

-- Three bytes, of which the third is not in the piece, and a piece that goes on.
abbrev short : StringPiece
short = record { memory = 1 ∷ 2 ∷ 9 ∷ []; size = 2 }

abbrev long : StringPiece
long = record { memory = 1 ∷ 2 ∷ 3 ∷ []; size = 3 }

compare-lexicographic_example :
    (compare_pieces short long ≡ ok Ordering.lt)
    × (less short long ≡ ok true)
    × (less_equal short long ≡ ok true)
    × (greater_equal short long ≡ ok false)
    × (greater short long ≡ ok false)
    × (equal short long ≡ ok false)
    × (unequal short long ≡ ok true)
    × (starts_with short long ≡ ok false)
compare-lexicographic_example = compare-lexicographic short long (omega arith) (omega arith)
