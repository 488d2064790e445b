-- ===== src/Literal.antt =====
-- dreal/util/literal.h and literal.cc: literals, their order, and sets of them.
pub mod Sets
use dlinear.Base.{Bool, true, false, not, ◌&&◌, List, [], ◌∷◌, if◌then◌else◌, ltb}
use dlinear.Symbolic.Syntax.{Variable}

abbrev pub Literal : Type 0
Literal = Variable × Bool

abbrev pub Literals : Type 0
Literals = List Literal

-- `LiteralComparator`: by the identifier, then `false` before `true`.
unfoldable pub less_literal : Literal → Literal → Bool
less_literal (v, s) (w, t) =
    if ltb v.id w.id then true else if ltb w.id v.id then false else (not s && t)

-- `LiteralSet::insert`; an equal element stays.
unfoldable pub insert_literal : Literal → Literals → Literals
unfolding less_literal
insert_literal l [] = l ∷ []
insert_literal l (m ∷ ms) =
    let rest = insert_literal l ms in
    if less_literal l m then l ∷ m ∷ ms else if less_literal m l then m ∷ rest else m ∷ ms

-- `insert(first, last)`.
unfoldable pub insert_literals : Literals → Literals → Literals
unfolding insert_literal
insert_literals [] set = set
insert_literals (l ∷ ls) set = insert_literals ls (insert_literal l set)
