-- ===== src/Paths.antt =====
-- What the code uses of Go's path and filepath on Unix: IsAbs, Clean and Join. Clean splits at
-- slashes, keeps a stack of elements with the last on top, and prints it.
pub mod Elements
pub mod Descend
pub mod Rooted
use mathlib.Core.List.{reverse}
use lopen.Base.{
  Bool, true, false, ◌||◌, List, [], ◌∷◌, ◌++◌, ◌==◌, if◌then◌else◌, Bytes, bytes_eq, contains,
}

abbrev pub slash : Bytes → Bytes
slash s = b'/' ∷ s

abbrev pub dot : Bytes
dot = b'.' ∷ []

abbrev pub dotdot : Bytes
dotdot = b'.' ∷ b'.' ∷ []

unfoldable pub is_abs : Bytes → Bool
is_abs [] = false
is_abs (c ∷ s) = c == b'/'

abbrev pub put_first {ℓ} : {A : Type ℓ} → A → List (List A) → List (List A)
put_first c [] = (c ∷ []) ∷ []
put_first c (w ∷ ws) = (c ∷ w) ∷ ws

-- strings.Split(s, "/")
unfoldable pub split : Bytes → List Bytes
split [] = [] ∷ []
split (c ∷ s) = let rest = split s in if c == b'/' then [] ∷ rest else put_first c rest

-- strings.Join(els, "/")
unfoldable pub join_slash : List Bytes → Bytes
join_slash [] = []
join_slash (w ∷ []) = w
join_slash (w ∷ v ∷ ws) = w ++ slash (join_slash (v ∷ ws))

-- `..`: back up over the last element, except at the start of the path
unfoldable pub up : Bool → List Bytes → List Bytes
up true [] = []
up false [] = dotdot ∷ []
up rooted (w ∷ st) = if bytes_eq w dotdot then dotdot ∷ w ∷ st else st

unfoldable pub step : Bool → List Bytes → Bytes → List Bytes
unfolding up
step rooted st w =
    if bytes_eq w [] || bytes_eq w dot
    then st
    else if bytes_eq w dotdot
    then up rooted st
    else w ∷ st

unfoldable pub walk : Bool → List Bytes → List Bytes → List Bytes
walk rooted st [] = st
walk rooted st (w ∷ ws) = walk rooted (step rooted st w) ws

-- The stack that a path cleans to.
unfoldable pub stack : Bytes → List Bytes
stack s = walk (is_abs s) [] (split s)

unfoldable pub render : Bool → List Bytes → Bytes
render true els = slash (join_slash els)
render false [] = dot
render false (w ∷ ws) = join_slash (w ∷ ws)

-- path.Clean, filepath.Clean
unfoldable pub clean : Bytes → Bytes
clean s = render (is_abs s) (reverse (stack s))

-- filepath.Join of two elements: empty ones are left out
unfoldable pub join : Bytes → Bytes → Bytes
join [] [] = []
join [] (c ∷ b) = clean (c ∷ b)
join (c ∷ a) b = clean ((c ∷ a) ++ slash b)

-- path[:i+1] for the last slash at i
unfoldable pub dir_part : Bytes → Bytes
dir_part [] = []
dir_part (c ∷ s) =
    let more = c ∷ dir_part s in if contains b'/' s then more else if c == b'/' then c ∷ [] else []

-- filepath.Dir
unfoldable pub dir : Bytes → Bytes
dir s = clean (dir_part s)
