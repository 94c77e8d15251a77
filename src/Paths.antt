-- ===== src/Paths.antt =====
-- Package path/filepath of Go on Unix, as the program uses it: Clean, Join and Rel. A path is taken
-- apart into its components; the texts are joined from them.
mod Examples
use stackd.Base.{
  ℕ, ◌||◌, ◌&&◌, not, Bool, true, false, Option, none, some, List, [], ◌∷◌, ◌++◌, if◌then◌else◌,
  map, ◌==◌, Bytes, bytes, is_empty, str_eq, split_byte, join,
}
use mathlib.Core.List.{reverse}

-- A cleaned path: whether it begins with "/", and its components.
pub record Clean : Type 0 where
  pub rooted : Bool
  pub parts : List Bytes

abbrev pub starts_with_slash : Bytes → Bool
starts_with_slash [] = false
starts_with_slash (c ∷ s) = c == b'/'

-- One component against those before it, the last at the head: "" and "." are dropped, ".." removes
-- the component before it, and stays only at the front of a path without root.
unfoldable pub resolve : Bool → List Bytes → Bytes → List Bytes
resolve rooted [] part =
    if is_empty part || str_eq part (bytes ".") || str_eq part (bytes "..") && rooted
    then []
    else part ∷ []
resolve rooted (top ∷ stack) part =
    if is_empty part || str_eq part (bytes ".")
    then top ∷ stack
    else if str_eq part (bytes "..") && not (str_eq top (bytes ".."))
    then stack
    else part ∷ top ∷ stack

unfoldable pub resolve_all : Bool → List Bytes → List Bytes → List Bytes
resolve_all rooted stack [] = reverse stack
resolve_all rooted stack (part ∷ more) = resolve_all rooted (resolve rooted stack part) more

unfoldable pub parse : Bytes → Clean
unfolding resolve_all resolve
parse path = record {
  rooted = starts_with_slash path;
  parts = resolve_all (starts_with_slash path) [] (split_byte b'/' path);
}

abbrev render_parts : List Bytes → Bytes
render_parts [] = bytes "."
render_parts (p ∷ ps) = join (bytes "/") (p ∷ ps)

unfoldable pub render : Clean → Bytes
render c = if c.rooted then bytes "/" ++ join (bytes "/") c.parts else render_parts c.parts

-- filepath.Clean
unfoldable pub clean : Bytes → Bytes
unfolding parse render
clean path = render (parse path)

-- filepath.Join of two elements; empty ones are left out.
unfoldable pub join_path : Bytes → Bytes → Bytes
unfolding clean
join_path a b =
    if is_empty a
    then (if is_empty b then [] else clean b)
    else if is_empty b
    then clean a
    else clean (a ++ (bytes "/" ++ b))

abbrev is_dot_dot : Bytes → Bool
is_dot_dot p = str_eq p (bytes "..")

-- What is left of two paths behind their common components.
pub strip_common : List Bytes → List Bytes → List Bytes × List Bytes
strip_common (b ∷ bs) (t ∷ ts) =
    let rest = strip_common bs ts in if str_eq b t then rest else (b ∷ bs, t ∷ ts)
strip_common bs ts = (bs, ts)

-- The relative path out of what is left of the base and into what is left of the target.
pub relative : List Bytes × List Bytes → Option Bytes
relative ([], []) = some (bytes ".")
relative ([], t ∷ ts) = some (join (bytes "/") (t ∷ ts))
relative (b ∷ bs, ts) =
    if is_dot_dot b then none else some (join (bytes "/") (map (λ _. bytes "..") (b ∷ bs) ++ ts))

-- filepath.Rel, `none` where it returns an error.
unfoldable pub rel : Bytes → Bytes → Option Bytes
unfolding parse strip_common relative
rel base target =
    let b = parse base in
    let t = parse target in
    if b.rooted && not t.rooted || not b.rooted && t.rooted
    then none
    else relative (strip_common b.parts t.parts)
