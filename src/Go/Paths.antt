-- ===== src/Go/Paths.antt =====
-- Packages `path` and `path/filepath` (on Unix), by the elements between the slashes.
use mathlib.Core.List.{reverse}
use runtime_class_manager.Base.{
  ℕ, Bool, true, false, List, [], ◌∷◌, ◌++◌, Text, txt, text_eq, ◌==◌, ◌=ℕ◌, if◌then◌else◌,
}

abbrev pub slash : ℕ
slash = b'/'

-- The elements between the slashes.
unfoldable pub split_slash : Text → List Text
split_slash [] = [] ∷ []
split_slash (c ∷ s) = elim (c =ℕ slash) [
  | true ↦ [] ∷ split_slash s
  | false ↦ elim (split_slash s) [ [] ↦ (c ∷ []) ∷ [] | e ∷ es ↦ (c ∷ e) ∷ es ]
]

unfoldable pub join_slash : List Text → Text
join_slash [] = []
join_slash (e ∷ []) = e
join_slash (e ∷ e' ∷ es) = e ++ (slash ∷ join_slash (e' ∷ es))

unfoldable pub is_rooted : Text → Bool
is_rooted [] = false
is_rooted (c ∷ s) = c =ℕ slash

-- `..` takes the last element off, unless none is left or that is a `..` which was kept.
back : Bool → List Text → List Text
unfolding txt text_eq
back true [] = []
back false [] = txt ".." ∷ []
back rooted (e ∷ done) = if e == txt ".." then txt ".." ∷ e ∷ done else done

-- The elements that `Clean` keeps, the last one first.
clean_elements : Bool → List Text → List Text → List Text
unfolding back txt text_eq
clean_elements rooted done [] = done
clean_elements rooted done (e ∷ es) =
    clean_elements rooted
      (if e == []
        then done
        else if e == txt "."
        then done
        else if e == txt ".."
        then back rooted done
        else e ∷ done)
      es

-- `path.Clean`
unfoldable pub clean : Text → Text
unfolding split_slash join_slash is_rooted clean_elements txt
clean p =
    let out = join_slash (reverse (clean_elements (is_rooted p) [] (split_slash p))) in
    if is_rooted p then slash ∷ out else if out == [] then txt "." else out

keep_nonempty : List Text → List Text
unfolding text_eq
keep_nonempty [] = []
keep_nonempty (e ∷ es) = let rest = keep_nonempty es in if e == [] then rest else e ∷ rest

join_nonempty : List Text → Text
unfolding clean
join_nonempty [] = []
join_nonempty (e ∷ es) = clean (join_slash (e ∷ es))

-- `path.Join`
unfoldable pub path_join : List Text → Text
unfolding join_nonempty keep_nonempty join_slash
path_join es = join_nonempty (keep_nonempty es)

-- Strips the slashes at the end of a reversed path.
strip_slashes : Text → Text
strip_slashes [] = []
strip_slashes (c ∷ s) = let rest = strip_slashes s in if c =ℕ slash then rest else c ∷ s

-- The part of a reversed path before its first slash, and the part from that slash on.
last_element : Text → Text
last_element [] = []
last_element (c ∷ s) = let rest = last_element s in if c =ℕ slash then [] else c ∷ rest

up_to_slash : Text → Text
up_to_slash [] = []
up_to_slash (c ∷ s) = let rest = up_to_slash s in if c =ℕ slash then c ∷ s else rest

-- `path.Base`
unfoldable pub base : Text → Text
unfolding strip_slashes last_element txt text_eq
base [] = txt "."
base (c ∷ p) =
    let s = strip_slashes (reverse (c ∷ p)) in
    if s == [] then slash ∷ [] else reverse (last_element s)

-- `path.Dir`
unfoldable pub dir : Text → Text
unfolding up_to_slash clean
dir p = clean (reverse (up_to_slash (reverse p)))
