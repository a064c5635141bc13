-- ===== src/Go/Strings/Laws.antt =====
-- How the functions of `strings` act on concatenated texts.
use runtime_class_manager.Base.{
  ℕ, ◌≡◌, refl, ◌≢◌, true, false, ◌||◌, [], ◌∷◌, ◌++◌, append-nil, Text, arith, length, All,
}
use runtime_class_manager.Go.Strings.{has_prefix, includes, remove_from, remove_all}

-- A text that lacks a byte.
abbrev pub Lacks : ℕ → Text → Type 0
Lacks b = All (λ c. c ≢ b)

pub has_prefix-append : (p s : Text) → has_prefix (p ++ s) p ≡ true
unfolding has_prefix
has_prefix-append [] s = refl
has_prefix-append (c ∷ p) s = ground (arith, has_prefix-append p s)

pub has_prefix_refl : (p : Text) → has_prefix p p ≡ true
has_prefix_refl p = rw append-nil at (has_prefix-append p [])

pub includes_of_prefix : (s w : Text) → has_prefix s w ≡ true → includes s w ≡ true
unfolding includes
includes_of_prefix [] w h = h
includes_of_prefix (c ∷ s) w h = rw h

pub includes_refl : (s : Text) → includes s s ≡ true
includes_refl s = includes_of_prefix s s (has_prefix_refl s)

pub includes-append_right : (s t w : Text) → includes t w ≡ true → includes (s ++ t) w ≡ true
unfolding includes
includes-append_right [] t w h = h
includes-append_right (c ∷ s) t w h = ground (arith, includes-append_right s t w h)

pub has_prefix-append_left : (s t w : Text) → has_prefix s w ≡ true → has_prefix (s ++ t) w ≡ true
unfolding has_prefix
has_prefix-append_left s t [] h = refl
has_prefix-append_left [] t (d ∷ w) h = cc
has_prefix-append_left (c ∷ s) t (d ∷ w) h = ground (arith, has_prefix-append_left s t w)

pub includes-append_left : (s t w : Text) → includes s w ≡ true → includes (s ++ t) w ≡ true
unfolding includes
includes-append_left [] t w h = includes_of_prefix t w (has_prefix-append_left [] t w h)
includes-append_left (c ∷ s) t w h =
    ground (arith, includes-append_left s t w, has_prefix-append_left (c ∷ s) t w)

-- A text that includes `v ++ w` includes `w`.
has_prefix-includes : (s v w : Text) → has_prefix s (v ++ w) ≡ true → includes s w ≡ true
unfolding has_prefix includes
has_prefix-includes s [] w h = includes_of_prefix s w h
has_prefix-includes [] (d ∷ v) w h = cc
has_prefix-includes (c ∷ s) (d ∷ v) w h = ground (arith, has_prefix-includes s v w)

pub includes_suffix : (s v w : Text) → includes s (v ++ w) ≡ true → includes s w ≡ true
unfolding includes
includes_suffix [] v w h = has_prefix-includes [] v w h
includes_suffix (c ∷ s) v w h =
    ground (arith, has_prefix-includes (c ∷ s) v w, includes_suffix s v w)

-- A match of a line that begins in `t` and stops before the newline behind `t` lies in `t`.
has_prefix-before_newline :
    (t more line rest : Text)
    → Lacks 10 line
    → has_prefix (t ++ (10 ∷ more)) (line ++ rest) ≡ true
    → has_prefix t line ≡ true
unfolding has_prefix
has_prefix-before_newline t more [] rest l h = refl
has_prefix-before_newline [] more (d ∷ line) rest l h = ground (arith, l.0)
has_prefix-before_newline (c ∷ t) more (d ∷ line) rest l h =
    ground (arith, has_prefix-before_newline t more line rest l.1)

pub includes-cons : (c : ℕ) (s w : Text) → includes (c ∷ s) w ≡ false → includes s w ≡ false
unfolding includes
includes-cons c s w h = ground arith

skip_rest : (old s : Text) → remove_from old (length s) s ≡ []
unfolding remove_from
skip_rest old [] = refl
skip_rest old (c ∷ s) = skip_rest old s

-- Removing an entry that begins with a line of its own, from a text that it ends and that shows the
-- line nowhere else, leaves the text before it.
remove_from-append :
    (data_before line rest : Text)
    → Lacks 10 line
    → includes data_before line ≡ false
    → remove_from (10 ∷ (line ++ rest)) 0 (data_before ++ (10 ∷ (line ++ rest))) ≡ data_before
unfolding remove_from
remove_from-append [] line rest l h =
    ground (arith, has_prefix_refl (line ++ rest), skip_rest (10 ∷ (line ++ rest)) (line ++ rest))
remove_from-append (c ∷ s) line rest l h = ground (
  arith,
  has_prefix-before_newline s (line ++ rest) line rest l,
  includes_of_prefix s line,
  includes-cons c s line,
  remove_from-append s line rest l,
)

pub remove_all-append :
    (data_before line rest : Text)
    → Lacks 10 line
    → includes data_before line ≡ false
    → remove_all (data_before ++ (10 ∷ (line ++ rest))) (10 ∷ (line ++ rest)) ≡ data_before
unfolding remove_all
remove_all-append data_before line rest l h = remove_from-append data_before line rest l h

has_prefix-newline : (s t w : Text) → Lacks 10 w → has_prefix (s ++ (10 ∷ t)) w ≡ has_prefix s w
unfolding has_prefix
has_prefix-newline s t [] l = refl
has_prefix-newline [] t (d ∷ w) l = ground (arith, l.0)
has_prefix-newline (c ∷ s) t (d ∷ w) l = ground (arith, has_prefix-newline s t w l.1)

-- A word that lacks a newline lies before the newline or behind it.
pub includes-newline :
    (s t w : Text) (d : ℕ)
    → Lacks 10 (d ∷ w)
    → includes (s ++ (10 ∷ t)) (d ∷ w) ≡ (includes s (d ∷ w) || includes t (d ∷ w))
unfolding includes has_prefix
includes-newline [] t w d l = ground (arith, l.0)
includes-newline (c ∷ s) t w d l =
    ground (arith, includes-newline s t w d l, has_prefix-newline s t w l.1)

remove_from-absent : (s old : Text) → includes s old ≡ false → remove_from old 0 s ≡ s
unfolding remove_from includes
remove_from-absent [] old h = refl
remove_from-absent (c ∷ s) old h = ground (arith, remove_from-absent s old)

-- Removing a text that does not occur changes nothing.
pub remove_all-absent : (s old : Text) → includes s old ≡ false → remove_all s old ≡ s
unfolding remove_all
remove_all-absent s [] h = refl
remove_all-absent s (c ∷ old) h = remove_from-absent s (c ∷ old) h
