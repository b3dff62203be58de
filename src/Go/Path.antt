-- ===== src/Go/Path.antt =====
-- `filepath.Clean` on Unix: the components are read from the left, and `..` removes the component
-- before it.
pub mod Stack
pub mod Parents
pub mod Files
use resolvit.Prelude.{
  ◌≡◌, refl, Bool, true, false, ◌||◌, List, [], ◌∷◌, reverse, ◌==◌, ℕ, if◌then◌else◌,
}
use resolvit.Go.Text.{Text, codes, is_empty, text_eq, split, join}

abbrev pub slash : ℕ
slash = b'/'

abbrev pub parent : Text
parent = b'.' ∷ b'.' ∷ []

abbrev pub here : Text
here = b'.' ∷ []

-- One component against those before it, the last one first.
step_up : Bool → List Text → List Text
step_up rooted [] = if rooted then [] else parent ∷ []
step_up rooted (c ∷ stack) = if text_eq c parent then parent ∷ c ∷ stack else stack

enter : Bool → List Text → Text → List Text
unfolding step_up text_eq
enter rooted stack c =
    if is_empty c || text_eq c here
    then stack
    else if text_eq c parent
    then step_up rooted stack
    else c ∷ stack

pub enter_all : Bool → List Text → List Text → List Text
unfolding enter
enter_all rooted stack [] = stack
enter_all rooted stack (c ∷ cs) = enter_all rooted (enter rooted stack c) cs

show_relative : Text → Text
show_relative [] = here
show_relative (c ∷ s) = c ∷ s

unfoldable pub clean : Text → Text
unfolding enter_all show_relative split join
clean [] = here
clean (c ∷ s) =
    if c == slash
    then slash ∷ join (reverse (enter_all true [] (split s slash))) slash
    else show_relative (join (reverse (enter_all false [] (split (c ∷ s) slash))) slash)

clean_runs :
    (clean (codes "a//b/../c/.") ≡ codes "a/c")
    × (clean (codes "/../x") ≡ codes "/x")
    × (clean (codes "a/..") ≡ codes ".")
    × (clean (codes "a/../../b") ≡ codes "../b")
unfolding clean
clean_runs = (refl, refl, refl, refl)
