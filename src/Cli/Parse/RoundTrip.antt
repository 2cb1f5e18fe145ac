-- ===== src/Cli/Parse/RoundTrip.antt =====
-- A command line written for a request is read back as that request
-- (crates/openbc-ui-qt/cpp/app/cli_options.cpp).
use open_bc.Prelude.{
  Bool, true, false, ◌||◌, negate, Option, some, none, ap, ◌∙◌, List, [], ◌∷◌, ◌++◌, Text, codes,
  is_empty, All, ◌≡◌, refl, same, starts_with, if◌then◌else◌,
}
use open_bc.Prelude.Qt.{Qt}
use open_bc.Cli.{LaunchRequest, kind_for_type, has_context_action}
use open_bc.Cli.Parse.{
  finished, next, next_but_one, run_arguments, checked_type, token, positional, round, conclude,
  parse_launch_arguments, blank, value,
}

-- How the type is given: `--compare T`, or `--compare=T`.
pub data Spelling : Type 0 where
  apart joined : Spelling

unfoldable pub option : Spelling → Text → List Text
option apart type = codes "--compare" ∷ type ∷ []
option joined type = (codes "--compare=" ++ type) ∷ []

-- No path, one, or two.
pub data Paths : Type 0 where
  nowhere : Paths
  left_only : Text → Paths
  both : Text → Text → Paths

unfoldable pub listed : Paths → List Text
listed nowhere = []
listed (left_only l) = l ∷ []
listed (both l r) = l ∷ r ∷ []

unfoldable pub left_of : Paths → Text
left_of nowhere = []
left_of (left_only l) = l
left_of (both l r) = l

unfoldable pub right_of : Paths → Text
right_of (both l r) = r
right_of _ = []

-- The option, then the paths, behind `--` or not.
pub command_line : Spelling → Text → Bool → Paths → List Text
command_line spelling type dashes paths =
    option spelling type ++ (if dashes then codes "--" ∷ listed paths else listed paths)

unfoldable pub request_for : Text → Paths → LaunchRequest
request_for type paths = record blank {
  compare_type = type;
  left = left_of paths;
  right = right_of paths;
}

-- A path that is taken for one without `--`: it is a dash alone, or has none in front.
unfoldable pub IsBare : Text → Type 0
IsBare t = (negate (starts_with t (codes "-")) || same t (codes "-")) ≡ true

bare-token : (t : Text) → IsBare t → token false t ≡ positional
unfolding token IsBare
bare-token t h = rw h refl

apart-run_arguments :
    (qt : Qt) (type : Text) (rest : List Text) (r : LaunchRequest)
    → is_empty (kind_for_type qt type) ≡ false
    → run_arguments qt (codes "--compare" ∷ type ∷ rest) false r []
      ≡ run_arguments qt rest false (record r { compare_type = type }) []
unfolding run_arguments
apart-run_arguments qt type rest r h = rw (apart-round, run_arguments) refl
  where
    apart-round :
        round qt (token false (codes "--compare")) (codes "--compare") (some type) false r []
        ≡ next_but_one false (record r { compare_type = type }) []
    apart-round = unfold round token same starts_with checked_type in rw h refl

-- An argument that the loop goes on behind.
next-run_arguments :
    (qt : Qt) (a : Text) (rest : List Text) (r r' : LaunchRequest) (found found' : List Text)
    → ((b : Option Text) → round qt (token false a) a b false r found ≡ next false r' found')
    → run_arguments qt (a ∷ rest) false r found ≡ run_arguments qt rest false r' found'
unfolding run_arguments round token starts_with
next-run_arguments qt a [] r r' found found' h = rw (h none) refl
next-run_arguments qt a (b ∷ rest) r r' found found' h = rw (h (some b)) refl

joined-round :
    (qt : Qt) (type : Text) (b : Option Text) (r : LaunchRequest)
    → is_empty (kind_for_type qt type) ≡ false
    → round qt (token false (codes "--compare=" ++ type)) (codes "--compare=" ++ type) b false r []
      ≡ next false (record r { compare_type = type }) []
unfolding round token same starts_with checked_type
joined-round qt type b r h = rw h refl

joined-run_arguments :
    (qt : Qt) (type : Text) (rest : List Text) (r : LaunchRequest)
    → is_empty (kind_for_type qt type) ≡ false
    → run_arguments qt ((codes "--compare=" ++ type) ∷ rest) false r []
      ≡ run_arguments qt rest false (record r { compare_type = type }) []
joined-run_arguments qt type rest r h =
    next-run_arguments qt (codes "--compare=" ++ type) rest r (record r { compare_type = type }) []
      [] (λ b. joined-round qt type b r h)

dashes-run_arguments :
    (qt : Qt) (paths : Paths) (r : LaunchRequest)
    → run_arguments qt (codes "--" ∷ listed paths) false r [] ≡ finished r (listed paths)
unfolding run_arguments token round same starts_with listed
dashes-run_arguments qt nowhere r = refl
dashes-run_arguments qt (left_only l) r = refl
dashes-run_arguments qt (both l q) r = refl

bare-run_arguments :
    (qt : Qt) (path : Text) (rest : List Text) (r : LaunchRequest) (found : List Text)
    → IsBare path
    → run_arguments qt (path ∷ rest) false r found
      ≡ run_arguments qt rest false r (found ++ path ∷ [])
bare-run_arguments qt path rest r found h =
    next-run_arguments qt path rest r r found (found ++ path ∷ []) (λ b. bare-round b)
  where
    bare-round :
        (b : Option Text)
        → round qt (token false path) path b false r found ≡ next false r (found ++ path ∷ [])
    bare-round b = unfold round in rw (bare-token path h) refl

run_arguments_bare :
    (qt : Qt) (paths : Paths) (r : LaunchRequest)
    → All IsBare (listed paths)
    → run_arguments qt (listed paths) false r [] ≡ finished r (listed paths)
unfolding listed
run_arguments_bare qt nowhere r h = unfold run_arguments in refl
run_arguments_bare qt (left_only l) r (h, _) =
    bare-run_arguments qt l [] r [] h ∙ unfold run_arguments in refl
run_arguments_bare qt (both l q) r (h, (k, _)) =
    bare-run_arguments qt l (q ∷ []) r [] h
    ∙ (bare-run_arguments qt q [] r (l ∷ []) k ∙ unfold run_arguments in refl)

paths-run_arguments :
    (qt : Qt) (dashes : Bool) (paths : Paths) (r : LaunchRequest)
    → (dashes ≡ false → All IsBare (listed paths))
    → run_arguments qt (if dashes then codes "--" ∷ listed paths else listed paths) false r []
      ≡ finished r (listed paths)
paths-run_arguments qt true paths r h = dashes-run_arguments qt paths r
paths-run_arguments qt false paths r h = run_arguments_bare qt paths r (h refl)

conclude-paths :
    (qt : Qt) (type : Text) (paths : Paths)
    → conclude qt (finished (record blank { compare_type = type }) (listed paths))
      ≡ request_for type paths
unfolding conclude request_for blank value has_context_action listed left_of right_of
conclude-paths qt type nowhere = refl
conclude-paths qt type (left_only l) = refl
conclude-paths qt type (both l r) = refl

-- A command line that forces a known type, as `--compare T` or `--compare=T`, and then lists no path, one
-- or two, is read back as that type and these paths, in order, with no error. The paths may be any texts
-- behind `--`; without it a path has no dash in front, unless it is a dash alone.
pub parse-command_line :
    (qt : Qt) (spelling : Spelling) (type : Text) (dashes : Bool) (paths : Paths)
    → is_empty (kind_for_type qt type) ≡ false
    → (dashes ≡ false → All IsBare (listed paths))
    → parse_launch_arguments qt (command_line spelling type dashes paths) ≡ request_for type paths
unfolding parse_launch_arguments command_line option
parse-command_line qt apart type dashes paths h bare =
    ap (conclude qt)
      (apart-run_arguments qt type _ blank h ∙ paths-run_arguments qt dashes paths _ bare)
    ∙ conclude-paths qt type paths
parse-command_line qt joined type dashes paths h bare =
    ap (conclude qt)
      (joined-run_arguments qt type _ blank h ∙ paths-run_arguments qt dashes paths _ bare)
    ∙ conclude-paths qt type paths
