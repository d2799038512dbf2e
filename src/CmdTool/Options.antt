-- ===== src/CmdTool/Options.antt =====
-- `main` of the tool. What `getopt_long` returns one after the other is a list, whose end is -1,
-- and the result of `chdir` is a function; a printed line is named, not spelled.
use moveon.Base.{
  List, [], ◌∷◌, Option, Bool, true, false, Bytes, codes, if◌then◌else◌, Outcome, ok, ◌>>=◌, deref,
}
use moveon.Base.Int.{ℤ, pos, negsuc, eq_ℤ}

pub record CmdOption : Type 0 where
  pub jfile : Bytes
  pub dir : Bytes

unfoldable pub new_options : CmdOption
new_options = record { jfile = []; dir = codes "./" }

-- One result of `getopt_long`, with `optarg`. The table of long options gives "directory" no
-- argument, so its `optarg` is a null pointer; that of -d and of "json-file" is not.
pub data Opt : Type 0 where
  directory : Option Bytes → Opt
  json_file : Bytes → Opt
  version help unknown : Opt

pub data Line : Type 0 where
  usage show_version no_target success : Line
  no_access : Bytes → Line

-- The exit code, and what was printed.
pub record Exit : Type 0 where
  pub code : ℤ
  pub printed : List Line

-- What the loop over the options leads to.
pub data Parsed : Type 0 where
  options : CmdOption → Parsed
  exits : Exit → Parsed

unfoldable pub parse : List Opt → CmdOption → Outcome Parsed
parse [] c = ok (options c)
parse (directory optarg ∷ opts) c = do dir ← deref optarg; parse opts (record c { dir = dir })
parse (json_file optarg ∷ opts) c = parse opts (record c { jfile = optarg })
parse (version ∷ opts) c = ok (exits (record { code = pos 0; printed = show_version ∷ [] }))
parse (help ∷ opts) c = ok (exits (record { code = negsuc 0; printed = usage ∷ [] }))
parse (unknown ∷ opts) c = ok (exits (record { code = negsuc 0; printed = usage ∷ [] }))

-- `cmdop.jfile.empty()`
abbrev pub is_empty : Bytes → Bool
is_empty [] = true
is_empty (c ∷ cs) = false

-- What follows the loop.
unfoldable pub finish_with : (Bytes → ℤ) → CmdOption → Exit
finish_with chdir c =
    if is_empty c.jfile
    then record { code = negsuc 1; printed = no_target ∷ usage ∷ [] }
    else if eq_ℤ (chdir c.dir) (pos 0)
    then record { code = pos 0; printed = success ∷ [] }
    else record { code = negsuc 0; printed = no_access c.dir ∷ [] }

abbrev pub conclude : (Bytes → ℤ) → Parsed → Exit
conclude chdir (options c) = finish_with chdir c
conclude chdir (exits e) = e

unfoldable pub main : (Bytes → ℤ) → List Opt → Outcome Exit
main chdir opts = do parsed ← parse opts new_options; ok (conclude chdir parsed)
