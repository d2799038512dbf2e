-- ===== src/CmdTool/Laws.antt =====
-- Which option counts, and how the tool ends.
use moveon.Base.{◌≡◌, refl, List, [], ◌∷◌, none, some, Bytes, codes, ok, undefined}
use moveon.Base.Int.{ℤ, pos, negsuc}
use moveon.CmdTool.Options.{
  CmdOption, new_options, Opt, directory, json_file, version, help, unknown, usage, show_version,
  parse, finish_with, main,
}

-- A setting that the tool accepts.
pub data Setting : Type 0 where
  sets_dir sets_file : Bytes → Setting

abbrev pub to_opt : Setting → Opt
to_opt (sets_dir text) = directory (some text)
to_opt (sets_file text) = json_file text

-- The arguments: settings, and then other options.
abbrev pub after_settings : List Setting → List Opt → List Opt
after_settings [] opts = opts
after_settings (s ∷ settings) opts = to_opt s ∷ after_settings settings opts

-- The directory and the file that the last settings of their kind give.
abbrev pub last_dir : List Setting → Bytes → Bytes
last_dir [] now = now
last_dir (sets_dir text ∷ settings) now = last_dir settings text
last_dir (sets_file text ∷ settings) now = last_dir settings now

abbrev pub last_file : List Setting → Bytes → Bytes
last_file [] now = now
last_file (sets_dir text ∷ settings) now = last_file settings now
last_file (sets_file text ∷ settings) now = last_file settings text

abbrev chosen : List Setting → CmdOption → CmdOption
chosen settings c = record { jfile = last_file settings c.jfile; dir = last_dir settings c.dir }

parse-after_settings :
    (settings : List Setting) (opts : List Opt) (c : CmdOption)
    → parse (after_settings settings opts) c ≡ parse opts (chosen settings c)
unfolding parse
parse-after_settings [] opts c = refl
parse-after_settings (sets_dir text ∷ settings) opts c =
    parse-after_settings settings opts (record c { dir = text })
parse-after_settings (sets_file text ∷ settings) opts c =
    parse-after_settings settings opts (record c { jfile = text })

-- What the first option that is no setting makes of the tool, whatever follows it.
abbrev pub Ends : (Bytes → ℤ) → List Setting → List Opt → Type 0
Ends chdir settings opts =
    (main chdir (after_settings settings (version ∷ opts))
      ≡ ok (record { code = pos 0; printed = show_version ∷ [] }))
    × (main chdir (after_settings settings (help ∷ opts))
        ≡ ok (record { code = negsuc 0; printed = usage ∷ [] }))
    × (main chdir (after_settings settings (unknown ∷ opts))
        ≡ ok (record { code = negsuc 0; printed = usage ∷ [] }))
    × (main chdir (after_settings settings (directory none ∷ opts)) ≡ undefined)

-- With settings alone the tool ends as `finish_with` says of the last file and the last directory
-- among them, the empty file and the directory "./" where none is set.
pub main-settings :
    (chdir : Bytes → ℤ) (settings : List Setting)
    → main chdir (after_settings settings [])
      ≡ ok (
          finish_with chdir
            (record { jfile = last_file settings []; dir = last_dir settings (codes "./") }))
unfolding main parse new_options
main-settings chdir settings = rw (parse-after_settings settings [] new_options) refl
