-- ===== src/FileHelper/Copy.antt =====
-- WriteFile and CopyFile. Whether a file can be opened or closed is an argument.
use moveon.Base.{[], ◌∷◌, Option, none, some, Bool, Bytes, if◌then◌else◌}
use moveon.Base.Int.{ℤ, pos, negsuc}

-- `WriteFile`: the result, and what the file then holds if it was opened.
unfoldable pub write_file : Bool → Bytes → ℤ × Option Bytes
write_file opens data_ = if opens then (pos 0, some data_) else (negsuc 0, none)

-- The loop of `CopyFile` over what is left to read: `feof` holds only after `fgetc` met the end,
-- whose result EOF `fputc` writes as the byte 255.
unfoldable pub copy_loop : Bytes → Bytes
copy_loop [] = 255 ∷ []
copy_loop (c ∷ content) = c ∷ copy_loop content

-- `CopyFile`: the result, and what the destination then holds if it was opened.
unfoldable pub copy_file : Option Bytes → Bool → Bool → ℤ × Option Bytes
copy_file none opens closes = (negsuc 0, none)
copy_file (some content) opens closes =
    if opens
    then (if closes then pos 0 else negsuc 0, some (copy_loop content))
    else (negsuc 0, none)
