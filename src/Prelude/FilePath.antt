-- ===== src/Prelude/FilePath.antt =====
-- path.Join and path.Clean: a path's components are put on a stack, `.` and empty ones dropped.
use mathlib.Core.Bool.{Bool, true, false, ◌&&◌, ◌||◌}
use mathlib.Core.List.{List, [], ◌∷◌, ◌++◌, reverse}
use platform_configure.Prelude.Compare.{if◌then◌else◌}
use platform_configure.Prelude.Text.{Bytes, codes, bytes_eq, split, has_prefix}

abbrev slash : Bytes
slash = codes "/"

abbrev dot : Bytes
dot = codes "."

abbrev dot_dot : Bytes
dot_dot = codes ".."

-- The stack holds the last component first. `..` takes one off, unless there is none to take.
pop : Bool → List Bytes → List Bytes
pop true [] = []
pop false [] = dot_dot ∷ []
pop rooted (c ∷ stack) = if bytes_eq c dot_dot then dot_dot ∷ c ∷ stack else stack

components : Bool → List Bytes → List Bytes → List Bytes
components rooted [] stack = stack
components rooted (c ∷ cs) stack = components rooted cs (
    if bytes_eq c [] || bytes_eq c dot
    then stack
    else if bytes_eq c dot_dot
    then pop rooted stack
    else c ∷ stack)

join_slash : List Bytes → Bytes
join_slash [] = []
join_slash (c ∷ []) = c
join_slash (c ∷ d ∷ cs) = c ++ slash ++ join_slash (d ∷ cs)

-- path.Clean(path)
unfoldable pub clean : Bytes → Bytes
unfolding pop components join_slash bytes_eq split has_prefix
clean path =
    let rooted = has_prefix path slash in
    let out =
      (if rooted then slash else [])
      ++ join_slash (reverse (components rooted (split path 47) [])) in
    if bytes_eq out [] then dot else out

-- path.Join(dir, file): empty elements are left out.
unfoldable pub join : Bytes → Bytes → Bytes
unfolding clean
join dir file =
    if bytes_eq dir [] && bytes_eq file []
    then []
    else if bytes_eq dir []
    then clean file
    else if bytes_eq file []
    then clean dir
    else clean (dir ++ slash ++ file)
