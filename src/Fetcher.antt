-- ===== src/Fetcher.antt =====
-- The handlers of fetcher/fetcher.go over the files of the machine. The router of the requests
-- supplies the name in the path; what the handlers print is left out.
pub mod Laws
pub mod Server
pub mod Store
pub mod Templates
pub mod Routing
pub mod Refines
pub mod Paths
pub mod Locations
use sa_builder.Base.{
  ℕ, take, Bytes, codes, List, [], ◌∷◌, ◌++◌, Bool, Option, none, some, eqb, if◌then◌else◌,
}
use sa_builder.Strings.{split}

-- The files by their paths; of two entries for a path the first counts. A path is its text: the names
-- that clean requests give the handlers are plain elements, so no two texts lead to the same file.
abbrev pub Files : Type 0
Files = List (Bytes × Bytes)

-- `ioutil.ReadFile`, none for its error
unfoldable pub read_file_of : Files → Bytes → Option Bytes
read_file_of [] path = none
read_file_of ((p, dat) ∷ files) path =
    let rest = read_file_of files path in if eqb p path then some dat else rest

abbrev pub app_directory : Bytes
app_directory = codes "/home/git/"

abbrev pub slug_directory : Bytes
slug_directory = codes "/apps/"

-- `strings.Split(...)[0]`
abbrev pub first_part : List Bytes → Bytes
first_part [] = []
first_part (p ∷ ps) = p

unfoldable pub tar_path : Bytes → Bytes
tar_path name = app_directory ++ (name ++ (codes ".git/" ++ (name ++ codes ".tar.gz")))

unfoldable pub slug_path : Bytes → Bytes
slug_path name = slug_directory ++ (name ++ codes "/slug.tgz")

-- The body written: the file, or a text if it cannot be read.
unfoldable pub write_body : Bytes → Option Bytes → Bytes
write_body name none = name ++ codes "dosn't exist"
write_body name (some dat) = dat

unfoldable pub get_tar : Files → Bytes → Bytes
get_tar files param =
    let name = first_part (split param b':') in write_body name (read_file_of files (tar_path name))

unfoldable pub get_slug : Files → Bytes → Bytes
get_slug files name = write_body name (read_file_of files (slug_path name))

-- What `io.Copy` wrote of a body: all of it, or the bytes before the error.
abbrev pub copied : Option ℕ → Bytes → Bytes
copied none body = body
copied (some written) body = take written body

-- The first error is that of `os.Create`, which makes the file anew; an error of `os.MkdirAll` is
-- dropped, and one of `os.Create` leaves nothing to copy to. The second is that of `io.Copy`, as the
-- number of the bytes written before it: it is dropped, and the file keeps those bytes.
unfoldable pub put_slug : Option Bytes → Option ℕ → Files → Bytes → Bytes → Files
put_slug none copy_error files name body = (slug_path name, copied copy_error body) ∷ files
put_slug (some e) copy_error files name body = files
