-- ===== src/Text/Tests.antt =====
-- Runs of kernel/string.c and of the path texts of fs/minix1/namei.c.
use rdix.Common.{ℕ, ◌≡◌, refl, List, [], ◌∷◌, some, ok, panic}
use rdix.Text.{
  strcpy, strcat, string_length, to_separator, next_name, filename_loop, filename, strrsep,
  strrsep_from,
}

-- "/a/bc"
abbrev a_path : List ℕ
a_path = b'/' ∷ b'a' ∷ b'/' ∷ b'b' ∷ b'c' ∷ []

filename_test : filename a_path ≡ ok (some (b'b' ∷ b'c' ∷ []))
unfolding filename filename_loop next_name to_separator
filename_test = refl

-- an empty path is read through NULL
empty_test : filename [] ≡ panic
unfolding filename filename_loop next_name
empty_test = refl

strrsep_test : strrsep a_path ≡ some (b'/' ∷ b'b' ∷ b'c' ∷ [])
unfolding strrsep strrsep_from
strrsep_test = refl

strcat_test :
    strcat (b'a' ∷ 0 ∷ 7 ∷ 7 ∷ 7 ∷ []) (b'b' ∷ b'c' ∷ []) ≡ ok (b'a' ∷ b'b' ∷ b'c' ∷ 0 ∷ 7 ∷ [])
unfolding strcat string_length strcpy
strcat_test = refl
