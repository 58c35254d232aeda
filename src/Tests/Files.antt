-- ===== src/Tests/Files.antt =====
-- Runs of the file system in memory at concrete inputs.
use compute_kernel_python.Prelude.{ℕ, ◌≡◌, refl, some, List, [], ◌∷◌}
use compute_kernel_python.Prelude.Eq.{nat_eq, string_eq}
use compute_kernel_python.Prelude.Dict.{get, put, adjust, has_key}
use compute_kernel_python.Tmpfs
use compute_kernel_python.Filesystem.{Inode, file, new_inode}
use compute_kernel_python.Tmpfs.{Tmpfs, lookup, lookup_name, create, read, write}

abbrev hi : List ℕ
hi = 104 ∷ 105 ∷ []

-- The root with one file.
abbrev tree : Tmpfs
tree = (create 1 "motd" file Tmpfs.init).1

abbrev motd : Inode
motd = new_inode 2 file 420

tree-motd : lookup 2 tree ≡ some motd
unfolding lookup create get put adjust has_key
tree-motd = refl
