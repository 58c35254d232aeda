-- ===== src/Tests/Vfs.antt =====
-- Runs of the virtual filesystem at concrete inputs, over the file system in memory.
use compute_kernel_python.Prelude.{
  ℕ, String, ◌≡◌, refl, true, false, none, some, List, [], ◌∷◌, ℤ, pos, take, any, ◌⊎◌,
}
use compute_kernel_python.Prelude.Eq.{nat_eq, string_eq}
use compute_kernel_python.Prelude.Dict.{get, put, adjust, has_key}
use compute_kernel_python.Memory.Space.{has_char}
use compute_kernel_python.Filesystem.{
  Inode, file, dir, new_inode, is_dir, created, value_error, add_entry, set_content,
}
use compute_kernel_python.Tmpfs
use compute_kernel_python.Tmpfs.{Tmpfs, tmpfs, create, lookup, lookup_name, write, read, set_size}
use compute_kernel_python.Tmpfs.Refines.{tmpfs-IsFilesystem}
use compute_kernel_python.Ext2
use compute_kernel_python.Ext2.Refines.{first_create_lem}
use compute_kernel_python.Paths.{parent_path, base_name}
use compute_kernel_python.Vfs
use compute_kernel_python.Vfs.{
  MountPoint, OpenFile, Vfs, found, fs_of, covers, find_mount, new_vfs, mount, resolve, walk,
  open_file, stat, create_file, read_path,
}
use compute_kernel_python.Vfs.Mounts.{mount_all, requested, closer, find_mount-mount_all}
use compute_kernel_python.Vfs.Issued.{IsValid}
use compute_kernel_python.Vfs.Opening.{Opens, open_file_lem}
use compute_kernel_python.Vfs.Handles.{
  Call, mount_call, open_call, close_call, create_file_call, run, Ascends, run-IsValid_new,
}
use compute_kernel_python.Vfs.Walk.{OnlyRoot, root_mount, stat-resolve}
use compute_kernel_python.Vfs.Sequential.{write-write}
use compute_kernel_python.Vfs.Contents.{
  create_file-Good, read_path-create_file, read_path-create_file_other,
}

abbrev objects : ℕ → Tmpfs
objects q = Tmpfs.init

abbrev two_mounts : List (String × ℕ × String)
two_mounts = ("/", 0, "tmpfs") ∷ ("/mnt", 1, "tmpfs") ∷ []

find_mount-mount_all_example :
    ((m : MountPoint) × (find_mount
          (mount_all tmpfs two_mounts (new_vfs tmpfs objects)).mounts
          "/mnt/a"
          none
        ≡ some m)
      × (covers "/mnt/a" m ≡ true)
      × (any (closer "/mnt/a" m) (requested tmpfs two_mounts) ≡ false))
    ⊎ ((any (covers "/mnt/a") (requested tmpfs two_mounts) ≡ false)
        × (find_mount (mount_all tmpfs two_mounts (new_vfs tmpfs objects)).mounts "/mnt/a" none
            ≡ none))
find_mount-mount_all_example = find_mount-mount_all tmpfs objects two_mounts "/mnt/a" refl

abbrev calls : List Call
calls =
    mount_call "/" 0 "tmpfs"
    ∷ create_file_call "/motd" (104 ∷ 105 ∷ [])
    ∷ open_call "/motd" "r"
    ∷ close_call 3
    ∷ open_call "/motd" "a"
    ∷ []

opened : (run tmpfs calls (new_vfs tmpfs objects)).0 ≡ 3 ∷ 4 ∷ []
unfolding new_vfs mount create_file open_file resolve walk find_mount Vfs.close parent_path
    base_name create lookup lookup_name write set_size get put adjust has_key has_char
opened = refl

run-IsValid_new_example :
    IsValid (run tmpfs calls (new_vfs tmpfs objects)).1
    × Ascends 3 (run tmpfs calls (new_vfs tmpfs objects)).0
run-IsValid_new_example = run-IsValid_new tmpfs objects calls

abbrev etc : Tmpfs
etc = (create 1 "etc" dir Tmpfs.init).1

-- A VFS with `/etc` in its one file system.
abbrev v : Vfs Tmpfs
v = record { objects = λ q. etc; mounts = root_mount 0 "tmpfs" ∷ []; open_files = []; next_fd = 3 }

abbrev w : Vfs Tmpfs
w = (create_file tmpfs "/etc/motd" (104 ∷ 105 ∷ []) v).1

open_file_lem_example :
    (x : ℤ × Vfs Tmpfs) × (open_file tmpfs "/etc" "w" v ≡ some x) × Opens "/etc" v x
open_file_lem_example = open_file_lem tmpfs tmpfs-IsFilesystem.0 "/etc" "w" v

etc-Good : tmpfs-IsFilesystem.0.Good etc
etc-Good = tmpfs-IsFilesystem.0.create_good Tmpfs.init 1 "etc" dir tmpfs-IsFilesystem.1

abbrev etc_inode : Inode
etc_inode = new_inode 2 dir 420

etc-lookup : lookup 2 etc ≡ some etc_inode
unfolding lookup create get put adjust has_key
etc-lookup = refl

etc-resolve : resolve tmpfs "/etc" v ≡ found 0 2
unfolding resolve walk find_mount create lookup_name get put adjust has_key
etc-resolve = refl

stat-resolve_example : (i : Inode) × (stat tmpfs "/etc" v ≡ some i) × (i.ino ≡ 2)
stat-resolve_example = stat-resolve tmpfs tmpfs-IsFilesystem.0 "/etc" v 0 2 etc-Good etc-resolve

etc-walk : walk tmpfs ("etc" ∷ []) 1 etc ≡ some 2
unfolding walk create lookup_name get put adjust has_key
etc-walk = refl

etc_free : has_key "motd" etc_inode.children ≡ false
unfolding has_key
etc_free = refl

read_path-create_file_example :
    read_path tmpfs "/etc/motd" 4096 (create_file tmpfs "/etc/motd" (104 ∷ 105 ∷ []) v).1
    ≡ some (take 4096 (104 ∷ 105 ∷ []))
read_path-create_file_example =
    read_path-create_file tmpfs tmpfs-IsFilesystem.0 v 0 "tmpfs" refl etc-Good ("etc" ∷ []) "motd"
      ((refl, refl), tt) (refl, refl) 2 etc_inode etc-walk etc-lookup refl etc_free (104 ∷ 105 ∷ [])
      4096

w-kept : tmpfs-IsFilesystem.0.Good (w.objects 0) × OnlyRoot tmpfs 0 "tmpfs" w
w-kept =
    create_file-Good tmpfs tmpfs-IsFilesystem.0 v 0 "tmpfs" refl etc-Good ("etc" ∷ []) "motd"
      ((refl, refl), tt) (refl, refl) 2 etc_inode etc-walk etc-lookup refl etc_free (104 ∷ 105 ∷ [])

abbrev w_etc : Inode
w_etc = add_entry "motd" 3 etc_inode

w-walk : walk tmpfs ("etc" ∷ []) (tmpfs.root_ino (w.objects 0)) (w.objects 0) ≡ some 2
unfolding create_file resolve walk find_mount parent_path base_name create lookup lookup_name write
    read read_path set_size get put adjust has_key
w-walk = refl

w-lookup : tmpfs.lookup 2 (w.objects 0) ≡ some w_etc
unfolding create_file resolve walk find_mount parent_path base_name create lookup lookup_name write
    read read_path set_size get put adjust has_key
w-lookup = refl

w_free : has_key "issue" w_etc.children ≡ false
unfolding put has_key
w_free = refl

w-motd : read_path tmpfs "/etc/motd" 1 w ≡ some (104 ∷ [])
unfolding create_file resolve walk find_mount parent_path base_name create lookup lookup_name write
    read read_path set_size get put adjust has_key
w-motd = refl

read_path-create_file_other_example :
    read_path tmpfs "/etc/motd" 1 (create_file tmpfs "/etc/issue" (33 ∷ []) w).1 ≡ some (104 ∷ [])
read_path-create_file_other_example =
    read_path-create_file_other tmpfs tmpfs-IsFilesystem.0 w 0 "tmpfs" w-kept.1 w-kept.0
      ("etc" ∷ []) "issue" ((refl, refl), tt) (refl, refl) 2 w_etc w-walk w-lookup refl w_free
      (33 ∷ []) ("etc" ∷ "motd" ∷ []) 1 (104 ∷ []) ((refl, refl), ((refl, refl), tt)) w-motd

-- `/etc/motd`, opened to append.
abbrev motd_open : OpenFile
motd_open = record {
  fd = 3;
  path = "/etc/motd";
  ino = 3;
  flags = "a";
  position = 2;
  fs_name = "tmpfs";
}

abbrev motd_inode : Inode
motd_inode = set_content (104 ∷ 105 ∷ []) (new_inode 3 file 420)

abbrev u : Vfs Tmpfs
u = record { objects = w.objects; mounts = w.mounts; open_files = (3, motd_open) ∷ []; next_fd = 4 }

motd_opened : open_file tmpfs "/etc/motd" "a" w ≡ some (pos 3, u)
unfolding open_file create_file resolve walk find_mount parent_path base_name create lookup
    lookup_name write set_size get put adjust has_key has_char
motd_opened = refl

motd-get : get 3 u.open_files ≡ some motd_open
unfolding get
motd-get = refl

motd-resolve : fs_of (resolve tmpfs "/etc/motd" u) ≡ some 0
unfolding create_file resolve walk find_mount parent_path base_name create lookup lookup_name write
    set_size get put adjust has_key
motd-resolve = refl

motd-lookup : lookup 3 (u.objects 0) ≡ some motd_inode
unfolding create_file resolve walk find_mount parent_path base_name create lookup lookup_name write
    set_size get put adjust has_key
motd-lookup = refl

write-write_example :
    ((Vfs.write tmpfs 3 (33 ∷ []) u).0 ≡ pos 1)
    × ((Vfs.write tmpfs 3 (10 ∷ 10 ∷ []) (Vfs.write tmpfs 3 (33 ∷ []) u).1).0 ≡ pos 2)
    × ((q j : ℕ)
        → lookup j
            ((Vfs.write tmpfs 3 (10 ∷ 10 ∷ []) (Vfs.write tmpfs 3 (33 ∷ []) u).1).1.objects q)
          ≡ lookup j ((Vfs.write tmpfs 3 (33 ∷ 10 ∷ 10 ∷ []) u).1.objects q))
    × (get 3 (Vfs.write tmpfs 3 (10 ∷ 10 ∷ []) (Vfs.write tmpfs 3 (33 ∷ []) u).1).1.open_files
        ≡ get 3 (Vfs.write tmpfs 3 (33 ∷ 10 ∷ 10 ∷ []) u).1.open_files)
write-write_example =
    write-write tmpfs tmpfs-IsFilesystem.0 3 motd_open 0 motd_inode (33 ∷ []) (10 ∷ 10 ∷ []) u
      (motd-get, motd-resolve, motd-lookup, refl)

first_create_lem_example :
    ((Ext2.create Ext2.root_ino "motd" file (Ext2.init "vol")).0 ≡ created Ext2.root_ino)
    × (Ext2.lookup Ext2.root_ino (Ext2.create Ext2.root_ino "motd" file (Ext2.init "vol")).1
        ≡ some (new_inode Ext2.root_ino file 420))
    × (Ext2.lookup_name Ext2.root_ino "etc"
          (Ext2.create Ext2.root_ino "motd" file (Ext2.init "vol")).1
        ≡ none)
    × ((is_dir file ≡ true)
        ⊎ ((Ext2.create Ext2.root_ino "etc" dir
              (Ext2.create Ext2.root_ino "motd" file (Ext2.init "vol")).1).0
            ≡ value_error))
first_create_lem_example = first_create_lem "vol" "motd" "etc" file dir
