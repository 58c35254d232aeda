-- ===== src/Shell/Files/Running.antt =====
-- The command `vfs` keeps the kernel up and in order.
use compute_kernel_python.Prelude.{ℕ, String, ap, Option, none, some, List, Bool-cases, inl, inr}
use compute_kernel_python.Prelude.Eq.{◌==◌, nat_eq, string_eq}
use compute_kernel_python.Prelude.Dict.{has_key}
use compute_kernel_python.Paths.{is_empty}
use compute_kernel_python.Text.{is_space, strip}
use compute_kernel_python.Tmpfs.{Tmpfs, tmpfs}
use compute_kernel_python.Vfs
use compute_kernel_python.Vfs.{Vfs}
use compute_kernel_python.Vfs.Issued.{
  SameFiles, IsValid-SameFiles, mkdir-SameFiles, write_path-SameFiles,
}
use compute_kernel_python.Syscall.Dispatch.Private.{IsPrivate-keys}
use compute_kernel_python.Boot.Stages.{encoded}
use compute_kernel_python.KernelState.{Subsystems}
use compute_kernel_python.KernelState.Up.{IsSound}
use compute_kernel_python.Shell.Replies.{Session, machine_of, with_machine}
use compute_kernel_python.Shell.Running.{
  IsRunning, on_parts-IsRunning, with_parts-IsRunning, with_machine-IsSound,
}
use compute_kernel_python.Shell.Files.{
  cut, path_or, with_vfs, cat_reply, write_reply, write_words, mkdir_reply, vfs_words, do_vfs,
}

-- A change of the VFS that opens and closes nothing.
with_vfs-IsRunning :
    (v : Vfs Tmpfs) (parts : Subsystems) (s : Session)
    → SameFiles (machine_of parts).vfs v
    → IsRunning s
    → IsSound parts s.kernel.profile
    → IsRunning (with_vfs v parts s)
with_vfs-IsRunning v parts s same h sound =
    let m = machine_of parts in
    let m' = record m { vfs = v } in
    let o = sound.orderly in
    with_parts-IsRunning (with_machine m' parts) s h (
      with_machine-IsSound m' parts s
        (record {
          pids = o.pids;
          family = o.family;
          private_files =
              IsPrivate-keys m.processes.table m.vfs v
                (IsValid-SameFiles m.vfs v same o.private_files.valid)
                (λ fd. ap (has_key fd) same.1) o.private_files;
          linked = o.linked;
        })
        sound)

cat_reply-IsRunning :
    (path : String) (x : Option (List ℕ)) (s : Session)
    → IsRunning s
    → IsRunning (cat_reply path x s).session
unfolding cat_reply
cat_reply-IsRunning path none s h = h
cat_reply-IsRunning path (some bytes) s h = h

write_words-IsRunning :
    (x : String × Option String) (parts : Subsystems) (s : Session)
    → IsRunning s
    → IsSound parts s.kernel.profile
    → IsRunning (write_words x parts s).session
unfolding write_words write_reply
write_words-IsRunning (path, none) parts s h sound = h
write_words-IsRunning (path, some bytes) parts s h sound =
    let v = (machine_of parts).vfs in
    with_vfs-IsRunning (Vfs.write_path tmpfs path (encoded bytes) v).1 parts s
      (write_path-SameFiles tmpfs path (encoded bytes) v) h sound

mkdir_reply-IsRunning :
    (path : String) (parts : Subsystems) (s : Session)
    → IsRunning s
    → IsSound parts s.kernel.profile
    → IsRunning (mkdir_reply path parts s).session
unfolding mkdir_reply
mkdir_reply-IsRunning path parts s h sound =
    let v = (machine_of parts).vfs in
    with_vfs-IsRunning (Vfs.mkdir tmpfs path v).1 parts s (mkdir-SameFiles tmpfs path v) h sound

vfs_words-IsRunning :
    (name path : String) (parts : Subsystems) (s : Session)
    → IsRunning s
    → IsSound parts s.kernel.profile
    → IsRunning (vfs_words name path parts s).session
unfolding vfs_words
vfs_words-IsRunning name path parts s h sound = elim (Bool-cases (name == "mounts")) [
  | inl a ↦ rw (vfs_words, a) h
  | inr a ↦ elim (Bool-cases (name == "ls")) [
    | inl b ↦ rw (vfs_words, a, b) h
    | inr b ↦ elim (Bool-cases (name == "cat")) [
      | inl c ↦
          rw (vfs_words, a, b, c)
            (cat_reply-IsRunning path (Vfs.read_path tmpfs path 4096 (machine_of parts).vfs) s h)
      | inr c ↦ elim (Bool-cases (name == "mkdir")) [
        | inl d ↦ rw (vfs_words, a, b, c, d) (mkdir_reply-IsRunning path parts s h sound)
        | inr d ↦ elim (Bool-cases (name == "write")) [
          | inl e ↦
              rw (vfs_words, a, b, c, d, e)
                (write_words-IsRunning (cut (λ c. c == 32) path) parts s h sound)
          | inr e ↦ rw (vfs_words, a, b, c, d, e) h
        ]
      ]
    ]
  ]
]

pub do_vfs-IsRunning : (arg : String) (s : Session) → IsRunning s → IsRunning (do_vfs arg s).session
unfolding do_vfs
do_vfs-IsRunning arg s h =
    let (name, rest) = cut is_space (strip arg) in
    elim (Bool-cases (is_empty name)) [
      | inl e ↦ rw (do_vfs, e) h
      | inr e ↦
          rw (do_vfs, e)
            (on_parts-IsRunning "VFS not initialized."
              (λ parts. vfs_words name (path_or rest) parts s) s h
              (λ parts q sound. vfs_words-IsRunning name (path_or rest) parts s h sound))
    ]
