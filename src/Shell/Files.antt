-- ===== src/Shell/Files.antt =====
-- The command `vfs` of computekernel_edu/shell.py.
pub mod Running
use Prim.Native.Char.{code}
use compute_kernel_python.Prelude.{
  ℕ, ◌-◌, String, Bool, true, false, not, Option, none, some, List, [], ◌∷◌, map, if◌then◌else◌,
}
use compute_kernel_python.Prelude.Eq.{◌==◌, nat_eq, string_eq}
use compute_kernel_python.Paths.{◌<>◌, is_empty, text_length}
use compute_kernel_python.Text.{is_space, lstrip, strip, repeat}
use compute_kernel_python.Text.Numbers.{show}
use compute_kernel_python.Utils.{green}
use compute_kernel_python.Filesystem.{Filesystem}
use compute_kernel_python.Tmpfs.{Tmpfs, tmpfs}
use compute_kernel_python.Vfs
use compute_kernel_python.Vfs.{Vfs, MountPoint}
use compute_kernel_python.Boot.Stages.{encoded}
use compute_kernel_python.KernelState.{Subsystems}
use compute_kernel_python.Shell.Replies.{
  Printed, text, grid, content, Session, Reply, says, says_text, on_parts, machine_of, with_parts,
  with_machine, verdict,
}

-- A text up to its first space of some kind, and what comes after that.
abbrev pub cut : (ℕ → Bool) → String → String × Option String
cut p String.[] = (String.[], none)
cut p (String.◌∷◌ c s) =
    let (front, back) = cut p s in
    if p (code c) then (String.[], some s) else (String.◌∷◌ c front, back)

-- `args[1].strip() if len(args) > 1 else "/"`, for `args = arg.strip().split(None, 1)`
abbrev path_or : Option String → String
path_or none = "/"
path_or (some rest) = strip rest

abbrev pub with_vfs : Vfs Tmpfs → Subsystems → Session → Session
with_vfs v parts s = with_parts (with_machine (record (machine_of parts) { vfs = v }) parts) s

abbrev mount_row : Vfs Tmpfs → MountPoint → List String
mount_row v m = m.path ∷ tmpfs.fstype (v.objects m.fs) ∷ m.source ∷ []

-- `f"  {name:30s} (ino={ino})"`
abbrev entry_line : String × ℕ → Printed
entry_line (name, ino) =
    text ("  " <> (name <> (repeat (30 - text_length name) " " <> (" (ino=" <> (show ino <> ")")))))

cat_reply : String → Option (List ℕ) → Session → Reply
cat_reply path none s = says_text ("cat: " <> (path <> ": No such file or directory")) s
cat_reply path (some bytes) s = says (content bytes ∷ []) s

-- The number that `write_path` returns is never `False`. The texts are of ASCII characters.
write_reply : String → Option String → Subsystems → Session → Reply
write_reply path none parts s = says_text "Usage: vfs write <path> <data>" s
write_reply path (some bytes) parts s =
    says_text (green ("Wrote " <> (show (text_length bytes) <> (" bytes to '" <> (path <> "'")))))
      (with_vfs (Vfs.write_path tmpfs path (encoded bytes) (machine_of parts).vfs).1 parts s)

write_words : String × Option String → Subsystems → Session → Reply
unfolding write_reply
write_words (front, back) parts s = write_reply front back parts s

mkdir_reply : String → Subsystems → Session → Reply
mkdir_reply path parts s =
    let (ok, v) = Vfs.mkdir tmpfs path (machine_of parts).vfs in
    verdict ok ("mkdir: created '" <> (path <> "'")) ("mkdir: cannot create '" <> (path <> "'"))
      (with_vfs v parts s)

-- `readdir` returns a list for every path, so that the test for `None` never holds.
vfs_words : String → String → Subsystems → Session → Reply
unfolding cat_reply write_words mkdir_reply
vfs_words name path parts s =
    let v = (machine_of parts).vfs in
    if name == "mounts"
    then says (grid ("TARGET" ∷ "FSTYPE" ∷ "SOURCE" ∷ []) (map (mount_row v) v.mounts) ∷ []) s
    else if name == "ls"
    then says (map entry_line (Vfs.readdir tmpfs path v)) s
    else if name == "cat"
    then cat_reply path (Vfs.read_path tmpfs path 4096 v) s
    else if name == "mkdir"
    then mkdir_reply path parts s
    else if name == "write"
    then write_words (cut (λ c. c == 32) path) parts s
    else says_text "Usage: vfs ls <path> | vfs cat <path> | vfs mounts | vfs mkdir <path>" s

unfoldable pub do_vfs : String → Session → Reply
unfolding vfs_words
do_vfs arg s =
    let (name, rest) = cut is_space (strip arg) in
    if is_empty name
    then says_text "Usage: vfs ls <path> | vfs cat <path> | vfs mounts" s
    else on_parts "VFS not initialized." (λ parts. vfs_words name (path_or rest) parts s) s
